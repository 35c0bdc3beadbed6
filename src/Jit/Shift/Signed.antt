-- ===== src/Jit/Shift/Signed.antt =====
-- The arithmetic shifts of 64 bits (src/bpf/jit.c).
use nfp_drv_kmods.Base.{ℕ, ◌+◌, ◌*◌, ◌-◌, not, ◌==◌, if◌then◌else◌, u8, u16, ltb, Result, ok}
use nfp_drv_kmods.Jit.Prog.{Prog, current_offset, both, reg_a, reg_b, reg_imm, reg_none}
use nfp_drv_kmods.Jit.Emit.{emit_br, emit_br_bset, br_unc}
use nfp_drv_kmods.Jit.Emit.Alu.{
  emit_alu, emit_shf, emit_shf_indir, alu_or, shf_none, shf_ashr, r_shf, r_dshf,
}
use nfp_drv_kmods.Jit.Wrap.{Meta, wrp_reg_mov}
use nfp_drv_kmods.Jit.Shift.{shr_reg64_lt32_low, confirmed}

unfoldable pub ashr_imm64_by : Prog → ℕ → ℕ → Prog
unfolding emit_alu emit_shf wrp_reg_mov
ashr_imm64_by p dst shift_amt =
    let high = both (dst + 1) in
    if shift_amt == 0
    then p
    else if ltb shift_amt 32
    then (let p = emit_shf p (both dst) (reg_a (dst + 1)) shf_none (reg_b dst) r_dshf shift_amt in
        let p = emit_alu p reg_none (reg_a (dst + 1)) alu_or (reg_imm 0) in
        emit_shf p high reg_none shf_ashr (reg_b (dst + 1)) r_shf shift_amt)
    else if shift_amt == 32
    then (let p = wrp_reg_mov p dst (dst + 1) in
        emit_shf p high reg_none shf_ashr (reg_b (dst + 1)) r_shf 31)
    else (let p = emit_alu p reg_none (reg_a (dst + 1)) alu_or (reg_imm 0) in
        let p = emit_shf p (both dst) reg_none shf_ashr (reg_b (dst + 1)) r_shf (shift_amt - 32) in
        emit_shf p high reg_none shf_ashr (reg_b (dst + 1)) r_shf 31)

unfoldable pub ashr_imm64 : Prog → Meta → Prog
unfolding ashr_imm64_by
ashr_imm64 p meta = ashr_imm64_by p (meta.dst_reg * 2) (u8 meta.imm)

unfoldable pub ashr_reg64_lt32_high : Prog → ℕ → ℕ → Prog
unfolding emit_alu emit_shf_indir
ashr_reg64_lt32_high p dst src =
    let p = emit_alu p reg_none (reg_a src) alu_or (reg_b (dst + 1)) in
    emit_shf_indir p (both (dst + 1)) reg_none shf_ashr (reg_b (dst + 1)) r_shf

unfoldable pub ashr_reg64_lt32_low : Prog → ℕ → ℕ → Prog
unfolding shr_reg64_lt32_low
ashr_reg64_lt32_low p dst src = shr_reg64_lt32_low p dst src

unfoldable pub ashr_reg64_lt32 : Prog → ℕ → ℕ → Prog
unfolding ashr_reg64_lt32_low ashr_reg64_lt32_high
ashr_reg64_lt32 p dst src = ashr_reg64_lt32_high (ashr_reg64_lt32_low p dst src) dst src

unfoldable pub ashr_reg64_ge32 : Prog → ℕ → ℕ → Prog
unfolding emit_alu emit_shf emit_shf_indir
ashr_reg64_ge32 p dst src =
    let p = emit_alu p reg_none (reg_a src) alu_or (reg_b (dst + 1)) in
    let p = emit_shf_indir p (both dst) reg_none shf_ashr (reg_b (dst + 1)) r_shf in
    emit_shf p (both (dst + 1)) reg_none shf_ashr (reg_b (dst + 1)) r_shf 31

unfoldable pub ashr_reg64_any : Prog → ℕ → ℕ → Result Prog
unfolding emit_br emit_br_bset ashr_reg64_lt32_low ashr_reg64_lt32_high ashr_reg64_ge32 confirmed
ashr_reg64_any p dst src =
    let label_ge32 = u16 (current_offset p + 6) in
    let p = emit_br_bset p (reg_a src) 5 label_ge32 0 in
    let p = ashr_reg64_lt32_low p dst src in
    let label_end = u16 (current_offset p + 6) in
    let p = emit_br p br_unc label_end 2 in
    let p = ashr_reg64_lt32_high p dst src in
    confirmed p label_ge32 (λ q. ashr_reg64_ge32 q dst src) label_end

unfoldable pub ashr_reg64 : Prog → Meta → Result Prog
unfolding ashr_imm64_by ashr_reg64_lt32 ashr_reg64_ge32 ashr_reg64_any
ashr_reg64 p meta =
    let dst = meta.dst_reg * 2 in
    let src = meta.src_reg * 2 in
    if meta.umin_src == meta.umax_src
    then ok (ashr_imm64_by p dst (u8 meta.umin_src))
    else if ltb meta.umax_src 32
    then ok (ashr_reg64_lt32 p dst src)
    else if not (ltb meta.umin_src 32)
    then ok (ashr_reg64_ge32 p dst src)
    else ashr_reg64_any p dst src
