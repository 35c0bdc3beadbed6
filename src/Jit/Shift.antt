-- ===== src/Jit/Shift.antt =====
-- The shifts by an immediate and by a register, of 64 and of 32 bits (src/bpf/jit.c).
pub mod Signed
pub mod Labels
pub mod Right
pub mod Word
use nfp_drv_kmods.Base.{
  ℕ, zero, suc, ◌+◌, ◌*◌, ◌-◌, ◌^◌, ◌%◌, Bool, true, false, not, ◌==◌, if◌then◌else◌, u8, u16, ltb,
  einval, Result, ok, err,
}
use nfp_drv_kmods.Jit.Prog.{
  Prog, current_offset, confirm_current_offset, both, reg_a, reg_b, reg_imm, reg_none, imm_a,
  imm_both,
}
use nfp_drv_kmods.Jit.Emit.{emit_br, emit_br_bset, br_unc}
use nfp_drv_kmods.Jit.Emit.Alu.{
  emit_alu, emit_shf, emit_shf_indir, alu_none, alu_or, alu_sub, shf_none, shf_ashr, r_shf, l_shf,
  r_dshf,
}
use nfp_drv_kmods.Jit.Wrap.{Meta, wrp_immed, wrp_zext, wrp_reg_mov}

-- The functions that return 0 at all times give the program alone.
unfoldable pub shl_imm64_by : Prog → ℕ → ℕ → Prog
unfolding emit_shf wrp_reg_mov wrp_immed
shl_imm64_by p dst shift_amt =
    if shift_amt == 0
    then p
    else if ltb shift_amt 32
    then emit_shf
        (emit_shf p (both (dst + 1)) (reg_a (dst + 1)) shf_none (reg_b dst) r_dshf (32 - shift_amt))
        (both dst) reg_none shf_none (reg_b dst) l_shf shift_amt
    else if shift_amt == 32
    then wrp_immed (wrp_reg_mov p (dst + 1) dst) (both dst) 0
    else wrp_immed
        (emit_shf p (both (dst + 1)) reg_none shf_none (reg_b dst) l_shf (shift_amt - 32))
        (both dst) 0

unfoldable pub shl_imm64 : Prog → Meta → Prog
unfolding shl_imm64_by
shl_imm64 p meta = shl_imm64_by p (meta.dst_reg * 2) (u8 meta.imm)

unfoldable pub shl_reg64_lt32_high : Prog → ℕ → ℕ → Prog
unfolding emit_alu emit_shf_indir
shl_reg64_lt32_high p dst src =
    let p = emit_alu p imm_both (reg_imm 32) alu_sub (reg_b src) in
    let p = emit_alu p reg_none imm_a alu_or (reg_imm 0) in
    emit_shf_indir p (both (dst + 1)) (reg_a (dst + 1)) shf_none (reg_b dst) r_dshf

unfoldable pub shl_reg64_lt32_low : Prog → ℕ → ℕ → Prog
unfolding emit_alu emit_shf_indir
shl_reg64_lt32_low p dst src =
    let p = emit_alu p reg_none (reg_a src) alu_or (reg_imm 0) in
    emit_shf_indir p (both dst) reg_none shf_none (reg_b dst) l_shf

unfoldable pub shl_reg64_lt32 : Prog → ℕ → ℕ → Prog
unfolding shl_reg64_lt32_high shl_reg64_lt32_low
shl_reg64_lt32 p dst src = shl_reg64_lt32_low (shl_reg64_lt32_high p dst src) dst src

unfoldable pub shl_reg64_ge32 : Prog → ℕ → ℕ → Prog
unfolding emit_alu emit_shf_indir wrp_immed
shl_reg64_ge32 p dst src =
    let p = emit_alu p reg_none (reg_a src) alu_or (reg_imm 0) in
    let p = emit_shf_indir p (both (dst + 1)) reg_none shf_none (reg_b dst) l_shf in
    wrp_immed p (both dst) 0

-- Two sequences, one of which runs: the tail that `nfp_prog_confirm_current_offset` guards twice.
unfoldable pub confirmed : Prog → ℕ → (Prog → Prog) → ℕ → Result Prog
unfolding confirm_current_offset
confirmed p label_ge32 ge32 label_end =
    let q = ge32 p in
    if not (confirm_current_offset p label_ge32)
    then err einval
    else if not (confirm_current_offset q label_end)
    then err einval
    else ok q

unfoldable pub shl_reg64_any : Prog → ℕ → ℕ → Result Prog
unfolding emit_br emit_br_bset shl_reg64_lt32_high shl_reg64_lt32_low shl_reg64_ge32 confirmed
shl_reg64_any p dst src =
    let label_ge32 = u16 (current_offset p + 7) in
    let p = emit_br_bset p (reg_a src) 5 label_ge32 0 in
    let p = shl_reg64_lt32_high p dst src in
    let label_end = u16 (current_offset p + 6) in
    let p = emit_br p br_unc label_end 2 in
    let p = shl_reg64_lt32_low p dst src in
    confirmed p label_ge32 (λ q. shl_reg64_ge32 q dst src) label_end

unfoldable pub shl_reg64 : Prog → Meta → Result Prog
unfolding shl_imm64_by shl_reg64_lt32 shl_reg64_ge32 shl_reg64_any
shl_reg64 p meta =
    let dst = meta.dst_reg * 2 in
    let src = meta.src_reg * 2 in
    if meta.umin_src == meta.umax_src
    then ok (shl_imm64_by p dst (u8 meta.umin_src))
    else if ltb meta.umax_src 32
    then ok (shl_reg64_lt32 p dst src)
    else if not (ltb meta.umin_src 32)
    then ok (shl_reg64_ge32 p dst src)
    else shl_reg64_any p dst src

unfoldable pub shr_imm64_by : Prog → ℕ → ℕ → Prog
unfolding emit_shf wrp_reg_mov wrp_immed
shr_imm64_by p dst shift_amt =
    if shift_amt == 0
    then p
    else if ltb shift_amt 32
    then emit_shf (emit_shf p (both dst) (reg_a (dst + 1)) shf_none (reg_b dst) r_dshf shift_amt)
        (both (dst + 1)) reg_none shf_none (reg_b (dst + 1)) r_shf shift_amt
    else if shift_amt == 32
    then wrp_immed (wrp_reg_mov p dst (dst + 1)) (both (dst + 1)) 0
    else wrp_immed
        (emit_shf p (both dst) reg_none shf_none (reg_b (dst + 1)) r_shf (shift_amt - 32))
        (both (dst + 1)) 0

unfoldable pub shr_imm64 : Prog → Meta → Prog
unfolding shr_imm64_by
shr_imm64 p meta = shr_imm64_by p (meta.dst_reg * 2) (u8 meta.imm)

unfoldable pub shr_reg64_lt32_high : Prog → ℕ → ℕ → Prog
unfolding emit_alu emit_shf_indir
shr_reg64_lt32_high p dst src =
    let p = emit_alu p reg_none (reg_a src) alu_or (reg_imm 0) in
    emit_shf_indir p (both (dst + 1)) reg_none shf_none (reg_b (dst + 1)) r_shf

unfoldable pub shr_reg64_lt32_low : Prog → ℕ → ℕ → Prog
unfolding emit_alu emit_shf_indir
shr_reg64_lt32_low p dst src =
    let p = emit_alu p reg_none (reg_a src) alu_or (reg_imm 0) in
    emit_shf_indir p (both dst) (reg_a (dst + 1)) shf_none (reg_b dst) r_dshf

unfoldable pub shr_reg64_lt32 : Prog → ℕ → ℕ → Prog
unfolding shr_reg64_lt32_high shr_reg64_lt32_low
shr_reg64_lt32 p dst src = shr_reg64_lt32_high (shr_reg64_lt32_low p dst src) dst src

unfoldable pub shr_reg64_ge32 : Prog → ℕ → ℕ → Prog
unfolding emit_alu emit_shf_indir wrp_immed
shr_reg64_ge32 p dst src =
    let p = emit_alu p reg_none (reg_a src) alu_or (reg_imm 0) in
    let p = emit_shf_indir p (both dst) reg_none shf_none (reg_b (dst + 1)) r_shf in
    wrp_immed p (both (dst + 1)) 0

unfoldable pub shr_reg64_any : Prog → ℕ → ℕ → Result Prog
unfolding emit_br emit_br_bset shr_reg64_lt32_high shr_reg64_lt32_low shr_reg64_ge32 confirmed
shr_reg64_any p dst src =
    let label_ge32 = u16 (current_offset p + 6) in
    let p = emit_br_bset p (reg_a src) 5 label_ge32 0 in
    let p = shr_reg64_lt32_low p dst src in
    let label_end = u16 (current_offset p + 6) in
    let p = emit_br p br_unc label_end 2 in
    let p = shr_reg64_lt32_high p dst src in
    confirmed p label_ge32 (λ q. shr_reg64_ge32 q dst src) label_end

unfoldable pub shr_reg64 : Prog → Meta → Result Prog
unfolding shr_imm64_by shr_reg64_lt32 shr_reg64_ge32 shr_reg64_any
shr_reg64 p meta =
    let dst = meta.dst_reg * 2 in
    let src = meta.src_reg * 2 in
    if meta.umin_src == meta.umax_src
    then ok (shr_imm64_by p dst (u8 meta.umin_src))
    else if ltb meta.umax_src 32
    then ok (shr_reg64_lt32 p dst src)
    else if not (ltb meta.umin_src 32)
    then ok (shr_reg64_ge32 p dst src)
    else shr_reg64_any p dst src
