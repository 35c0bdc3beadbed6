-- ===== src/Jit/Shift/Word.antt =====
-- The shifts of 32 bits and the swaps of bytes (src/bpf/jit.c).
use nfp_drv_kmods.Base.{ℕ, false, ◌+◌, ◌*◌, ◌==◌, if◌then◌else◌, u8}
use nfp_drv_kmods.Jit.Prog.{Prog, both, reg_a, reg_b, reg_imm, reg_none, imm_a}
use nfp_drv_kmods.Jit.Count.{
  Emits-zero, emit_shf-Emits, emit_shf_indir-Emits, emit_ld_field_any-Emits,
}
use nfp_drv_kmods.Jit.Emit.Alu.{
  emit_alu, emit_shf, emit_shf_indir, emit_ld_field, alu_or, alu_none, shf_none, shf_ashr, r_shf,
  l_shf,
}
use nfp_drv_kmods.Jit.Wrap.{Meta, wrp_zext, wrp_immed, wrp_mov, wrp_end32}
use nfp_drv_kmods.Jit.Alu.Grow.{Grows-then, alu-Grows, immed-Grows, zext-Grows}
use nfp_drv_kmods.Jit.Shift.{shl_reg64_lt32_low}
use nfp_drv_kmods.Jit.Shift.Labels.{Grows, Grows-if, amount-Emits, shl_low-Emits}

unfoldable pub ashr_imm_by : Prog → Meta → ℕ → ℕ → Prog
unfolding emit_alu emit_shf wrp_zext
ashr_imm_by p meta dst shift_amt =
    let q = emit_alu p reg_none (reg_a dst) alu_or (reg_imm 0) in
    let q = emit_shf q (both dst) reg_none shf_ashr (reg_b dst) r_shf shift_amt in
    wrp_zext (if shift_amt == 0 then p else q) meta dst

unfoldable pub ashr_reg : Prog → Meta → Prog
unfolding ashr_imm_by emit_shf_indir
ashr_reg p meta =
    let dst = meta.dst_reg * 2 in
    let src = meta.src_reg * 2 in
    let q = emit_alu p reg_none (reg_a src) alu_or (reg_b dst) in
    let q = emit_shf_indir q (both dst) reg_none shf_ashr (reg_b dst) r_shf in
    if meta.umin_src == meta.umax_src
    then ashr_imm_by p meta dst (u8 meta.umin_src)
    else wrp_zext q meta dst

unfoldable pub ashr_imm : Prog → Meta → Prog
unfolding ashr_imm_by
ashr_imm p meta = ashr_imm_by p meta (meta.dst_reg * 2) (u8 meta.imm)

unfoldable pub shr_imm_by : Prog → Meta → ℕ → ℕ → Prog
unfolding emit_shf wrp_zext
shr_imm_by p meta dst shift_amt =
    let q = emit_shf p (both dst) reg_none shf_none (reg_b dst) r_shf shift_amt in
    wrp_zext (if shift_amt == 0 then p else q) meta dst

unfoldable pub shr_imm : Prog → Meta → Prog
unfolding shr_imm_by
shr_imm p meta = shr_imm_by p meta (meta.dst_reg * 2) (u8 meta.imm)

unfoldable pub shr_reg : Prog → Meta → Prog
unfolding shr_imm_by emit_alu emit_shf_indir
shr_reg p meta =
    let dst = meta.dst_reg * 2 in
    let src = meta.src_reg * 2 in
    let q = emit_alu p reg_none (reg_a src) alu_or (reg_imm 0) in
    let q = emit_shf_indir q (both dst) reg_none shf_none (reg_b dst) r_shf in
    if meta.umin_src == meta.umax_src
    then shr_imm_by p meta dst (u8 meta.umin_src)
    else wrp_zext q meta dst

unfoldable pub shl_imm_by : Prog → Meta → ℕ → ℕ → Prog
unfolding emit_shf wrp_zext
shl_imm_by p meta dst shift_amt =
    let q = emit_shf p (both dst) reg_none shf_none (reg_b dst) l_shf shift_amt in
    wrp_zext (if shift_amt == 0 then p else q) meta dst

unfoldable pub shl_imm : Prog → Meta → Prog
unfolding shl_imm_by
shl_imm p meta = shl_imm_by p meta (meta.dst_reg * 2) (u8 meta.imm)

unfoldable pub shl_reg : Prog → Meta → Prog
unfolding shl_imm_by shl_reg64_lt32_low
shl_reg p meta =
    let dst = meta.dst_reg * 2 in
    if meta.umin_src == meta.umax_src
    then shl_imm_by p meta dst (u8 meta.umin_src)
    else wrp_zext (shl_reg64_lt32_low p dst (meta.src_reg * 2)) meta dst

unfoldable pub end_reg32 : Prog → Meta → Prog
unfolding emit_ld_field wrp_end32 wrp_mov wrp_immed
end_reg32 p meta =
    let gpr = meta.dst_reg * 2 in
    let half = emit_ld_field p (both gpr) 0x9 (reg_b gpr) 0 8 in
    let half = emit_ld_field half (both gpr) 0xe (reg_a gpr) r_shf 16 in
    let whole = wrp_mov p imm_a (reg_b (gpr + 1)) in
    let whole = wrp_end32 whole (reg_a gpr) (gpr + 1) in
    if meta.imm == 16
    then wrp_immed half (both (gpr + 1)) 0
    else if meta.imm == 32
    then wrp_immed (wrp_end32 p (reg_a gpr) gpr) (both (gpr + 1)) 0
    else if meta.imm == 64
    then wrp_end32 whole imm_a gpr
    else p

shf-Grows :
    (p : Prog) (dst lreg op rreg sc shift : ℕ) → Grows p (emit_shf p dst lreg op rreg sc shift)
shf-Grows p dst lreg op rreg sc shift = (1, emit_shf-Emits p dst lreg op rreg sc shift)

indir-Grows : (p : Prog) (dst lreg op rreg sc : ℕ) → Grows p (emit_shf_indir p dst lreg op rreg sc)
indir-Grows p dst lreg op rreg sc = (1, emit_shf_indir-Emits p dst lreg op rreg sc)

field-Grows :
    (p : Prog) (dst bmask src sc shift : ℕ) → Grows p (emit_ld_field p dst bmask src sc shift)
unfolding emit_ld_field
field-Grows p dst bmask src sc shift = (1, emit_ld_field_any-Emits p dst bmask src sc shift false)

ashr_by-Grows : (p : Prog) (meta : Meta) (dst n : ℕ) → Grows p (ashr_imm_by p meta dst n)
unfolding ashr_imm_by
ashr_by-Grows p meta dst n =
    Grows-then
      (Grows-if (n == 0) p _ _ (0, Emits-zero p)
        (Grows-then (alu-Grows p reg_none (reg_a dst) alu_or (reg_imm 0))
          (shf-Grows _ (both dst) reg_none shf_ashr (reg_b dst) r_shf n)))
      (zext-Grows _ meta dst)

pub ashr_imm-Grows : (p : Prog) (meta : Meta) → Grows p (ashr_imm p meta)
unfolding ashr_imm
ashr_imm-Grows p meta = ashr_by-Grows p meta (meta.dst_reg * 2) (u8 meta.imm)

pub ashr_reg-Grows : (p : Prog) (meta : Meta) → Grows p (ashr_reg p meta)
unfolding ashr_reg
ashr_reg-Grows p meta =
    let dst = meta.dst_reg * 2 in
    Grows-if (meta.umin_src == meta.umax_src) p _ _ (ashr_by-Grows p meta dst (u8 meta.umin_src)) (
      Grows-then
        (Grows-then (alu-Grows p reg_none (reg_a (meta.src_reg * 2)) alu_or (reg_b dst))
          (indir-Grows _ (both dst) reg_none shf_ashr (reg_b dst) r_shf))
        (zext-Grows _ meta dst))

shr_by-Grows : (p : Prog) (meta : Meta) (dst n : ℕ) → Grows p (shr_imm_by p meta dst n)
unfolding shr_imm_by
shr_by-Grows p meta dst n =
    Grows-then
      (Grows-if (n == 0) p _ _ (0, Emits-zero p)
        (shf-Grows p (both dst) reg_none shf_none (reg_b dst) r_shf n))
      (zext-Grows _ meta dst)

pub shr_imm-Grows : (p : Prog) (meta : Meta) → Grows p (shr_imm p meta)
unfolding shr_imm
shr_imm-Grows p meta = shr_by-Grows p meta (meta.dst_reg * 2) (u8 meta.imm)

pub shr_reg-Grows : (p : Prog) (meta : Meta) → Grows p (shr_reg p meta)
unfolding shr_reg
shr_reg-Grows p meta =
    let dst = meta.dst_reg * 2 in
    Grows-if (meta.umin_src == meta.umax_src) p _ _ (shr_by-Grows p meta dst (u8 meta.umin_src)) (
      Grows-then
        (Grows-then (1, amount-Emits p (meta.src_reg * 2))
          (indir-Grows _ (both dst) reg_none shf_none (reg_b dst) r_shf))
        (zext-Grows _ meta dst))

shl_by-Grows : (p : Prog) (meta : Meta) (dst n : ℕ) → Grows p (shl_imm_by p meta dst n)
unfolding shl_imm_by
shl_by-Grows p meta dst n =
    Grows-then
      (Grows-if (n == 0) p _ _ (0, Emits-zero p)
        (shf-Grows p (both dst) reg_none shf_none (reg_b dst) l_shf n))
      (zext-Grows _ meta dst)

pub shl_imm-Grows : (p : Prog) (meta : Meta) → Grows p (shl_imm p meta)
unfolding shl_imm
shl_imm-Grows p meta = shl_by-Grows p meta (meta.dst_reg * 2) (u8 meta.imm)

pub shl_reg-Grows : (p : Prog) (meta : Meta) → Grows p (shl_reg p meta)
unfolding shl_reg
shl_reg-Grows p meta =
    let dst = meta.dst_reg * 2 in
    Grows-if (meta.umin_src == meta.umax_src) p _ _ (shl_by-Grows p meta dst (u8 meta.umin_src))
      (Grows-then (2, shl_low-Emits p dst (meta.src_reg * 2)) (zext-Grows _ meta dst))

end32-Grows : (p : Prog) (reg_in gpr_out : ℕ) → Grows p (wrp_end32 p reg_in gpr_out)
unfolding wrp_end32
end32-Grows p reg_in gpr_out =
    Grows-then (field-Grows p (both gpr_out) 0xf reg_in 0 8)
      (field-Grows _ (both gpr_out) 0x5 (reg_a gpr_out) 0 16)

pub end_reg32-Grows : (p : Prog) (meta : Meta) → Grows p (end_reg32 p meta)
unfolding end_reg32 wrp_mov
end_reg32-Grows p meta =
    let gpr = meta.dst_reg * 2 in
    Grows-if (meta.imm == 16) p _ _
      (Grows-then
        (Grows-then (field-Grows p (both gpr) 0x9 (reg_b gpr) 0 8)
          (field-Grows _ (both gpr) 0xe (reg_a gpr) r_shf 16))
        (immed-Grows _ (both (gpr + 1)) 0))
      (Grows-if (meta.imm == 32) p _ _
        (Grows-then (end32-Grows p (reg_a gpr) gpr) (immed-Grows _ (both (gpr + 1)) 0))
        (Grows-if (meta.imm == 64) p _ _
          (Grows-then
            (Grows-then (alu-Grows p imm_a reg_none alu_none (reg_b (gpr + 1)))
              (end32-Grows _ (reg_a gpr) (gpr + 1)))
            (end32-Grows _ imm_a gpr))
          (0, Emits-zero p)))
