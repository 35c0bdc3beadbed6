-- ===== src/Jit/Translate.antt =====
-- The loop of nfp_translate (src/bpf/jit.c) over instructions of arithmetic and jumps.
pub mod Lands
pub mod Fits
use nfp_drv_kmods.Base.{Option, none, some, List, [], ◌∷◌, Errno, Result, ok, err, true, false}
use nfp_drv_kmods.Jit.Prog.{Prog}
use nfp_drv_kmods.Jit.Emit.Alu.{alu_and, alu_or, alu_xor, alu_add, alu_sub}
use nfp_drv_kmods.Jit.Wrap.{Meta}
use nfp_drv_kmods.Jit.Shift.{shl_imm64, shl_reg64, shr_imm64, shr_reg64}
use nfp_drv_kmods.Jit.Shift.Signed.{ashr_imm64, ashr_reg64}
use nfp_drv_kmods.Jit.Shift.Word.{ashr_reg, ashr_imm, shr_reg, shr_imm, shl_reg, shl_imm, end_reg32}
use nfp_drv_kmods.Jit.Alu.{
  mov_reg64, mov_imm64, xor_reg64, xor_imm64, and_reg64, and_imm64, or_reg64, or_imm64, add_reg64,
  add_imm64, sub_reg64, sub_imm64, neg_reg64, mul_reg64, mul_imm64, mov_reg, mov_imm, neg_reg,
  wrp_mul, wrp_alu32_reg, wrp_alu32_imm,
}
use nfp_drv_kmods.Jit.Alu.Jump.{
  cmp_imm, cmp_reg, jump, jeq_imm, jeq32_imm, jset_imm, jne_imm, jeq_reg, jset_reg, jne_reg,
}

-- The entries of `instr_cb` for arithmetic and jumps, less the divisions.
pub data Callback : Type 0 where
  cb_mov_reg64 cb_mov_imm64 cb_xor_reg64 cb_xor_imm64 cb_and_reg64 cb_and_imm64 : Callback
  cb_or_reg64 cb_or_imm64 cb_add_reg64 cb_add_imm64 cb_sub_reg64 cb_sub_imm64 : Callback
  cb_mul_reg64 cb_mul_imm64 cb_neg_reg64 cb_shl_reg64 cb_shl_imm64 cb_shr_reg64 : Callback
  cb_shr_imm64 cb_ashr_reg64 cb_ashr_imm64 cb_mov_reg cb_mov_imm cb_xor_reg cb_xor_imm : Callback
  cb_and_reg cb_and_imm cb_or_reg cb_or_imm cb_add_reg cb_add_imm cb_sub_reg : Callback
  cb_sub_imm cb_mul_reg cb_mul_imm cb_neg_reg cb_jump cb_jeq_imm cb_cmp_imm : Callback
  cb_jset_imm cb_jne_imm cb_jeq_reg cb_cmp_reg cb_jset_reg cb_jne_reg cb_jeq32_imm : Callback
  cb_ashr_reg cb_ashr_imm cb_shr_reg cb_shr_imm cb_shl_reg cb_shl_imm cb_end_reg32 : Callback

-- The function of an entry. Those of 32 bits stand as the call that they make.
unfoldable pub call : Callback → Prog → Meta → Result Prog
unfolding mov_reg64 mov_imm64 xor_reg64 xor_imm64 and_reg64 and_imm64 or_reg64 or_imm64 add_reg64
    add_imm64 sub_reg64 sub_imm64 mul_reg64 mul_imm64 neg_reg64 shl_reg64 shl_imm64 shr_reg64
    shr_imm64 ashr_reg64 ashr_imm64 mov_reg mov_imm wrp_alu32_reg wrp_alu32_imm wrp_mul neg_reg jump
    jeq_imm cmp_imm jset_imm jne_imm jeq_reg cmp_reg jset_reg jne_reg jeq32_imm ashr_reg ashr_imm
    shr_reg shr_imm shl_reg shl_imm end_reg32
call cb_mov_reg64 p m = ok (mov_reg64 p m)
call cb_mov_imm64 p m = ok (mov_imm64 p m)
call cb_xor_reg64 p m = ok (xor_reg64 p m)
call cb_xor_imm64 p m = ok (xor_imm64 p m)
call cb_and_reg64 p m = ok (and_reg64 p m)
call cb_and_imm64 p m = ok (and_imm64 p m)
call cb_or_reg64 p m = ok (or_reg64 p m)
call cb_or_imm64 p m = ok (or_imm64 p m)
call cb_add_reg64 p m = ok (add_reg64 p m)
call cb_add_imm64 p m = ok (add_imm64 p m)
call cb_sub_reg64 p m = ok (sub_reg64 p m)
call cb_sub_imm64 p m = ok (sub_imm64 p m)
call cb_mul_reg64 p m = ok (mul_reg64 p m)
call cb_mul_imm64 p m = ok (mul_imm64 p m)
call cb_neg_reg64 p m = ok (neg_reg64 p m)
call cb_shl_reg64 p m = shl_reg64 p m
call cb_shl_imm64 p m = ok (shl_imm64 p m)
call cb_shr_reg64 p m = shr_reg64 p m
call cb_shr_imm64 p m = ok (shr_imm64 p m)
call cb_ashr_reg64 p m = ashr_reg64 p m
call cb_ashr_imm64 p m = ok (ashr_imm64 p m)
call cb_mov_reg p m = ok (mov_reg p m)
call cb_mov_imm p m = ok (mov_imm p m)
call cb_xor_reg p m = ok (wrp_alu32_reg p m alu_xor)
call cb_xor_imm p m = ok (wrp_alu32_imm p m alu_xor)
call cb_and_reg p m = ok (wrp_alu32_reg p m alu_and)
call cb_and_imm p m = ok (wrp_alu32_imm p m alu_and)
call cb_or_reg p m = ok (wrp_alu32_reg p m alu_or)
call cb_or_imm p m = ok (wrp_alu32_imm p m alu_or)
call cb_add_reg p m = ok (wrp_alu32_reg p m alu_add)
call cb_add_imm p m = ok (wrp_alu32_imm p m alu_add)
call cb_sub_reg p m = ok (wrp_alu32_reg p m alu_sub)
call cb_sub_imm p m = ok (wrp_alu32_imm p m alu_sub)
call cb_mul_reg p m = ok (wrp_mul p m false true)
call cb_mul_imm p m = ok (wrp_mul p m false false)
call cb_neg_reg p m = ok (neg_reg p m)
call cb_jump p m = ok (jump p m)
call cb_jeq_imm p m = ok (jeq_imm p m)
call cb_cmp_imm p m = cmp_imm p m
call cb_jset_imm p m = ok (jset_imm p m)
call cb_jne_imm p m = ok (jne_imm p m)
call cb_jeq_reg p m = ok (jeq_reg p m)
call cb_cmp_reg p m = cmp_reg p m
call cb_jset_reg p m = ok (jset_reg p m)
call cb_jne_reg p m = ok (jne_reg p m)
call cb_jeq32_imm p m = ok (jeq32_imm p m)
call cb_ashr_reg p m = ok (ashr_reg p m)
call cb_ashr_imm p m = ok (ashr_imm p m)
call cb_shr_reg p m = ok (shr_reg p m)
call cb_shr_imm p m = ok (shr_imm p m)
call cb_shl_reg p m = ok (shl_reg p m)
call cb_shl_imm p m = ok (shl_imm p m)
call cb_end_reg32 p m = ok (end_reg32 p m)

-- What follows a callback: its error, or the one that an emitter recorded, ends the loop.
unfoldable pub report : Prog → Option Errno → Result Prog
report q (some e) = err e
report q none = ok q

unfoldable pub checked : Result Prog → (Prog → Result Prog) → Result Prog
checked (ok q) rest = rest q
checked (err e) rest = err e

-- The loop over instructions that are not skipped, start no subprogram and have a callback. Their
-- offsets and their number, which the source notes for the passes after it, are left out.
unfoldable pub translate : Prog → List (Callback × Meta) → Result Prog
unfolding call report checked
translate p [] = ok p
translate p (m ∷ metas) =
    checked (call m.0 p m.1) (λ q. checked (report q q.error) (λ r. translate r metas))
