-- ===== src/Jit/Translate/Lands.antt =====
-- The callback of each instruction of arithmetic and jumps (src/bpf/jit.c) returns 0 and grows the
-- program.
use nfp_drv_kmods.Base.{◌*◌, ◌/◌, ◌^◌, ◌<◌, ◌≤◌, ◌==◌, length, u8, true, false}
use nfp_drv_kmods.Jit.Prog.{Prog}
use nfp_drv_kmods.Jit.Emit.Alu.{alu_and, alu_or, alu_xor, alu_add, alu_add_c, alu_sub, alu_sub_c}
use nfp_drv_kmods.Jit.Wrap.{Meta}
use nfp_drv_kmods.Jit.Shift.{shl_imm64, shr_imm64}
use nfp_drv_kmods.Jit.Shift.Signed.{ashr_imm64}
use nfp_drv_kmods.Jit.Shift.Labels.{Lands, shl_imm64_by-Grows, shl_reg64-Lands}
use nfp_drv_kmods.Jit.Shift.Right.{
  shr_imm64_by-Grows, ashr_imm64_by-Grows, shr_reg64-Lands, ashr_reg64-Lands,
}
use nfp_drv_kmods.Jit.Shift.Word.{
  ashr_reg-Grows, ashr_imm-Grows, shr_reg-Grows, shr_imm-Grows, shl_reg-Grows, shl_imm-Grows,
  end_reg32-Grows,
}
use nfp_drv_kmods.Jit.Alu.{
  xor_reg64, xor_imm64, and_reg64, and_imm64, or_reg64, or_imm64, add_reg64, add_imm64, sub_reg64,
  sub_imm64, mul_reg64, mul_imm64, wrp_alu64_reg,
}
use nfp_drv_kmods.Jit.Alu.Grow.{
  br-Grows, pair-Grows, imm_pair-Grows, alu64_imm-Grows, alu32_imm-Grows, alu32_reg-Grows,
  mov_reg64-Grows, mov_imm64-Grows, neg_reg64-Grows, wrp_mul-Grows, mov_reg-Grows, mov_imm-Grows,
  neg_reg-Grows,
}
use nfp_drv_kmods.Jit.Alu.Jump.{jump, jset_reg, jne_reg, br_bne}
use nfp_drv_kmods.Jit.Alu.Jump.Grow.{
  HasCode, cmp_imm-Lands, cmp_reg-Lands, jeq_imm-Grows, jeq32_imm-Grows, jset_imm-Grows,
  jne_imm-Grows, jeq_reg-Grows, test_reg-Grows,
}
use nfp_drv_kmods.Jit.Translate.{
  Callback, cb_mov_reg64, cb_mov_imm64, cb_xor_reg64, cb_xor_imm64, cb_and_reg64, cb_and_imm64,
  cb_or_reg64, cb_or_imm64, cb_add_reg64, cb_add_imm64, cb_sub_reg64, cb_sub_imm64, cb_mul_reg64,
  cb_mul_imm64, cb_neg_reg64, cb_shl_reg64, cb_shl_imm64, cb_shr_reg64, cb_shr_imm64, cb_ashr_reg64,
  cb_ashr_imm64, cb_mov_reg, cb_mov_imm, cb_xor_reg, cb_xor_imm, cb_and_reg, cb_and_imm, cb_or_reg,
  cb_or_imm, cb_add_reg, cb_add_imm, cb_sub_reg, cb_sub_imm, cb_mul_reg, cb_mul_imm, cb_neg_reg,
  cb_jump, cb_jeq_imm, cb_cmp_imm, cb_jset_imm, cb_jne_imm, cb_jeq_reg, cb_cmp_reg, cb_jset_reg,
  cb_jne_reg, cb_jeq32_imm, cb_ashr_reg, cb_ashr_imm, cb_shr_reg, cb_shr_imm, cb_shl_reg,
  cb_shl_imm, cb_end_reg32, call,
}

-- A comparison has an entry in the table of the jumps.
abbrev pub Callable : Callback → Meta → Type 0
Callable cb_cmp_imm m = HasCode m
Callable cb_cmp_reg m = HasCode m
Callable other m = 0 < 1

pub call-Lands :
    (c : Callback) (p : Prog) (m : Meta)
    → p.alloc_len / 8 < 2 ^ 16
    → length p.prog ≤ p.alloc_len / 8
    → Callable c m
    → Lands p (call c p m)
unfolding call xor_reg64 xor_imm64 and_reg64 and_imm64 or_reg64 or_imm64 add_reg64 add_imm64
    sub_reg64 sub_imm64 mul_reg64 mul_imm64 wrp_alu64_reg shl_imm64 shr_imm64 ashr_imm64 jump
    jset_reg jne_reg
call-Lands cb_mov_reg64 p m small room h = mov_reg64-Grows p m
call-Lands cb_mov_imm64 p m small room h = mov_imm64-Grows p m
call-Lands cb_xor_reg64 p m small room h = pair-Grows p m alu_xor alu_xor
call-Lands cb_xor_imm64 p m small room h = alu64_imm-Grows p m alu_xor (m.imm == 0)
call-Lands cb_and_reg64 p m small room h = pair-Grows p m alu_and alu_and
call-Lands cb_and_imm64 p m small room h = alu64_imm-Grows p m alu_and (m.imm == 0xffffffff)
call-Lands cb_or_reg64 p m small room h = pair-Grows p m alu_or alu_or
call-Lands cb_or_imm64 p m small room h = alu64_imm-Grows p m alu_or (m.imm == 0)
call-Lands cb_add_reg64 p m small room h = pair-Grows p m alu_add alu_add_c
call-Lands cb_add_imm64 p m small room h = imm_pair-Grows p m alu_add alu_add_c
call-Lands cb_sub_reg64 p m small room h = pair-Grows p m alu_sub alu_sub_c
call-Lands cb_sub_imm64 p m small room h = imm_pair-Grows p m alu_sub alu_sub_c
call-Lands cb_mul_reg64 p m small room h = wrp_mul-Grows p m true true
call-Lands cb_mul_imm64 p m small room h = wrp_mul-Grows p m true false
call-Lands cb_neg_reg64 p m small room h = neg_reg64-Grows p m
call-Lands cb_shl_reg64 p m small room h = shl_reg64-Lands p m small room
call-Lands cb_shl_imm64 p m small room h = shl_imm64_by-Grows p (m.dst_reg * 2) (u8 m.imm)
call-Lands cb_shr_reg64 p m small room h = shr_reg64-Lands p m small room
call-Lands cb_shr_imm64 p m small room h = shr_imm64_by-Grows p (m.dst_reg * 2) (u8 m.imm)
call-Lands cb_ashr_reg64 p m small room h = ashr_reg64-Lands p m small room
call-Lands cb_ashr_imm64 p m small room h = ashr_imm64_by-Grows p (m.dst_reg * 2) (u8 m.imm)
call-Lands cb_mov_reg p m small room h = mov_reg-Grows p m
call-Lands cb_mov_imm p m small room h = mov_imm-Grows p m
call-Lands cb_xor_reg p m small room h = alu32_reg-Grows p m alu_xor
call-Lands cb_xor_imm p m small room h = alu32_imm-Grows p m alu_xor
call-Lands cb_and_reg p m small room h = alu32_reg-Grows p m alu_and
call-Lands cb_and_imm p m small room h = alu32_imm-Grows p m alu_and
call-Lands cb_or_reg p m small room h = alu32_reg-Grows p m alu_or
call-Lands cb_or_imm p m small room h = alu32_imm-Grows p m alu_or
call-Lands cb_add_reg p m small room h = alu32_reg-Grows p m alu_add
call-Lands cb_add_imm p m small room h = alu32_imm-Grows p m alu_add
call-Lands cb_sub_reg p m small room h = alu32_reg-Grows p m alu_sub
call-Lands cb_sub_imm p m small room h = alu32_imm-Grows p m alu_sub
call-Lands cb_mul_reg p m small room h = wrp_mul-Grows p m false true
call-Lands cb_mul_imm p m small room h = wrp_mul-Grows p m false false
call-Lands cb_neg_reg p m small room h = neg_reg-Grows p m
call-Lands cb_jump p m small room h = br-Grows p 0x18 m.off 0
call-Lands cb_jeq_imm p m small room h = jeq_imm-Grows p m
call-Lands cb_cmp_imm p m small room h = cmp_imm-Lands p m h
call-Lands cb_jset_imm p m small room h = jset_imm-Grows p m
call-Lands cb_jne_imm p m small room h = jne_imm-Grows p m
call-Lands cb_jeq_reg p m small room h = jeq_reg-Grows p m
call-Lands cb_cmp_reg p m small room h = cmp_reg-Lands p m h
call-Lands cb_jset_reg p m small room h = test_reg-Grows p m alu_and br_bne
call-Lands cb_jne_reg p m small room h = test_reg-Grows p m alu_xor br_bne
call-Lands cb_jeq32_imm p m small room h = jeq32_imm-Grows p m
call-Lands cb_ashr_reg p m small room h = ashr_reg-Grows p m
call-Lands cb_ashr_imm p m small room h = ashr_imm-Grows p m
call-Lands cb_shr_reg p m small room h = shr_reg-Grows p m
call-Lands cb_shr_imm p m small room h = shr_imm-Grows p m
call-Lands cb_shl_reg p m small room h = shl_reg-Grows p m
call-Lands cb_shl_imm p m small room h = shl_imm-Grows p m
call-Lands cb_end_reg32 p m small room h = end_reg32-Grows p m
