-- ===== src/Jit/Alu.antt =====
-- The callbacks for arithmetic and moves of 64 and of 32 bits (src/bpf/jit.c). They return 0, and
-- here the program alone.
pub mod Jump
pub mod Grow
use nfp_drv_kmods.Base.{
  ℕ, ◌+◌, ◌*◌, ◌/◌, ◌-◌, ◌^◌, ◌%◌, Bool, true, false, not, ◌==◌, ◌||◌, if◌then◌else◌, ◌>>>◌, u8,
  u32, ltb,
}
use nfp_drv_kmods.Jit.Prog.{Prog, both, reg_a, reg_b, reg_imm, reg_none, imm_a, imm_b, imm_both}
use nfp_drv_kmods.Jit.Emit.Alu.{
  emit_alu, emit_shf, emit_shf_indir, emit_mul, emit_ld_field, alu_none, alu_add, alu_add_c,
  alu_and, alu_or, alu_xor, alu_sub, alu_sub_c, shf_none, shf_ashr, r_shf, l_shf,
}
use nfp_drv_kmods.Jit.Wrap.{
  Meta, sign_extend, wrp_immed, wrp_zext, wrp_mov, wrp_reg_mov, ur_load_imm_any, alu_with,
  wrp_alu_imm, wrp_end32,
}
use nfp_drv_kmods.Jit.Shift.{shl_reg64_lt32_low}

-- The two registers of a BPF register.
abbrev pub lo : ℕ → ℕ
lo reg = reg * 2

abbrev pub hi : ℕ → ℕ
hi reg = reg * 2 + 1

-- The flag FLAG_INSN_SKIP_NOOP that a skipped instruction gets is left out.
unfoldable pub wrp_alu64_imm : Prog → Meta → ℕ → Bool → Prog
unfolding wrp_alu_imm
wrp_alu64_imm p meta alu_op skip =
    let imm = sign_extend meta.imm in
    let p' = wrp_alu_imm p (lo meta.dst_reg) alu_op (u32 imm) in
    if skip then p else wrp_alu_imm p' (hi meta.dst_reg) alu_op (imm >>> 32)

-- An operation on the low words, and one on the high words.
unfoldable pub alu_pair : Prog → Meta → ℕ → ℕ → Prog
unfolding emit_alu
alu_pair p meta op high_op =
    let p =
      emit_alu p (both (lo meta.dst_reg)) (reg_a (lo meta.dst_reg)) op (reg_b (lo meta.src_reg)) in
    emit_alu p (both (hi meta.dst_reg)) (reg_a (hi meta.dst_reg)) high_op (reg_b (hi meta.src_reg))

unfoldable pub wrp_alu64_reg : Prog → Meta → ℕ → Prog
unfolding alu_pair
wrp_alu64_reg p meta alu_op = alu_pair p meta alu_op alu_op

unfoldable pub wrp_alu32_imm : Prog → Meta → ℕ → Prog
unfolding wrp_alu_imm wrp_zext
wrp_alu32_imm p meta alu_op =
    wrp_zext (wrp_alu_imm p (lo meta.dst_reg) alu_op meta.imm) meta (lo meta.dst_reg)

unfoldable pub wrp_alu32_reg : Prog → Meta → ℕ → Prog
unfolding emit_alu wrp_zext
wrp_alu32_reg p meta alu_op =
    let dst = lo meta.dst_reg in
    wrp_zext (emit_alu p (both dst) (reg_a dst) alu_op (reg_b (lo meta.src_reg))) meta dst

-- With the source R10, the depth of the frame is added to the register of the stack.
unfoldable pub mov_reg64 : Prog → Meta → Prog
unfolding ur_load_imm_any alu_with wrp_immed wrp_reg_mov
mov_reg64 p meta =
    let dst = lo meta.dst_reg in
    let src = lo meta.src_reg in
    if meta.src_reg == 10
    then wrp_immed
        (alu_with (both dst) (reg_a 22) alu_add (ur_load_imm_any p p.stack_frame_depth imm_b))
        (both (dst + 1)) 0
    else wrp_reg_mov (wrp_reg_mov p dst src) (dst + 1) (src + 1)

unfoldable pub mov_imm64 : Prog → Meta → Prog
unfolding wrp_immed
mov_imm64 p meta =
    let imm = sign_extend meta.imm in
    wrp_immed (wrp_immed p (both (lo meta.dst_reg)) (u32 imm)) (both (hi meta.dst_reg)) (imm >>> 32)

unfoldable pub xor_reg64 : Prog → Meta → Prog
unfolding wrp_alu64_reg
xor_reg64 p meta = wrp_alu64_reg p meta alu_xor

unfoldable pub xor_imm64 : Prog → Meta → Prog
unfolding wrp_alu64_imm
xor_imm64 p meta = wrp_alu64_imm p meta alu_xor (meta.imm == 0)

unfoldable pub and_reg64 : Prog → Meta → Prog
unfolding wrp_alu64_reg
and_reg64 p meta = wrp_alu64_reg p meta alu_and

unfoldable pub and_imm64 : Prog → Meta → Prog
unfolding wrp_alu64_imm
and_imm64 p meta = wrp_alu64_imm p meta alu_and (meta.imm == 0xffffffff)

unfoldable pub or_reg64 : Prog → Meta → Prog
unfolding wrp_alu64_reg
or_reg64 p meta = wrp_alu64_reg p meta alu_or

unfoldable pub or_imm64 : Prog → Meta → Prog
unfolding wrp_alu64_imm
or_imm64 p meta = wrp_alu64_imm p meta alu_or (meta.imm == 0)

unfoldable pub add_reg64 : Prog → Meta → Prog
unfolding alu_pair
add_reg64 p meta = alu_pair p meta alu_add alu_add_c

-- An operation with each half of the immediate.
unfoldable pub imm_pair : Prog → Meta → ℕ → ℕ → Prog
unfolding wrp_alu_imm
imm_pair p meta op high_op =
    let imm = sign_extend meta.imm in
    wrp_alu_imm (wrp_alu_imm p (lo meta.dst_reg) op (u32 imm)) (hi meta.dst_reg) high_op
      (imm >>> 32)

unfoldable pub add_imm64 : Prog → Meta → Prog
unfolding imm_pair
add_imm64 p meta = imm_pair p meta alu_add alu_add_c

unfoldable pub sub_reg64 : Prog → Meta → Prog
unfolding alu_pair
sub_reg64 p meta = alu_pair p meta alu_sub alu_sub_c

unfoldable pub sub_imm64 : Prog → Meta → Prog
unfolding imm_pair
sub_imm64 p meta = imm_pair p meta alu_sub alu_sub_c

unfoldable pub neg_reg64 : Prog → Meta → Prog
unfolding emit_alu
neg_reg64 p meta =
    let dst = lo meta.dst_reg in
    emit_alu (emit_alu p (both dst) (reg_imm 0) alu_sub (reg_b dst)) (both (dst + 1)) (reg_imm 0)
      alu_sub_c (reg_b (dst + 1))

-- The multiplication steps of 32 by 32 bits are of the type 3, those of 16 by 16 of the type 2, and
-- the last steps are 4 and 5.
unfoldable pub wrp_mul_u32 : Prog → ℕ → ℕ → ℕ → ℕ → Bool → Prog
unfolding emit_mul wrp_immed
wrp_mul_u32 p dst_hi dst_lo lreg rreg gen_high_half =
    let p = emit_mul p lreg 0 0 rreg in
    let p = emit_mul p lreg 3 0 rreg in
    let p = emit_mul p lreg 3 1 rreg in
    let p = emit_mul p lreg 3 2 rreg in
    let p = emit_mul p lreg 3 3 rreg in
    let p = emit_mul p dst_lo 3 4 reg_none in
    if gen_high_half then emit_mul p dst_hi 3 5 reg_none else wrp_immed p dst_hi 0

unfoldable pub wrp_mul_u16 : Prog → ℕ → ℕ → ℕ → Prog
unfolding emit_mul
wrp_mul_u16 p dst_lo lreg rreg =
    let p = emit_mul p lreg 0 0 rreg in
    let p = emit_mul p lreg 2 0 rreg in
    let p = emit_mul p lreg 2 1 rreg in emit_mul p dst_lo 2 4 reg_none

unfoldable pub mul_by : Meta → Bool → ℕ → Prog × ℕ → Prog
unfolding wrp_mul_u32 wrp_mul_u16
mul_by meta gen_high_half ropnd_max (p, multiplier) =
    let dst = lo meta.dst_reg in
    if ltb 0xffff meta.umax_dst || ltb 0xffff ropnd_max
    then wrp_mul_u32 p (both (dst + 1)) (both dst) (reg_a dst) multiplier gen_high_half
    else wrp_mul_u16 p (both dst) (reg_a dst) multiplier

-- The maxima are cut to 32 bits, as the source keeps them.
unfoldable pub wrp_mul : Prog → Meta → Bool → Bool → Prog
unfolding mul_by ur_load_imm_any
wrp_mul p meta gen_high_half ropnd_from_reg =
    let meta' = record meta { umax_dst = u32 meta.umax_dst } in
    if ropnd_from_reg
    then mul_by meta' gen_high_half (u32 meta.umax_src) (p, reg_b (lo meta.src_reg))
    else mul_by meta' gen_high_half meta.imm (ur_load_imm_any p meta.imm imm_b)

unfoldable pub mul_reg64 : Prog → Meta → Prog
unfolding wrp_mul
mul_reg64 p meta = wrp_mul p meta true true

unfoldable pub mul_imm64 : Prog → Meta → Prog
unfolding wrp_mul
mul_imm64 p meta = wrp_mul p meta true false

unfoldable pub mov_reg : Prog → Meta → Prog
unfolding wrp_reg_mov wrp_immed
mov_reg p meta =
    wrp_immed (wrp_reg_mov p (lo meta.dst_reg) (lo meta.src_reg)) (both (hi meta.dst_reg)) 0

unfoldable pub mov_imm : Prog → Meta → Prog
unfolding wrp_immed
mov_imm p meta =
    wrp_immed (wrp_immed p (both (lo meta.dst_reg)) meta.imm) (both (hi meta.dst_reg)) 0

unfoldable pub neg_reg : Prog → Meta → Prog
unfolding emit_alu wrp_zext
neg_reg p meta =
    let dst = lo meta.dst_reg in
    wrp_zext (emit_alu p (both dst) (reg_imm 0) alu_sub (reg_b dst)) meta dst
