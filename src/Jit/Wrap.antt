-- ===== src/Jit/Wrap.antt =====
-- What src/bpf/jit.c loads and moves with the emitters.
pub mod Pack
use nfp_drv_kmods.Base.{
  ℕ, zero, suc, ◌+◌, ◌*◌, ◌/◌, ◌-◌, ◌^◌, ◌%◌, Bool, true, false, not, ◌&&◌, ◌||◌, ◌==◌,
  if◌then◌else◌, Option, none, some, List, [], ◌∷◌, bit_and, bit_or, ◌<<<◌, ◌>>>◌, u8, u16, u32,
  efault, Errno, ltb,
}
use nfp_drv_kmods.Asm.Fields.{field_prep, complement}
use nfp_drv_kmods.Jit.Prog.{
  Prog, fail, push, or_prev, both, reg_a, reg_b, reg_imm, reg_none, imm_a, imm_b,
}
use nfp_drv_kmods.Jit.Emit.{emit_immed, insn_immed, emit_br}
use nfp_drv_kmods.Jit.Emit.Alu.{
  emit_alu, emit_shf, emit_mul, emit_ld_field, emit_ld_field_any, alu_none, alu_add, alu_add_c,
  alu_and, alu_or, alu_xor, alu_not,
}

-- The part of `struct nfp_insn_meta` that the callbacks read. `imm` is the 32-bit word of the signed
-- immediate, `off` the 16-bit word of the offset, and `do_zext` the flag FLAG_INSN_DO_ZEXT.
pub record Meta : Type 0 where
  pub code : ℕ
  pub dst_reg : ℕ
  pub src_reg : ℕ
  pub imm : ℕ
  pub off : ℕ
  pub umin_src : ℕ
  pub umax_src : ℕ
  pub umax_dst : ℕ
  pub do_zext : Bool
  pub jump_neg_op : Bool

-- The cast of the immediate to u64.
abbrev pub sign_extend : ℕ → ℕ
sign_extend imm = if ltb imm (2 ^ 31) then imm else imm + 0xffffffff00000000

-- The value and the shift (in bytes) of an `immed` instruction, where one is enough.
unfoldable pub pack_immed : ℕ → Option (ℕ × ℕ)
pack_immed imm =
    if bit_and imm 0xffff0000 == 0
    then some (u16 imm, 0)
    else if bit_and imm 0xff0000ff == 0
    then some (u16 (imm >>> 8), 1)
    else if bit_and imm 0x0000ffff == 0
    then some (u16 (imm >>> 16), 2)
    else none

-- The widths IMMED_WIDTH_ALL and IMMED_WIDTH_WORD are 0 and 2.
unfoldable pub immed_packed : Prog → ℕ → ℕ → Option (ℕ × ℕ) → Option (ℕ × ℕ) → Prog
unfolding emit_immed
immed_packed p dst imm (some (val, shift)) inverted = emit_immed p dst val 0 false shift
immed_packed p dst imm none (some (val, shift)) = emit_immed p dst val 0 true shift
immed_packed p dst imm none none =
    emit_immed (emit_immed p dst (bit_and imm 0xffff) 0 false 0) dst (imm >>> 16) 2 false 2

unfoldable pub wrp_immed : Prog → ℕ → ℕ → Prog
unfolding immed_packed pack_immed
wrp_immed p dst imm = immed_packed p dst imm (pack_immed imm) (pack_immed (0xffffffff - imm))

unfoldable pub wrp_zext : Prog → Meta → ℕ → Prog
unfolding wrp_immed
wrp_zext p meta dst = if meta.do_zext then wrp_immed p (both (dst + 1)) 0 else p

unfoldable pub wrp_immed_relo : Prog → ℕ → ℕ → ℕ → Prog
unfolding emit_immed or_prev
wrp_immed_relo p dst imm relo =
    if ltb 0xffff imm
    then fail efault p
    else or_prev (emit_immed p dst imm 0 false 0) (field_prep 0xff00000000000000 56 relo)

-- `ur_load_imm_any`, with the program and the operand.
unfoldable pub ur_load_imm_any : Prog → ℕ → ℕ → Prog × ℕ
unfolding wrp_immed
ur_load_imm_any p imm tmp_reg =
    if bit_and imm (complement 0xff) == 0
    then (p, reg_imm imm)
    else (wrp_immed p tmp_reg imm, tmp_reg)

-- `re_load_imm_any`.
unfoldable pub re_load_imm_any : Prog → ℕ → ℕ → Prog × ℕ
unfolding wrp_immed
re_load_imm_any p imm tmp_reg =
    if bit_and imm (complement 0x7f) == 0
    then (p, reg_imm imm)
    else (wrp_immed p tmp_reg imm, tmp_reg)

-- `emit_nop`.
unfoldable pub emit_nop : Prog → Prog
unfolding push insn_immed
emit_nop p = push p (insn_immed 0x300 0x300 0 0 false 0 false false false)

unfoldable pub wrp_nops : Prog → ℕ → Prog
unfolding emit_nop
wrp_nops p zero = p
wrp_nops p (suc count) = wrp_nops (emit_nop p) count

unfoldable pub wrp_mov : Prog → ℕ → ℕ → Prog
unfolding emit_alu
wrp_mov p dst src = emit_alu p dst reg_none alu_none src

unfoldable pub wrp_reg_mov : Prog → ℕ → ℕ → Prog
unfolding wrp_mov
wrp_reg_mov p dst src = wrp_mov p (both dst) (reg_b src)

unfoldable pub wrp_reg_subpart : Prog → ℕ → ℕ → ℕ → ℕ → Prog
unfolding emit_ld_field_any
wrp_reg_subpart p dst src field_len offset =
    emit_ld_field_any p dst (u8 (2 ^ field_len - 1)) src (if offset == 0 then 0 else 1)
      (u8 (offset * 8)) true

-- `32 - offset * 8` goes into an u8.
unfoldable pub wrp_reg_or_subpart : Prog → ℕ → ℕ → ℕ → ℕ → Prog
unfolding emit_ld_field
wrp_reg_or_subpart p dst src field_len offset =
    emit_ld_field p dst (u8 ((2 ^ field_len - 1) <<< offset)) src (if offset == 0 then 0 else 2)
      (u8 (32 + 256 * offset - offset * 8))

-- `addr40_offset`, with the two registers.
unfoldable pub addr40_offset : Prog → ℕ → ℕ → Prog × ℕ × ℕ
unfolding emit_alu
addr40_offset p src_gpr offset =
    if offset == reg_imm 0 then (p, reg_a src_gpr, reg_b (src_gpr + 1)) else (
      emit_alu (emit_alu p imm_a (reg_a src_gpr) alu_add offset) imm_b (reg_b (src_gpr + 1))
          alu_add_c (reg_imm 0),
      imm_a,
      imm_b,
    )

unfoldable pub wrp_end32 : Prog → ℕ → ℕ → Prog
unfolding emit_ld_field
wrp_end32 p reg_in gpr_out =
    emit_ld_field (emit_ld_field p (both gpr_out) 0xf reg_in 0 8) (both gpr_out) 0x5 (reg_a gpr_out)
      0 16

unfoldable pub alu_with : ℕ → ℕ → ℕ → Prog × ℕ → Prog
unfolding emit_alu
alu_with dst lreg op (q, tmp_reg) = emit_alu q dst lreg op tmp_reg

-- `wrp_alu_imm`, where `~imm` is 0 for an immediate of 32 ones.
unfoldable pub wrp_alu_imm : Prog → ℕ → ℕ → ℕ → Prog
unfolding wrp_immed ur_load_imm_any alu_with emit_alu
wrp_alu_imm p dst alu_op imm =
    let zeros = imm == 0 in
    let ones = imm == 0xffffffff in
    let plain = alu_with (both dst) (reg_a dst) alu_op (ur_load_imm_any p imm imm_b) in
    if alu_op == alu_and
    then (if zeros then wrp_immed p (both dst) 0 else if ones then p else plain)
    else if alu_op == alu_or
    then (if ones then wrp_immed p (both dst) 0xffffffff else if zeros then p else plain)
    else if alu_op == alu_xor
    then (if ones
        then emit_alu p (both dst) reg_none alu_not (reg_b dst)
        else if zeros
        then p
        else plain)
    else plain
