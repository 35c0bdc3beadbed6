-- ===== src/Jit/Alu/Jump.antt =====
-- The callbacks for comparisons and jumps (src/bpf/jit.c).
pub mod Grow
use nfp_drv_kmods.Base.{
  ℕ, ◌+◌, ◌*◌, ◌/◌, ◌-◌, ◌^◌, ◌%◌, Bool, true, false, not, ◌==◌, ◌&&◌, if◌then◌else◌, ◌>>>◌, u32,
  Option, none, some, einval, Result, ok, err, bit_and,
}
use nfp_drv_kmods.Jit.Prog.{Prog, both, reg_a, reg_b, reg_imm, reg_none, imm_a, imm_b}
use nfp_drv_kmods.Jit.Emit.{emit_br, br_unc}
use nfp_drv_kmods.Jit.Emit.Alu.{
  emit_alu, alu_none, alu_add, alu_add_c, alu_and, alu_or, alu_xor, alu_sub, alu_sub_c,
}
use nfp_drv_kmods.Jit.Wrap.{Meta, sign_extend, ur_load_imm_any, alu_with}
use nfp_drv_kmods.Jit.Alu.{lo, hi}

-- `is_mbpf_jmp64` for a callback of a jump: the class BPF_JMP.
abbrev pub is_jmp64 : Meta → Bool
is_jmp64 meta = bit_and meta.code 7 == 5

-- BR_BEQ and BR_BNE.
abbrev pub br_beq : ℕ
br_beq = 0

abbrev pub br_bne : ℕ
br_bne = 1

unfoldable pub wrp_test_reg_one : Prog → ℕ → ℕ → ℕ → ℕ → ℕ → Prog
unfolding emit_alu emit_br
wrp_test_reg_one p dst alu_op src br_mask off =
    emit_br (emit_alu p reg_none (reg_a dst) alu_op (reg_b src)) br_mask off 0

unfoldable pub wrp_test_reg : Prog → Meta → ℕ → ℕ → Prog
unfolding wrp_test_reg_one
wrp_test_reg p meta alu_op br_mask =
    let p = wrp_test_reg_one p (lo meta.dst_reg) alu_op (lo meta.src_reg) br_mask meta.off in
    if is_jmp64 meta
    then wrp_test_reg_one p (hi meta.dst_reg) alu_op (hi meta.src_reg) br_mask meta.off
    else p

-- `jmp_code_map`: the mask of the branch and whether the operands are exchanged.
unfoldable pub jmp_code_get : Meta → Option (ℕ × Bool)
jmp_code_get meta =
    let op = meta.code / 2 ^ 4 % 2 ^ 4 in
    if op == 0x2
    then some (5, true)
    else if op == 0x3
    then some (4, false)
    else if op == 0xa
    then some (5, false)
    else if op == 0xb
    then some (4, true)
    else if op == 0x6
    then some (9, true)
    else if op == 0x7
    then some (8, false)
    else if op == 0xc
    then some (9, false)
    else if op == 0xd
    then some (8, true)
    else none

-- A comparison with a register that an immediate was loaded to.
unfoldable pub compare_with : Bool → ℕ → ℕ → Prog × ℕ → Prog
unfolding emit_alu
compare_with swap reg op (p, tmp_reg) =
    if not swap
    then emit_alu p reg_none (reg_a reg) op tmp_reg
    else emit_alu p reg_none tmp_reg op (reg_a reg)

unfoldable pub cmp_imm_as : Prog → Meta → Option (ℕ × Bool) → Result Prog
unfolding compare_with ur_load_imm_any emit_br
cmp_imm_as p meta none = err einval
cmp_imm_as p meta (some (br_mask, swap)) =
    let imm = sign_extend meta.imm in
    let alu_op = if meta.jump_neg_op then alu_add else alu_sub in
    let carry_op = if meta.jump_neg_op then alu_add_c else alu_sub_c in
    let p = compare_with swap (lo meta.dst_reg) alu_op (ur_load_imm_any p (u32 imm) imm_b) in
    let q = compare_with swap (hi meta.dst_reg) carry_op (ur_load_imm_any p (imm >>> 32) imm_b) in
    ok (emit_br (if is_jmp64 meta then q else p) br_mask meta.off 0)

unfoldable pub cmp_imm : Prog → Meta → Result Prog
unfolding cmp_imm_as jmp_code_get
cmp_imm p meta = cmp_imm_as p meta (jmp_code_get meta)

unfoldable pub cmp_reg_as : Prog → Meta → Option (ℕ × Bool) → Result Prog
unfolding emit_alu emit_br
cmp_reg_as p meta none = err einval
cmp_reg_as p meta (some (br_mask, swap)) =
    let areg = if swap then lo meta.src_reg else lo meta.dst_reg in
    let breg = if swap then lo meta.dst_reg else lo meta.src_reg in
    let p = emit_alu p reg_none (reg_a areg) alu_sub (reg_b breg) in
    let q = emit_alu p reg_none (reg_a (areg + 1)) alu_sub_c (reg_b (breg + 1)) in
    ok (emit_br (if is_jmp64 meta then q else p) br_mask meta.off 0)

unfoldable pub cmp_reg : Prog → Meta → Result Prog
unfolding cmp_reg_as jmp_code_get
cmp_reg p meta = cmp_reg_as p meta (jmp_code_get meta)

unfoldable pub jump : Prog → Meta → Prog
unfolding emit_br
jump p meta = emit_br p br_unc meta.off 0

-- Half of the comparison of `jeq_imm`, where the half of the immediate is not 0.
unfoldable pub half_differs : Prog → ℕ → ℕ → ℕ → Prog
unfolding alu_with ur_load_imm_any
half_differs p dst reg half =
    if half == 0 then p else alu_with dst (reg_a reg) alu_xor (ur_load_imm_any p half imm_b)

unfoldable pub jeq_imm : Prog → Meta → Prog
unfolding half_differs emit_alu emit_br
jeq_imm p meta =
    let imm = sign_extend meta.imm in
    let or1 = if u32 imm == 0 then reg_a (lo meta.dst_reg) else imm_a in
    let or2 = if imm >>> 32 == 0 then reg_b (hi meta.dst_reg) else imm_b in
    let p = half_differs p imm_a (lo meta.dst_reg) (u32 imm) in
    let p = half_differs p imm_b (hi meta.dst_reg) (imm >>> 32) in
    emit_br (emit_alu p reg_none or1 alu_or or2) br_beq meta.off 0

unfoldable pub jeq32_imm : Prog → Meta → Prog
unfolding alu_with ur_load_imm_any emit_br
jeq32_imm p meta =
    emit_br (alu_with reg_none (reg_a (lo meta.dst_reg)) alu_xor (ur_load_imm_any p meta.imm imm_b))
      br_beq meta.off 0

unfoldable pub jset_imm : Prog → Meta → Prog
unfolding alu_with ur_load_imm_any emit_alu emit_br
jset_imm p meta =
    let imm = sign_extend meta.imm in
    let p = alu_with imm_b (reg_a (lo meta.dst_reg)) alu_and (ur_load_imm_any p (u32 imm) imm_b) in
    let q = emit_alu p reg_none (reg_a (hi meta.dst_reg)) alu_or imm_b in
    emit_br (if is_jmp64 meta && not (imm >>> 32 == 0) then q else p) br_bne meta.off 0

-- One half of the immediate of `jne_imm`.
unfoldable pub branch_differs : Prog → Meta → ℕ → ℕ → Prog
unfolding alu_with ur_load_imm_any emit_br
branch_differs p meta reg half =
    emit_br (alu_with reg_none (reg_a reg) alu_xor (ur_load_imm_any p half imm_b)) br_bne meta.off 0

unfoldable pub jne_imm : Prog → Meta → Prog
unfolding branch_differs emit_alu emit_br
jne_imm p meta =
    let imm = sign_extend meta.imm in
    let is_jmp32 = bit_and meta.code 7 == 6 in
    let zero32 = emit_alu p reg_none reg_none alu_none (reg_b (lo meta.dst_reg)) in
    let zero64 = emit_alu p reg_none (reg_a (lo meta.dst_reg)) alu_or (reg_b (hi meta.dst_reg)) in
    let q = branch_differs p meta (lo meta.dst_reg) (u32 imm) in
    if imm == 0
    then emit_br (if is_jmp32 then zero32 else zero64) br_bne meta.off 0
    else if is_jmp32
    then q
    else branch_differs q meta (hi meta.dst_reg) (imm >>> 32)

unfoldable pub jeq_reg : Prog → Meta → Prog
unfolding emit_alu emit_br
jeq_reg p meta =
    let p = emit_alu p imm_a (reg_a (lo meta.dst_reg)) alu_xor (reg_b (lo meta.src_reg)) in
    let q = emit_alu p imm_b (reg_a (hi meta.dst_reg)) alu_xor (reg_b (hi meta.src_reg)) in
    let q = emit_alu q reg_none imm_a alu_or imm_b in
    emit_br (if is_jmp64 meta then q else p) br_beq meta.off 0

unfoldable pub jset_reg : Prog → Meta → Prog
unfolding wrp_test_reg
jset_reg p meta = wrp_test_reg p meta alu_and br_bne

unfoldable pub jne_reg : Prog → Meta → Prog
unfolding wrp_test_reg
jne_reg p meta = wrp_test_reg p meta alu_xor br_bne
