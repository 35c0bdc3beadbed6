-- ===== src/Jit/Alu/Jump/Grow.antt =====
-- The callbacks for comparisons and jumps grow the program within its buffer (src/bpf/jit.c).
use nfp_drv_kmods.Base.{
  ℕ, ◌+◌, ◌≡◌, Bool, not, ◌==◌, ◌&&◌, if◌then◌else◌, ◌>>>◌, u32, some, bit_and,
}
use nfp_drv_kmods.Jit.Prog.{Prog, reg_a, reg_b, reg_none, imm_a, imm_b}
use nfp_drv_kmods.Jit.Count.{Emits-zero}
use nfp_drv_kmods.Jit.Emit.Alu.{
  alu_none, alu_add, alu_add_c, alu_and, alu_or, alu_xor, alu_sub, alu_sub_c,
}
use nfp_drv_kmods.Jit.Wrap.{Meta, sign_extend, alu_with}
use nfp_drv_kmods.Jit.Shift.Labels.{Grows, Lands, Grows-if}
use nfp_drv_kmods.Jit.Alu.{lo, hi}
use nfp_drv_kmods.Jit.Alu.Grow.{Grows-then, alu-Grows, br-Grows, load-Grows, alu_with-Grows}
use nfp_drv_kmods.Jit.Alu.Jump.{
  is_jmp64, br_beq, br_bne, wrp_test_reg_one, wrp_test_reg, jmp_code_get, compare_with, cmp_imm_as,
  cmp_imm, cmp_reg_as, cmp_reg, half_differs, jeq_imm, jeq32_imm, jset_imm, branch_differs, jne_imm,
  jeq_reg,
}

test_one-Grows :
    (p : Prog) (dst alu_op src br_mask off : ℕ)
    → Grows p (wrp_test_reg_one p dst alu_op src br_mask off)
unfolding wrp_test_reg_one
test_one-Grows p dst alu_op src br_mask off =
    Grows-then (alu-Grows p reg_none (reg_a dst) alu_op (reg_b src)) (br-Grows _ br_mask off 0)

-- More of it for 64 bits.
and_if : (b : Bool) (p q r : Prog) → Grows p q → Grows q r → Grows p (if b then r else q)
and_if b p q r first more = Grows-if b p r q (Grows-then first more) first

pub test_reg-Grows :
    (p : Prog) (meta : Meta) (alu_op br_mask : ℕ) → Grows p (wrp_test_reg p meta alu_op br_mask)
unfolding wrp_test_reg
test_reg-Grows p meta alu_op br_mask =
    and_if (is_jmp64 meta) p _ _
      (test_one-Grows p (lo meta.dst_reg) alu_op (lo meta.src_reg) br_mask meta.off)
      (test_one-Grows _ (hi meta.dst_reg) alu_op (hi meta.src_reg) br_mask meta.off)

compare-Grows :
    (swap : Bool) (reg op : ℕ) (q : Prog) (tmp_reg : ℕ)
    → Grows q (compare_with swap reg op (q, tmp_reg))
unfolding compare_with
compare-Grows swap reg op q tmp_reg =
    Grows-if (not swap) q _ _ (alu-Grows q reg_none (reg_a reg) op tmp_reg)
      (alu-Grows q reg_none tmp_reg op (reg_a reg))

cmp_imm_as-Lands :
    (p : Prog) (meta : Meta) (code : ℕ × Bool) → Lands p (cmp_imm_as p meta (some code))
unfolding cmp_imm_as
cmp_imm_as-Lands p meta (br_mask, swap) =
    let imm = sign_extend meta.imm in
    let alu_op = if meta.jump_neg_op then alu_add else alu_sub in
    let carry_op = if meta.jump_neg_op then alu_add_c else alu_sub_c in
    Grows-then
      (and_if (is_jmp64 meta) p _ _
        (load-Grows p (u32 imm) imm_b (compare_with swap (lo meta.dst_reg) alu_op)
          (compare-Grows swap (lo meta.dst_reg) alu_op))
        (load-Grows _ (imm >>> 32) imm_b (compare_with swap (hi meta.dst_reg) carry_op)
          (compare-Grows swap (hi meta.dst_reg) carry_op)))
      (br-Grows _ br_mask meta.off 0)

cmp_reg_as-Lands :
    (p : Prog) (meta : Meta) (code : ℕ × Bool) → Lands p (cmp_reg_as p meta (some code))
unfolding cmp_reg_as
cmp_reg_as-Lands p meta (br_mask, swap) =
    let areg = if swap then lo meta.src_reg else lo meta.dst_reg in
    let breg = if swap then lo meta.dst_reg else lo meta.src_reg in
    Grows-then
      (and_if (is_jmp64 meta) p _ _ (alu-Grows p reg_none (reg_a areg) alu_sub (reg_b breg))
        (alu-Grows _ reg_none (reg_a (areg + 1)) alu_sub_c (reg_b (breg + 1))))
      (br-Grows _ br_mask meta.off 0)

-- The opcode has an entry in the table of the jumps.
abbrev pub HasCode : Meta → Type 0
HasCode meta = (code : ℕ × Bool) × (jmp_code_get meta ≡ some code)

pub cmp_imm-Lands : (p : Prog) (meta : Meta) → HasCode meta → Lands p (cmp_imm p meta)
unfolding cmp_imm
cmp_imm-Lands p meta (code, e) = rw e (cmp_imm_as-Lands p meta code)

pub cmp_reg-Lands : (p : Prog) (meta : Meta) → HasCode meta → Lands p (cmp_reg p meta)
unfolding cmp_reg
cmp_reg-Lands p meta (code, e) = rw e (cmp_reg_as-Lands p meta code)

half-Grows : (p : Prog) (dst reg half : ℕ) → Grows p (half_differs p dst reg half)
unfolding half_differs
half-Grows p dst reg half =
    Grows-if (half == 0) p _ _ (0, Emits-zero p)
      (load-Grows p half imm_b (alu_with dst (reg_a reg) alu_xor)
        (λ q tmp. alu_with-Grows q tmp dst (reg_a reg) alu_xor))

pub jeq_imm-Grows : (p : Prog) (meta : Meta) → Grows p (jeq_imm p meta)
unfolding jeq_imm
jeq_imm-Grows p meta =
    let imm = sign_extend meta.imm in
    let or1 = if u32 imm == 0 then reg_a (lo meta.dst_reg) else imm_a in
    let or2 = if imm >>> 32 == 0 then reg_b (hi meta.dst_reg) else imm_b in
    Grows-then (half-Grows p imm_a (lo meta.dst_reg) (u32 imm)) (
      Grows-then (half-Grows _ imm_b (hi meta.dst_reg) (imm >>> 32))
        (Grows-then (alu-Grows _ reg_none or1 alu_or or2) (br-Grows _ br_beq meta.off 0)))

pub jeq32_imm-Grows : (p : Prog) (meta : Meta) → Grows p (jeq32_imm p meta)
unfolding jeq32_imm
jeq32_imm-Grows p meta =
    Grows-then
      (load-Grows p meta.imm imm_b (alu_with reg_none (reg_a (lo meta.dst_reg)) alu_xor)
        (λ q tmp. alu_with-Grows q tmp reg_none (reg_a (lo meta.dst_reg)) alu_xor))
      (br-Grows _ br_beq meta.off 0)

pub jset_imm-Grows : (p : Prog) (meta : Meta) → Grows p (jset_imm p meta)
unfolding jset_imm
jset_imm-Grows p meta =
    let imm = sign_extend meta.imm in
    Grows-then
      (and_if (is_jmp64 meta && not (imm >>> 32 == 0)) p _ _
        (load-Grows p (u32 imm) imm_b (alu_with imm_b (reg_a (lo meta.dst_reg)) alu_and)
          (λ q tmp. alu_with-Grows q tmp imm_b (reg_a (lo meta.dst_reg)) alu_and))
        (alu-Grows _ reg_none (reg_a (hi meta.dst_reg)) alu_or imm_b))
      (br-Grows _ br_bne meta.off 0)

branch_differs-Grows :
    (p : Prog) (meta : Meta) (reg half : ℕ) → Grows p (branch_differs p meta reg half)
unfolding branch_differs
branch_differs-Grows p meta reg half =
    Grows-then
      (load-Grows p half imm_b (alu_with reg_none (reg_a reg) alu_xor)
        (λ q tmp. alu_with-Grows q tmp reg_none (reg_a reg) alu_xor))
      (br-Grows _ br_bne meta.off 0)

pub jne_imm-Grows : (p : Prog) (meta : Meta) → Grows p (jne_imm p meta)
unfolding jne_imm
jne_imm-Grows p meta =
    let imm = sign_extend meta.imm in
    let is_jmp32 = bit_and meta.code 7 == 6 in
    let first = branch_differs-Grows p meta (lo meta.dst_reg) (u32 imm) in
    Grows-if (imm == 0) p _ _
      (Grows-then
        (Grows-if is_jmp32 p _ _ (alu-Grows p reg_none reg_none alu_none (reg_b (lo meta.dst_reg)))
          (alu-Grows p reg_none (reg_a (lo meta.dst_reg)) alu_or (reg_b (hi meta.dst_reg))))
        (br-Grows _ br_bne meta.off 0))
      (Grows-if is_jmp32 p _ _ first
        (Grows-then first (branch_differs-Grows _ meta (hi meta.dst_reg) (imm >>> 32))))

pub jeq_reg-Grows : (p : Prog) (meta : Meta) → Grows p (jeq_reg p meta)
unfolding jeq_reg
jeq_reg-Grows p meta =
    Grows-then
      (and_if (is_jmp64 meta) p _ _
        (alu-Grows p imm_a (reg_a (lo meta.dst_reg)) alu_xor (reg_b (lo meta.src_reg)))
        (Grows-then (alu-Grows _ imm_b (reg_a (hi meta.dst_reg)) alu_xor (reg_b (hi meta.src_reg)))
          (alu-Grows _ reg_none imm_a alu_or imm_b)))
      (br-Grows _ br_beq meta.off 0)
