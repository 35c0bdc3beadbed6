-- ===== src/Jit/Alu/Grow.antt =====
-- The callbacks for arithmetic and jumps grow the program within its buffer (src/bpf/jit.c).
use nfp_drv_kmods.Base.{
  ℕ, ◌+◌, ◌-◌, Bool, true, false, ◌==◌, ◌||◌, Bool-cases, inl, inr, ◌>>>◌, u32, Option, none, some,
  bit_and, ltb,
}
use nfp_drv_kmods.Asm.Fields.{complement}
use nfp_drv_kmods.Jit.Prog.{Prog, both, reg_a, reg_b, reg_imm, reg_none, imm_b}
use nfp_drv_kmods.Jit.Count.{
  Emits-zero, Emits-then, emit_alu-Emits, emit_mul-Emits, emit_immed-Emits, emit_br-Emits,
}
use nfp_drv_kmods.Jit.Emit.{emit_br}
use nfp_drv_kmods.Jit.Emit.Alu.{
  emit_alu, emit_mul, alu_add, alu_and, alu_or, alu_xor, alu_sub, alu_sub_c, alu_not,
}
use nfp_drv_kmods.Jit.Wrap.{
  Meta, sign_extend, pack_immed, immed_packed, wrp_immed, wrp_zext, wrp_reg_mov, ur_load_imm_any,
  alu_with, wrp_alu_imm,
}
use nfp_drv_kmods.Jit.Shift.Labels.{Grows, Grows-if, mov-Emits}
use nfp_drv_kmods.Jit.Alu.{
  lo, hi, wrp_alu64_imm, alu_pair, wrp_alu32_imm, wrp_alu32_reg, mov_reg64, mov_imm64, imm_pair,
  neg_reg64, wrp_mul_u32, wrp_mul_u16, mul_by, wrp_mul, mov_reg, mov_imm, neg_reg,
}

pub Grows-then : {p q r : Prog} → Grows p q → Grows q r → Grows p r
Grows-then (n, a) (m, b) = (n + m, Emits-then a b)

pub alu-Grows : (p : Prog) (dst lreg op rreg : ℕ) → Grows p (emit_alu p dst lreg op rreg)
alu-Grows p dst lreg op rreg = (1, emit_alu-Emits p dst lreg op rreg)

pub br-Grows : (p : Prog) (mask addr defer : ℕ) → Grows p (emit_br p mask addr defer)
br-Grows p mask addr defer = (1, emit_br-Emits p mask addr defer)

immed_packed-Grows :
    (p : Prog) (dst imm : ℕ) (plain inverted : Option (ℕ × ℕ))
    → Grows p (immed_packed p dst imm plain inverted)
unfolding immed_packed
immed_packed-Grows p dst imm (some (val, shift)) inverted =
    (1, emit_immed-Emits p dst val 0 false shift)
immed_packed-Grows p dst imm none (some (val, shift)) = (1, emit_immed-Emits p dst val 0 true shift)
immed_packed-Grows p dst imm none none = (
  2,
  Emits-then (emit_immed-Emits p dst (bit_and imm 0xffff) 0 false 0)
      (emit_immed-Emits _ dst (imm >>> 16) 2 false 2),
)

pub immed-Grows : (p : Prog) (dst imm : ℕ) → Grows p (wrp_immed p dst imm)
unfolding wrp_immed
immed-Grows p dst imm =
    immed_packed-Grows p dst imm (pack_immed imm) (pack_immed (0xffffffff - imm))

pub zext-Grows : (p : Prog) (meta : Meta) (dst : ℕ) → Grows p (wrp_zext p meta dst)
unfolding wrp_zext
zext-Grows p meta dst =
    Grows-if meta.do_zext p _ _ (immed-Grows p (both (dst + 1)) 0) (0, Emits-zero p)

-- What follows a load of an immediate.
pub load-Grows :
    (p : Prog) (imm tmp_reg : ℕ) (use_it : Prog × ℕ → Prog)
    → ((q : Prog) (reg : ℕ) → Grows q (use_it (q, reg)))
    → Grows p (use_it (ur_load_imm_any p imm tmp_reg))
unfolding ur_load_imm_any
load-Grows p imm tmp_reg use_it h = elim (Bool-cases (bit_and imm (complement 0xff) == 0)) [
  | inl e ↦ rw e (h p (reg_imm imm))
  | inr e ↦ rw e (Grows-then (immed-Grows p tmp_reg imm) (h (wrp_immed p tmp_reg imm) tmp_reg))
]

pub alu_with-Grows : (q : Prog) (reg dst lreg op : ℕ) → Grows q (alu_with dst lreg op (q, reg))
unfolding alu_with
alu_with-Grows q reg dst lreg op = alu-Grows q dst lreg op reg

pub alu_imm-Grows : (p : Prog) (dst alu_op imm : ℕ) → Grows p (wrp_alu_imm p dst alu_op imm)
unfolding wrp_alu_imm
alu_imm-Grows p dst alu_op imm =
    let same : Grows p p = (0, Emits-zero p) in
    let plain =
      load-Grows p imm imm_b (alu_with (both dst) (reg_a dst) alu_op)
        (λ q reg. alu_with-Grows q reg (both dst) (reg_a dst) alu_op) in
    Grows-if (alu_op == alu_and) p _ _
      (Grows-if (imm == 0) p _ _ (immed-Grows p (both dst) 0)
        (Grows-if (imm == 0xffffffff) p _ _ same plain))
      (Grows-if (alu_op == alu_or) p _ _
        (Grows-if (imm == 0xffffffff) p _ _ (immed-Grows p (both dst) 0xffffffff)
          (Grows-if (imm == 0) p _ _ same plain))
        (Grows-if (alu_op == alu_xor) p _ _
          (Grows-if (imm == 0xffffffff) p _ _ (alu-Grows p (both dst) reg_none alu_not (reg_b dst))
            (Grows-if (imm == 0) p _ _ same plain))
          plain))

pub pair-Grows : (p : Prog) (meta : Meta) (op high_op : ℕ) → Grows p (alu_pair p meta op high_op)
unfolding alu_pair
pair-Grows p meta op high_op =
    Grows-then
      (alu-Grows p (both (lo meta.dst_reg)) (reg_a (lo meta.dst_reg)) op (reg_b (lo meta.src_reg)))
      (alu-Grows _ (both (hi meta.dst_reg)) (reg_a (hi meta.dst_reg)) high_op
        (reg_b (hi meta.src_reg)))

pub imm_pair-Grows :
    (p : Prog) (meta : Meta) (op high_op : ℕ) → Grows p (imm_pair p meta op high_op)
unfolding imm_pair
imm_pair-Grows p meta op high_op =
    Grows-then (alu_imm-Grows p (lo meta.dst_reg) op (u32 (sign_extend meta.imm)))
      (alu_imm-Grows _ (hi meta.dst_reg) high_op (sign_extend meta.imm >>> 32))

pub alu64_imm-Grows :
    (p : Prog) (meta : Meta) (op : ℕ) (skip : Bool) → Grows p (wrp_alu64_imm p meta op skip)
unfolding wrp_alu64_imm
alu64_imm-Grows p meta op skip =
    Grows-if skip p _ _ (0, Emits-zero p)
      (Grows-then (alu_imm-Grows p (lo meta.dst_reg) op (u32 (sign_extend meta.imm)))
        (alu_imm-Grows _ (hi meta.dst_reg) op (sign_extend meta.imm >>> 32)))

pub alu32_imm-Grows : (p : Prog) (meta : Meta) (op : ℕ) → Grows p (wrp_alu32_imm p meta op)
unfolding wrp_alu32_imm
alu32_imm-Grows p meta op =
    Grows-then (alu_imm-Grows p (lo meta.dst_reg) op meta.imm) (zext-Grows _ meta (lo meta.dst_reg))

pub alu32_reg-Grows : (p : Prog) (meta : Meta) (op : ℕ) → Grows p (wrp_alu32_reg p meta op)
unfolding wrp_alu32_reg
alu32_reg-Grows p meta op =
    Grows-then
      (alu-Grows p (both (lo meta.dst_reg)) (reg_a (lo meta.dst_reg)) op (reg_b (lo meta.src_reg)))
      (zext-Grows _ meta (lo meta.dst_reg))

pub reg_mov-Grows : (p : Prog) (dst src : ℕ) → Grows p (wrp_reg_mov p dst src)
reg_mov-Grows p dst src = (1, mov-Emits p dst src)

pub mov_reg64-Grows : (p : Prog) (meta : Meta) → Grows p (mov_reg64 p meta)
unfolding mov_reg64
mov_reg64-Grows p meta =
    let dst = lo meta.dst_reg in
    let src = lo meta.src_reg in
    Grows-if (meta.src_reg == 10) p _ _
      (Grows-then
        (load-Grows p p.stack_frame_depth imm_b (alu_with (both dst) (reg_a 22) alu_add)
          (λ q reg. alu_with-Grows q reg (both dst) (reg_a 22) alu_add))
        (immed-Grows _ (both (dst + 1)) 0))
      (Grows-then (reg_mov-Grows p dst src) (reg_mov-Grows _ (dst + 1) (src + 1)))

pub mov_imm64-Grows : (p : Prog) (meta : Meta) → Grows p (mov_imm64 p meta)
unfolding mov_imm64
mov_imm64-Grows p meta =
    Grows-then (immed-Grows p (both (lo meta.dst_reg)) (u32 (sign_extend meta.imm)))
      (immed-Grows _ (both (hi meta.dst_reg)) (sign_extend meta.imm >>> 32))

pub neg_reg64-Grows : (p : Prog) (meta : Meta) → Grows p (neg_reg64 p meta)
unfolding neg_reg64
neg_reg64-Grows p meta =
    let dst = lo meta.dst_reg in
    Grows-then (alu-Grows p (both dst) (reg_imm 0) alu_sub (reg_b dst))
      (alu-Grows _ (both (dst + 1)) (reg_imm 0) alu_sub_c (reg_b (dst + 1)))

mul-Grows : (p : Prog) (lreg type step rreg : ℕ) → Grows p (emit_mul p lreg type step rreg)
mul-Grows p lreg type step rreg = (1, emit_mul-Emits p lreg type step rreg)

mul_u32-Grows :
    (p : Prog) (dst_hi dst_lo lreg rreg : ℕ) (high : Bool)
    → Grows p (wrp_mul_u32 p dst_hi dst_lo lreg rreg high)
unfolding wrp_mul_u32
mul_u32-Grows p dst_hi dst_lo lreg rreg high =
    let steps = Grows-then (mul-Grows p lreg 0 0 rreg) (
      Grows-then (mul-Grows _ lreg 3 0 rreg) (
        Grows-then (mul-Grows _ lreg 3 1 rreg) (
          Grows-then (mul-Grows _ lreg 3 2 rreg)
            (Grows-then (mul-Grows _ lreg 3 3 rreg) (mul-Grows _ dst_lo 3 4 reg_none))))) in
    Grows-then steps
      (Grows-if high _ _ _ (mul-Grows _ dst_hi 3 5 reg_none) (immed-Grows _ dst_hi 0))

mul_u16-Grows : (p : Prog) (dst_lo lreg rreg : ℕ) → Grows p (wrp_mul_u16 p dst_lo lreg rreg)
unfolding wrp_mul_u16
mul_u16-Grows p dst_lo lreg rreg = Grows-then (mul-Grows p lreg 0 0 rreg) (
    Grows-then (mul-Grows _ lreg 2 0 rreg)
      (Grows-then (mul-Grows _ lreg 2 1 rreg) (mul-Grows _ dst_lo 2 4 reg_none)))

mul_by-Grows :
    (p : Prog) (meta : Meta) (high : Bool) (ropnd_max reg : ℕ)
    → Grows p (mul_by meta high ropnd_max (p, reg))
unfolding mul_by
mul_by-Grows p meta high ropnd_max reg =
    let dst = lo meta.dst_reg in
    Grows-if (ltb 0xffff meta.umax_dst || ltb 0xffff ropnd_max) p _ _
      (mul_u32-Grows p (both (dst + 1)) (both dst) (reg_a dst) reg high)
      (mul_u16-Grows p (both dst) (reg_a dst) reg)

pub wrp_mul-Grows :
    (p : Prog) (meta : Meta) (high from_reg : Bool) → Grows p (wrp_mul p meta high from_reg)
unfolding wrp_mul
wrp_mul-Grows p meta high from_reg =
    let meta' = record meta { umax_dst = u32 meta.umax_dst } in
    Grows-if from_reg p _ _
      (mul_by-Grows p meta' high (u32 meta.umax_src) (reg_b (lo meta.src_reg)))
      (load-Grows p meta.imm imm_b (mul_by meta' high meta.imm)
        (λ q reg. mul_by-Grows q meta' high meta.imm reg))

pub mov_reg-Grows : (p : Prog) (meta : Meta) → Grows p (mov_reg p meta)
unfolding mov_reg
mov_reg-Grows p meta =
    Grows-then (reg_mov-Grows p (lo meta.dst_reg) (lo meta.src_reg))
      (immed-Grows _ (both (hi meta.dst_reg)) 0)

pub mov_imm-Grows : (p : Prog) (meta : Meta) → Grows p (mov_imm p meta)
unfolding mov_imm
mov_imm-Grows p meta =
    Grows-then (immed-Grows p (both (lo meta.dst_reg)) meta.imm)
      (immed-Grows _ (both (hi meta.dst_reg)) 0)

pub neg_reg-Grows : (p : Prog) (meta : Meta) → Grows p (neg_reg p meta)
unfolding neg_reg
neg_reg-Grows p meta =
    let dst = lo meta.dst_reg in
    Grows-then (alu-Grows p (both dst) (reg_imm 0) alu_sub (reg_b dst)) (zext-Grows _ meta dst)
