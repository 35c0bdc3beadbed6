-- ===== src/Jit/Shift/Labels.antt =====
-- The labels of the shifts by a register of src/bpf/jit.c are where the code arrives.
use nfp_drv_kmods.Base.{
  ℕ, ◌+◌, ◌*◌, ◌/◌, ◌-◌, ◌^◌, ◌%◌, ◌<◌, ◌≤◌, ◌≡◌, refl, ap, Bool, true, false, not, ◌==◌, ==_iff,
  if◌then◌else◌, length, u8, u16, ltb, Result, ok, err, arith, Option-cases, inl, inr,
}
use nfp_drv_kmods.Jit.Prog.{
  Prog, confirm_current_offset, both, reg_a, reg_b, reg_imm, reg_none, imm_a, imm_both,
}
use nfp_drv_kmods.Jit.Count.{
  Emits, Emits-zero, Emits-then, emit_alu-Emits, emit_shf-Emits, emit_shf_indir-Emits,
  emit_br-Emits, emit_br_bset-Emits, emit_immed-Emits,
}
use nfp_drv_kmods.Jit.Emit.Alu.{emit_alu, alu_or, alu_sub, shf_none, l_shf, r_dshf}
use nfp_drv_kmods.Jit.Wrap.{Meta, wrp_immed, wrp_reg_mov, wrp_mov, pack_immed, immed_packed}
use nfp_drv_kmods.Jit.Shift.{
  shl_imm64_by, shl_reg64_lt32_high, shl_reg64_lt32_low, shl_reg64_lt32, shl_reg64_ge32, confirmed,
  shl_reg64_any, shl_reg64,
}

-- The program grew, by however many instructions.
abbrev pub Grows : Prog → Prog → Type 0
Grows p q = (n : ℕ) × Emits n p q

-- A callback that has grown the program and returned 0.
abbrev pub Lands : Prog → Result Prog → Type 0
Lands p (ok q) = Grows p q
Lands p (err e) = ⊥

pub Grows-if : (b : Bool) (p q r : Prog) → Grows p q → Grows p r → Grows p (if b then q else r)
Grows-if true p q r a b = a
Grows-if false p q r a b = b

pub Lands-if :
    (b : Bool) (p : Prog) (q r : Result Prog) → Lands p q → Lands p r → Lands p (if b then q else r)
Lands-if true p q r a b = a
Lands-if false p q r a b = b

pub clear-Emits : (p : Prog) (dst : ℕ) → Emits 1 p (wrp_immed p dst 0)
unfolding wrp_immed immed_packed pack_immed
clear-Emits p dst = emit_immed-Emits p dst 0 0 false 0

pub mov-Emits : (p : Prog) (dst src : ℕ) → Emits 1 p (wrp_reg_mov p dst src)
unfolding wrp_reg_mov wrp_mov
mov-Emits p dst src = emit_alu-Emits p (both dst) reg_none 0 (reg_b src)

-- Where `n` instructions went to a buffer of less than 2^16, the label `n` ahead is confirmed.
pub confirm-Emits :
    (n : ℕ) (p q : Prog)
    → p.alloc_len / 8 < 2 ^ 16
    → length p.prog ≤ p.alloc_len / 8
    → Emits n p q
    → confirm_current_offset q (u16 (length p.prog + n)) ≡ true
unfolding confirm_current_offset
confirm-Emits n p q small room h = elim (Option-cases q.error) [
  | inl clean ↦
      let there : length q.prog ≡ (length p.prog + n) % 2 ^ 16 =
        omega (arith, h.adds clean, h.fits room, ap (λ t. t / 8) h.keeps) in
      rw (clean) ((==_iff _ _).1 there)
  | inr found ↦ rw (found.1) refl
]

-- The tail of the functions below, where the labels are right.
pub confirmed-Lands :
    (n m : ℕ) (p q r : Prog) (ge32 : Prog → Prog)
    → p.alloc_len / 8 < 2 ^ 16
    → length p.prog ≤ p.alloc_len / 8
    → Emits n p r
    → Emits m p q
    → Emits 3 q r
    → Emits 3 r (ge32 r)
    → Lands p (confirmed r (u16 (length p.prog + n)) ge32 (u16 (length q.prog + 6)))
unfolding confirmed
confirmed-Lands n m p q r ge32 small room a b c d =
    let still : q.alloc_len / 8 < 2 ^ 16 = omega (arith, ap (λ (t : ℕ). t / 8) b.keeps) in
    rw (confirm-Emits n p r small room a)
      (rw (confirm-Emits 6 q (ge32 r) still (b.fits room) (Emits-then c d)) (n + 3, Emits-then a d))

-- The instruction that sets the amount of an indirect shift.
pub amount-Emits :
    (p : Prog) (src : ℕ) → Emits 1 p (emit_alu p reg_none (reg_a src) alu_or (reg_imm 0))
amount-Emits p src = emit_alu-Emits p reg_none (reg_a src) alu_or (reg_imm 0)

shl_high-Emits : (p : Prog) (dst src : ℕ) → Emits 3 p (shl_reg64_lt32_high p dst src)
unfolding shl_reg64_lt32_high
shl_high-Emits p dst src =
    let a = emit_alu-Emits p imm_both (reg_imm 32) alu_sub (reg_b src) in
    let b = emit_alu-Emits _ reg_none imm_a alu_or (reg_imm 0) in
    let c = emit_shf_indir-Emits _ (both (dst + 1)) (reg_a (dst + 1)) shf_none (reg_b dst) r_dshf in
    Emits-then (Emits-then a b) c

pub shl_low-Emits : (p : Prog) (dst src : ℕ) → Emits 2 p (shl_reg64_lt32_low p dst src)
unfolding shl_reg64_lt32_low
shl_low-Emits p dst src =
    Emits-then (amount-Emits p src)
      (emit_shf_indir-Emits _ (both dst) reg_none shf_none (reg_b dst) l_shf)

shl_ge32-Emits : (p : Prog) (dst src : ℕ) → Emits 3 p (shl_reg64_ge32 p dst src)
unfolding shl_reg64_ge32
shl_ge32-Emits p dst src =
    Emits-then
      (Emits-then (amount-Emits p src)
        (emit_shf_indir-Emits _ (both (dst + 1)) reg_none shf_none (reg_b dst) l_shf))
      (clear-Emits _ (both dst))

pub shl_imm64_by-Grows : (p : Prog) (dst shift_amt : ℕ) → Grows p (shl_imm64_by p dst shift_amt)
unfolding shl_imm64_by
shl_imm64_by-Grows p dst shift_amt =
    Grows-if (shift_amt == 0) p _ _ (0, Emits-zero p)
      (Grows-if (ltb shift_amt 32) p _ _
        (
          2,
          Emits-then
              (emit_shf-Emits p (both (dst + 1)) (reg_a (dst + 1)) shf_none (reg_b dst) r_dshf
                (32 - shift_amt))
              (emit_shf-Emits _ (both dst) reg_none shf_none (reg_b dst) l_shf shift_amt),
        )
        (Grows-if (shift_amt == 32) p _ _
          (2, Emits-then (mov-Emits p (dst + 1) dst) (clear-Emits _ (both dst)))
          (
            2,
            Emits-then
                (emit_shf-Emits p (both (dst + 1)) reg_none shf_none (reg_b dst) l_shf
                  (shift_amt - 32))
                (clear-Emits _ (both dst)),
          )))

shl_any-Lands :
    (p : Prog) (dst src : ℕ)
    → p.alloc_len / 8 < 2 ^ 16
    → length p.prog ≤ p.alloc_len / 8
    → Lands p (shl_reg64_any p dst src)
unfolding shl_reg64_any
shl_any-Lands p dst src small room =
    let a =
      Emits-then (emit_br_bset-Emits p (reg_a src) 5 (u16 (length p.prog + 7)) 0)
        (shl_high-Emits _ dst src) in
    let b = λ (q : Prog).
      Emits-then (emit_br-Emits q 0x18 (u16 (length q.prog + 6)) 2) (shl_low-Emits _ dst src) in
    confirmed-Lands 7 4 p _ _ (λ q. shl_reg64_ge32 q dst src) small room (Emits-then a (b _)) a
      (b _) (shl_ge32-Emits _ dst src)

-- A shift to the left by a register, from a program that its buffer of less than 2^16 instructions
-- holds: the labels that the source computes ahead are where the sequences begin, so that
-- shl_reg64 returns 0, and the program grows within the buffer or has an error.
pub shl_reg64-Lands :
    (p : Prog) (meta : Meta)
    → p.alloc_len / 8 < 2 ^ 16
    → length p.prog ≤ p.alloc_len / 8
    → Lands p (shl_reg64 p meta)
unfolding shl_reg64 shl_reg64_lt32
shl_reg64-Lands p meta small room =
    let dst = meta.dst_reg * 2 in
    let src = meta.src_reg * 2 in
    Lands-if (meta.umin_src == meta.umax_src) p _ _ (shl_imm64_by-Grows p dst (u8 meta.umin_src)) (
      Lands-if (ltb meta.umax_src 32) p _ _
        (5, Emits-then (shl_high-Emits p dst src) (shl_low-Emits _ dst src))
        (Lands-if (not (ltb meta.umin_src 32)) p _ _ (3, shl_ge32-Emits p dst src)
          (shl_any-Lands p dst src small room)))
