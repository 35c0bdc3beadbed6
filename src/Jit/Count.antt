-- ===== src/Jit/Count.antt =====
-- How many instructions the emitters of src/bpf/jit.c add.
use nfp_drv_kmods.Base.{
  ℕ, suc, ◌+◌, ◌/◌, ◌≤◌, ◌<◌, ◌≡◌, ◌≢◌, refl, sym, ◌∙◌, ap, Bool, true, false, not, ◌&&◌, ◌||◌,
  ◌==◌, ==_iff, Bool-cases, inl, inr, if◌then◌else◌, Option, none, some, List, [], ◌∷◌, length,
  length-append, Errno, Result, ok, err, arith, differ, efault, einval, enospc, ltb, u8, bit_and,
}
use nfp_drv_kmods.Asm.{swreg_type, to_unrestricted, to_restricted}
use nfp_drv_kmods.Jit.Prog.{Prog, fail, push, or_prev, or_last, emit_with, reg_imm, reg_none}
use nfp_drv_kmods.Jit.Emit.{
  TgtAct, cmd_with, emit_cmd_any, emit_br_relo, emit_br, emit_br_bit_relo, emit_br_bset, emit_immed,
  br_unc,
}
use nfp_drv_kmods.Jit.Emit.Alu.{
  shift_fits, shf_with, emit_shf, emit_shf_indir, emit_alu, emit_mul, mul_with, emit_ld_field_any,
}

-- `q` has `n` instructions more than `p`, or an error. The buffer is the same and holds them, an
-- error stays one, and a buffer with room for an instruction is not left.
pub record Emits (n : ℕ) (p q : Prog) : Type 0 where
  pub adds : q.error ≡ none → length q.prog ≡ length p.prog + n
  pub fits : length p.prog ≤ p.alloc_len / 8 → length q.prog ≤ q.alloc_len / 8
  pub keeps : q.alloc_len ≡ p.alloc_len
  pub sticks : p.error ≢ none → q.error ≢ none
  pub inside : 0 < p.alloc_len / 8 → q.wild ≡ p.wild

pub Emits-zero : (p : Prog) → Emits 0 p p
Emits-zero p = record {
  adds = λ h. omega arith;
  fits = λ h. h;
  keeps = refl;
  sticks = λ h. h;
  inside = λ h. refl;
}

-- An error is recorded, so that any number of instructions is right.
pub Emits-fail : (n : ℕ) (e : Errno) (p : Prog) → Emits n p (fail e p)
Emits-fail n e p = record {
  adds = λ h. absurd (some-none h);
  fits = λ h. h;
  keeps = refl;
  sticks = λ h f. some-none f;
  inside = λ h. refl;
}
  where
    some-none : {A : Type 0} → some e ≡ none → A
    some-none h = cc

clean : (p q : Prog) → (p.error ≢ none → q.error ≢ none) → q.error ≡ none → p.error ≡ none
clean p q sticks h = by_cases p.error refl
  where
    by_cases : (x : Option Errno) → p.error ≡ x → p.error ≡ none
    by_cases none e = e
    by_cases (some c) e = absurd (sticks (λ f. some_not_none (sym e ∙ f)) h)
      where
        some_not_none : some c ≢ none
        some_not_none g = cc

pub Emits-then : {n m : ℕ} {p q r : Prog} → Emits n p q → Emits m q r → Emits (n + m) p r
Emits-then {n} {m} {p} {q} {r} a b = record {
  adds = λ h. omega (arith, b.adds h, a.adds (clean q r b.sticks h));
  fits = λ h. b.fits (a.fits h);
  keeps = b.keeps ∙ a.keeps;
  sticks = λ h. b.sticks (a.sticks h);
  inside = λ h. b.inside (rw a.keeps h) ∙ a.inside h;
}

pub Emits-push : (p : Prog) (insn : ℕ) → Emits 1 p (push p insn)
unfolding push
Emits-push p insn = elim (Bool-cases (p.alloc_len / 8 == length p.prog)) [
  | inl full ↦ rw full (Emits-fail 1 enospc p)
  | inr room ↦ rw room (record {
    adds = λ h. length-append p.prog (insn ∷ []);
    fits = λ h. omega (arith, length-append p.prog (insn ∷ []), differ _ _ room);
    keeps = refl;
    sticks = λ h. h;
    inside = λ h. refl;
  })
]

pub Emits-emit_with {ℓ} :
    {A : Type ℓ} (n : ℕ) (p : Prog) (r : Result A) (emit : A → Prog)
    → ((reg : A) → Emits n p (emit reg))
    → Emits n p (emit_with p r emit)
unfolding emit_with
Emits-emit_with n p (ok reg) emit h = h reg
Emits-emit_with n p (err e) emit h = Emits-fail n e p

length-or_last : (xs : List ℕ) (bits : ℕ) → length (or_last xs bits) ≡ length xs
unfolding or_last
length-or_last [] bits = refl
length-or_last (x ∷ []) bits = refl
length-or_last (x ∷ y ∷ rest) bits = ap suc (length-or_last (y ∷ rest) bits)

-- What is or-ed to the last word of a program that is not empty.
pub Emits-or_prev :
    (n : ℕ) (p q : Prog) (bits : ℕ)
    → (0 < p.alloc_len / 8 → 0 < length q.prog)
    → Emits n p q
    → Emits n p (or_prev q bits)
unfolding or_prev
Emits-or_prev n p q bits some_word h = elim (Bool-cases (length q.prog == 0)) [
  | inl empty ↦ rw empty (record {
    adds = h.adds;
    fits = h.fits;
    keeps = h.keeps;
    sticks = h.sticks;
    inside = λ g. absurd (omega (arith, some_word g, (==_iff _ _).0 empty));
  })
  | inr filled ↦ rw filled (record {
    adds = λ g. length-or_last q.prog bits ∙ h.adds g;
    fits = λ g. rw (length-or_last q.prog bits) (h.fits g);
    keeps = h.keeps;
    sticks = h.sticks;
    inside = h.inside;
  })
]

push-some_word : (p : Prog) (insn : ℕ) → 0 < p.alloc_len / 8 → 0 < length (push p insn).prog
unfolding push
push-some_word p insn h = elim (Bool-cases (p.alloc_len / 8 == length p.prog)) [
  | inl full ↦ rw full (omega (arith, (==_iff _ _).0 full))
  | inr room ↦ rw room (omega (arith, length-append p.prog (insn ∷ [])))
]

pub Emits-relo : (p : Prog) (insn bits : ℕ) → Emits 1 p (or_prev (push p insn) bits)
Emits-relo p insn bits =
    Emits-or_prev 1 p (push p insn) bits (push-some_word p insn) (Emits-push p insn)

-- A choice of two programs that both have `n` instructions more.
pub Emits-if :
    (n : ℕ) (b : Bool) (p q r : Prog) → Emits n p q → Emits n p r → Emits n p (if b then q else r)
Emits-if n true p q r a b = a
Emits-if n false p q r a b = b

-- Each emitter adds one instruction.
pub emit_cmd_any-Emits :
    (p : Prog) (op : TgtAct) (mode xfer lreg rreg size ctx : ℕ) (indir : Bool)
    → Emits 1 p (emit_cmd_any p op mode xfer lreg rreg size ctx indir)
unfolding emit_cmd_any cmd_with
emit_cmd_any-Emits p op mode xfer lreg rreg size ctx indir =
    Emits-emit_with 1 p (to_restricted reg_none lreg rreg false)
      (cmd_with p op mode xfer size ctx indir)
      (λ reg. Emits-if 1 reg.swap p _ _ (Emits-fail 1 efault p) (
        Emits-if 1 (reg.dst_lmextn || reg.src_lmextn) p _ _ (Emits-fail 1 efault p)
          (Emits-push p _)))

pub emit_br_relo-Emits :
    (p : Prog) (mask addr defer relo : ℕ) → Emits 1 p (emit_br_relo p mask addr defer relo)
unfolding emit_br_relo
emit_br_relo-Emits p mask addr defer relo =
    Emits-if 1 (mask == br_unc && ltb 2 defer) p _ _ (Emits-fail 1 efault p) (Emits-relo p _ _)

pub emit_br-Emits : (p : Prog) (mask addr defer : ℕ) → Emits 1 p (emit_br p mask addr defer)
unfolding emit_br
emit_br-Emits p mask addr defer = emit_br_relo-Emits p mask addr defer 1

pub emit_br_bset-Emits :
    (p : Prog) (src bit addr defer : ℕ) → Emits 1 p (emit_br_bset p src bit addr defer)
unfolding emit_br_bset emit_br_bit_relo
emit_br_bset-Emits p src bit addr defer =
    Emits-emit_with 1 p (to_restricted reg_none src (reg_imm (u8 (bit + 1))) false) _
      (λ reg. Emits-relo p _ _)

pub emit_immed-Emits :
    (p : Prog) (dst imm width : ℕ) (invert : Bool) (shift : ℕ)
    → Emits 1 p (emit_immed p dst imm width invert shift)
unfolding emit_immed
emit_immed-Emits p dst imm width invert shift =
    Emits-if 1 (swreg_type dst == 16) p _ _ (Emits-fail 1 efault p) (
      Emits-emit_with 1 p (to_unrestricted dst dst (reg_imm (bit_and imm 0xff))) _
        (λ reg. Emits-push p _))

pub emit_shf-Emits :
    (p : Prog) (dst lreg op rreg sc shift : ℕ) → Emits 1 p (emit_shf p dst lreg op rreg sc shift)
unfolding emit_shf shf_with
emit_shf-Emits p dst lreg op rreg sc shift =
    Emits-emit_with 1 p (to_restricted dst lreg rreg true) (shf_with p op sc (u8 shift)) (λ reg.
      Emits-if 1 (not (shift_fits (u8 shift))) p _ _ (Emits-fail 1 efault p) (Emits-push p _))

pub emit_shf_indir-Emits :
    (p : Prog) (dst lreg op rreg sc : ℕ) → Emits 1 p (emit_shf_indir p dst lreg op rreg sc)
unfolding emit_shf_indir
emit_shf_indir-Emits p dst lreg op rreg sc =
    Emits-if 1 (sc == 0) p _ _ (Emits-fail 1 efault p) (emit_shf-Emits p dst lreg op rreg sc 0)

pub emit_alu-Emits : (p : Prog) (dst lreg op rreg : ℕ) → Emits 1 p (emit_alu p dst lreg op rreg)
unfolding emit_alu
emit_alu-Emits p dst lreg op rreg =
    Emits-emit_with 1 p (to_unrestricted dst lreg rreg) _ (λ reg. Emits-push p _)

pub emit_mul-Emits :
    (p : Prog) (lreg type step rreg : ℕ) → Emits 1 p (emit_mul p lreg type step rreg)
unfolding emit_mul mul_with
emit_mul-Emits p lreg type step rreg =
    Emits-if 1 (type == 0 && not (step == 0)) p _ _ (Emits-fail 1 einval p) (
      Emits-if 1 (step == 4 || step == 5) p _ _
        (Emits-emit_with 1 p (to_unrestricted lreg reg_none rreg) (mul_with p type step true)
          (λ reg. Emits-push p _))
        (Emits-emit_with 1 p (to_unrestricted reg_none lreg rreg) (mul_with p type step false)
          (λ reg. Emits-push p _)))

pub emit_ld_field_any-Emits :
    (p : Prog) (dst bmask src sc shift : ℕ) (zf : Bool)
    → Emits 1 p (emit_ld_field_any p dst bmask src sc shift zf)
unfolding emit_ld_field_any
emit_ld_field_any-Emits p dst bmask src sc shift zf =
    Emits-emit_with 1 p (to_restricted dst dst src true) _ (λ reg. Emits-push p _)
