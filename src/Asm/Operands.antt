-- ===== src/Asm/Operands.antt =====
-- The banks that the operands of an instruction come from (src/nfp_asm.c).
use nfp_drv_kmods.Base.{
  ℕ, ◌≡◌, ◌≢◌, sym, refl, ◌∙◌, Bool, true, false, not, ◌&&◌, ◌||◌, ◌==◌, if◌then◌else◌, ok, u8,
  Bool-cases, inl, inr, ok-injective, arith,
}
use nfp_drv_kmods.Asm.{
  swreg_type, gpr_a, gpr_b, imm, reg_none, to_unreg, to_rereg, UrRegs, ReRegs, exchanged, clash,
  to_unrestricted, to_restricted,
}

-- Operands that do not clash go to registers of the other bank never.
banks :
    (l r : ℕ)
    → (l == r && not (l == reg_none)) ≡ false
    → ((if (l == gpr_b || r == gpr_a) then r else l) ≢ gpr_b)
      × ((if (l == gpr_b || r == gpr_a) then l else r) ≢ gpr_a)
banks l r h = (ground arith, ground arith)

type-if :
    (b : Bool) (x y : ℕ)
    → swreg_type (if b then x else y) ≡ (if b then swreg_type x else swreg_type y)
type-if true x y = refl
type-if false x y = refl

-- What the encoders promise of the operands `l` and `r` and the flag for their exchange.
abbrev pub Placed : (ℕ → ℕ) → ℕ → ℕ → Bool → ℕ → ℕ → Type 0
Placed encode l r swap areg breg =
    (areg ≡ encode (if swap then r else l))
    × (breg ≡ encode (if swap then l else r))
    × (swreg_type (if swap then r else l) ≢ gpr_b)
    × (swreg_type (if swap then l else r) ≢ gpr_a)

-- Where `swreg_to_unrestricted` succeeds, `swap` says whether the operands are exchanged, the A and B
-- operands of the instruction are the encodings of the two, and no register of the bank B is the A
-- operand and none of the bank A the B operand.
pub to_unrestricted-Placed :
    (dst l r : ℕ) (regs : UrRegs)
    → to_unrestricted dst l r ≡ ok regs
    → Placed (λ reg. to_unreg reg false) l r regs.swap regs.areg regs.breg
unfolding to_unrestricted
to_unrestricted-Placed dst l r regs = elim (Bool-cases (swreg_type dst == imm)) [
  | inl e ↦ rw e (λ f. cc)
  | inr e ↦ rw e (elim (Bool-cases (clash l r)) [
    | inl c ↦ rw c (λ f. cc)
    | inr c ↦ rw c (λ f. rw⁻¹ (ok-injective f) (
      refl,
      refl,
      (λ t. (banks (swreg_type l) (swreg_type r) c).0 (sym (type-if (exchanged l r) r l) ∙ t)),
      λ t. (banks (swreg_type l) (swreg_type r) c).1 (sym (type-if (exchanged l r) l r) ∙ t),
    ))
  ])
]

-- `swreg_to_restricted` likewise, with the values cut to a byte.
pub to_restricted-Placed :
    (dst l r : ℕ) (has_imm8 : Bool) (regs : ReRegs)
    → to_restricted dst l r has_imm8 ≡ ok regs
    → Placed (λ reg. u8 ((to_rereg reg false has_imm8).0)) l r regs.swap regs.areg regs.breg
unfolding to_restricted
to_restricted-Placed dst l r has_imm8 regs = elim (Bool-cases (swreg_type dst == imm)) [
  | inl e ↦ rw e (λ f. cc)
  | inr e ↦ rw e (elim (Bool-cases (clash l r)) [
    | inl c ↦ rw c (λ f. cc)
    | inr c ↦ rw c (λ f. rw⁻¹ (ok-injective f) (
      refl,
      refl,
      (λ t. (banks (swreg_type l) (swreg_type r) c).0 (sym (type-if (exchanged l r) r l) ∙ t)),
      λ t. (banks (swreg_type l) (swreg_type r) c).1 (sym (type-if (exchanged l r) l r) ∙ t),
    ))
  ])
]
