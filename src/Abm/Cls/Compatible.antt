-- ===== src/Abm/Cls/Compatible.antt =====
-- Matches of src/abm/cls.c that overlap lead to one band.
use mathlib.Core.Path.{subst}
use mathlib.Core.Bool.{false≢true}
use nfp_drv_kmods.Base.{
  ℕ, ◌≡◌, ◌≢◌, refl, sym, ap, ◌∙◌, ◌⊎◌, inl, inr, Bool, true, false, not, ◌&&◌, ◌==◌, ==_iff,
  ==-yes, ==-no, differ, Bool-cases, List, [], ◌∷◌, bit_and, masks_agree, bit_and_comm,
}
use nfp_drv_kmods.Abm.Cls.{U32Match, find_band, remove, has_handle, conflicts, overwrite}

-- The bits that both masks keep do not tell the two apart only if the band is one.
abbrev pub Fits : U32Match → U32Match → Type 0
Fits a b =
    bit_and a.val (bit_and a.mask b.mask) ≡ bit_and b.val (bit_and a.mask b.mask) → a.band ≡ b.band

abbrev pub AllFit : U32Match → List U32Match → Type 0
AllFit a [] = Unit
AllFit a (b ∷ ms) = Fits a b × AllFit a ms

abbrev pub Unused : ℕ → List U32Match → Type 0
Unused handle [] = Unit
Unused handle (m ∷ ms) = (m.handle ≢ handle) × Unused handle ms

-- Each handle has one match, and matches that overlap have one band.
abbrev pub Valid : List U32Match → Type 0
Valid [] = Unit
Valid (m ∷ ms) = AllFit m ms × Unused m.handle ms × Valid ms

-- What fits but for a match with the same handle.
abbrev pub OthersFit : U32Match → List U32Match → Type 0
OthersFit new [] = Unit
OthersFit new (m ∷ ms) = (m.handle ≢ new.handle → Fits m new) × OthersFit new ms

abbrev pub In : U32Match → List U32Match → Type 0
In m [] = ⊥
In m (x ∷ xs) = (x ≡ m) ⊎ In m xs

Fits-sym : (a b : U32Match) → Fits a b → Fits b a
Fits-sym a b fits e =
    let c = bit_and_comm a.mask b.mask in
    sym (fits (ap (bit_and a.val) c ∙ sym e ∙ ap (bit_and b.val) (sym c)))

known_band : (a b : Bool) → (a && not b) ≡ false → a ≡ true → b ≡ true
known_band true true e p = refl
known_band true false e p = sym e
known_band false b e p = absurd (false≢true p)

pub conflicts-OthersFit :
    (new : U32Match) (ms : List U32Match) → conflicts new ms ≡ false → OthersFit new ms
unfolding conflicts
conflicts-OthersFit new [] = λ e. tt
conflicts-OthersFit new (m ∷ ms) = elim (Bool-cases (m.handle == new.handle)) [
  | inl is ↦
      rw is (λ e.
        ((λ ne. absurd (ne ((==_iff m.handle new.handle).0 is))), conflicts-OthersFit new ms e))
  | inr other ↦
      let cmask = bit_and m.mask new.mask in
      let test = (bit_and m.val cmask == bit_and new.val cmask) && not (m.band == new.band) in
      rw other (elim (Bool-cases test) [
        | inl bad ↦ rw bad (λ e. absurd (false≢true (sym e)))
        | inr good ↦ rw good (λ e. (
          (λ ne same. (==_iff m.band new.band).0 (
              known_band (bit_and m.val cmask == bit_and new.val cmask) (m.band == new.band) good
                (==-yes _ _ same))),
          conflicts-OthersFit new ms e,
        ))
      ])
]

pub has_handle-Unused :
    (handle : ℕ) (ms : List U32Match) → has_handle handle ms ≡ false → Unused handle ms
unfolding has_handle
has_handle-Unused handle [] = λ e. tt
has_handle-Unused handle (m ∷ ms) = elim (Bool-cases (m.handle == handle)) [
  | inl is ↦ rw is (λ e. absurd (false≢true (sym e)))
  | inr other ↦ rw other (λ e. (differ m.handle handle other, has_handle-Unused handle ms e))
]

pub Unused-AllFit :
    (new : U32Match) (ms : List U32Match) → Unused new.handle ms → OthersFit new ms → AllFit new ms
Unused-AllFit new [] unused fits = tt
Unused-AllFit new (m ∷ ms) (ne, unused) (fit, fits) =
    (Fits-sym m new (fit ne), Unused-AllFit new ms unused fits)

overwrite-none :
    (new : U32Match) (ms : List U32Match) → Unused new.handle ms → overwrite new ms ≡ ms
unfolding overwrite
overwrite-none new [] unused = refl
overwrite-none new (m ∷ ms) (ne, unused) =
    rw (==-no m.handle new.handle ne) (ap (λ xs. m ∷ xs) (overwrite-none new ms unused))

overwrite-AllFit :
    (m new : U32Match) (ms : List U32Match) → Fits m new → AllFit m ms → AllFit m (overwrite new ms)
unfolding overwrite
overwrite-AllFit m new [] fit fits = tt
overwrite-AllFit m new (x ∷ ms) fit (f, fits) = elim (Bool-cases (x.handle == new.handle)) [
  | inl is ↦ rw is (fit, overwrite-AllFit m new ms fit fits)
  | inr other ↦ rw other (f, overwrite-AllFit m new ms fit fits)
]

overwrite-Unused :
    (handle : ℕ) (new : U32Match) (ms : List U32Match)
    → new.handle ≢ handle
    → Unused handle ms
    → Unused handle (overwrite new ms)
unfolding overwrite
overwrite-Unused handle new [] ne unused = tt
overwrite-Unused handle new (x ∷ ms) ne (n, unused) = elim (Bool-cases (x.handle == new.handle)) [
  | inl is ↦ rw is (ne, overwrite-Unused handle new ms ne unused)
  | inr other ↦ rw other (n, overwrite-Unused handle new ms ne unused)
]

pub overwrite-Valid :
    (new : U32Match) (ms : List U32Match) → Valid ms → OthersFit new ms → Valid (overwrite new ms)
unfolding overwrite
overwrite-Valid new [] valid fits = tt
overwrite-Valid new (m ∷ ms) (all, unused, valid) (fit, fits) =
    elim (Bool-cases (m.handle == new.handle)) [
      | inl is ↦
          let same : m.handle ≡ new.handle = (==_iff m.handle new.handle).0 is in
          let free : Unused new.handle ms = subst (λ h. Unused h ms) same unused in
          let kept = overwrite-none new ms free in
          rw is (rw kept (Unused-AllFit new ms free fits, free, valid))
      | inr other ↦
          let ne = differ m.handle new.handle other in
          rw other (
            overwrite-AllFit m new ms (fit ne) all,
            overwrite-Unused m.handle new ms (λ e. ne (sym e)) unused,
            overwrite-Valid new ms valid fits,
          )
    ]

remove-AllFit :
    (m : U32Match) (handle : ℕ) (ms : List U32Match) → AllFit m ms → AllFit m (remove handle ms)
unfolding remove
remove-AllFit m handle [] fits = tt
remove-AllFit m handle (x ∷ ms) (f, fits) = elim (Bool-cases (x.handle == handle)) [
  | inl is ↦ rw is fits
  | inr other ↦ rw other (f, remove-AllFit m handle ms fits)
]

remove-Unused : (h handle : ℕ) (ms : List U32Match) → Unused h ms → Unused h (remove handle ms)
unfolding remove
remove-Unused h handle [] unused = tt
remove-Unused h handle (x ∷ ms) (n, unused) = elim (Bool-cases (x.handle == handle)) [
  | inl is ↦ rw is unused
  | inr other ↦ rw other (n, remove-Unused h handle ms unused)
]

-- What is left is valid, and has no match with the handle.
pub remove-Valid :
    (handle : ℕ) (ms : List U32Match)
    → Valid ms
    → Valid (remove handle ms) × Unused handle (remove handle ms)
unfolding remove
remove-Valid handle [] valid = (tt, tt)
remove-Valid handle (m ∷ ms) (all, unused, valid) = elim (Bool-cases (m.handle == handle)) [
  | inl is ↦
      let same : m.handle ≡ handle = (==_iff m.handle handle).0 is in
      rw is (valid, subst (λ h. Unused h ms) same unused)
  | inr other ↦
      let (v, u) = remove-Valid handle ms valid in
      rw other (
        (remove-AllFit m handle ms all, remove-Unused m.handle handle ms unused, v),
        (differ m.handle handle other, u),
      )
]

-- Two matches that a priority meets.
meet-Fits :
    (prio : ℕ) (a b : U32Match)
    → Fits a b
    → bit_and prio a.mask ≡ a.val
    → bit_and prio b.mask ≡ b.val
    → a.band ≡ b.band
meet-Fits prio a b fits p q =
    let both_masks = bit_and a.mask b.mask in
    fits (
      ap (λ v. bit_and v both_masks) (sym p)
      ∙ masks_agree prio a.mask b.mask
      ∙ ap (λ v. bit_and v both_masks) q)

In-Fits : (a m : U32Match) (ms : List U32Match) → AllFit a ms → In m ms → Fits a m
In-Fits a m (x ∷ ms) (f, fits) (inl is) = subst (λ y. Fits a y) is f
In-Fits a m (x ∷ ms) (f, fits) (inr more) = In-Fits a m ms fits more
In-Fits a m [] fits more = absurd more

-- In a valid list, a priority that meets some match gets the band of it, whatever comes before it
-- in the list.
pub find_band-In :
    (ms : List U32Match) (def_band prio : ℕ) (m : U32Match)
    → Valid ms
    → In m ms
    → bit_and prio m.mask ≡ m.val
    → find_band ms def_band prio ≡ m.band
unfolding find_band
find_band-In [] def_band prio m valid here meets = absurd here
find_band-In (x ∷ ms) def_band prio m (all, unused, valid) here meets =
    elim (Bool-cases (bit_and prio x.mask == x.val)) [
      | inl e ↦ rw e (elim here [
        | inl is ↦ ap (λ y. y.band) is
        | inr more ↦ meet-Fits prio x m (In-Fits x m ms all more) ((==_iff _ _).0 e) meets
      ])
      | inr e ↦ rw e (elim here [
        | inl is ↦ absurd (differ _ _ e (subst (λ y. bit_and prio y.mask ≡ y.val) (sym is) meets))
        | inr more ↦ find_band-In ms def_band prio m valid more meets
      ])
    ]
