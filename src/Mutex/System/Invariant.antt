-- ===== src/Mutex/System/Invariant.antt =====
-- The invariant of hosts that use one mutex of src/nfpcore/nfp_mutex.c, and what one access does to
-- it.
use nfp_drv_kmods.Base.{
  differ, ℕ, ◌≡◌, ◌≢◌, ◌∙◌, sym, inl, inr, ◌==◌, if◌then◌else◌, update, Bool-cases, ==_iff, ◌⊎◌,
}
use nfp_drv_kmods.Mutex.{is_unlocked}
use nfp_drv_kmods.Mutex.Safe.{Free, is_unlocked-Free, Phase, inside, Handle, Safe, LeavesSome}
use nfp_drv_kmods.Mutex.System.{Host, idle, running}

abbrev pub HostSafe : ℕ → Phase → Host → Type 0
HostSafe at p (idle m) = Handle at m p
HostSafe at p (running prog) = Safe at (LeavesSome at) p prog

pub at_host : (at : ℕ) (p : Phase) (h k : Host) → h ≡ k → HostSafe at p h → HostSafe at p k
at_host at p h k e s = rw⁻¹ e s

-- One host at most is inside, and then the lock word is not free.
pub record Inv (at word : ℕ) (hosts : ℕ → Host) : Type 0 where
  pub phases : ℕ → Phase
  pub safe : (i : ℕ) → HostSafe at (phases i) (hosts i)
  pub busy : (i : ℕ) → phases i ≡ inside → ¬ Free word
  pub alone : (i j : ℕ) → phases i ≡ inside → phases j ≡ inside → i ≡ j

-- The host `i` goes to the phase `q`, and the lock word to `word'`.
pub moved :
    (at word word' : ℕ) (hosts : ℕ → Host) (i : ℕ) (q : Phase) (host : Host)
    → (inv : Inv at word hosts) → HostSafe at q host
    → (q ≡ inside → ¬ Free word')
    → ((j : ℕ) → i ≢ j → inv.phases j ≡ inside → ¬ Free word')
    → ((j : ℕ) → q ≡ inside → i ≢ j → inv.phases j ≢ inside)
    → Inv at word' (update hosts i host)
moved at word word' hosts i q host inv h own others only = record {
  phases = update inv.phases i q;
  safe = λ j. elim (Bool-cases (i == j)) [ inl e ↦ rw e h | inr e ↦ rw e (inv.safe j) ];
  busy =
      λ j. elim (Bool-cases (i == j)) [ inl e ↦ rw e own | inr e ↦ rw e (others j (differ i j e)) ];
  alone = λ j l. elim (Bool-cases (i == j)) [
    | inl e ↦ elim (Bool-cases (i == l)) [
      | inl f ↦ λ a b. sym ((==_iff i j).0 e) ∙ (==_iff i l).0 f
      | inr f ↦ rw (e, f) (λ a b. absurd (only l a (differ i l f) b))
    ]
    | inr e ↦ elim (Bool-cases (i == l)) [
      | inl f ↦ rw (e, f) (λ a b. absurd (only j b (differ i j e) a))
      | inr f ↦ rw (e, f) (inv.alone j l)
    ]
  ];
}

-- What an access that succeeds does to the lock word, from its phase and to the next.
pub record Effect (p q : Phase) (word word' : ℕ) : Type 0 where
  pub own : q ≡ inside → (p ≡ inside → ¬ Free word) → ¬ Free word'
  pub others : ¬ Free word → p ≢ inside → ¬ Free word'
  pub only : q ≡ inside → (p ≡ inside) ⊎ Free word

pub same-Effect : (p : Phase) (word word' : ℕ) → word' ≡ word → Effect p p word word'
same-Effect p word word' e = record {
  own = λ h b. rw e (b h);
  others = λ b h. rw e b;
  only = λ h. inl h;
}

pub set_only :
    (p : Phase) (v : ℕ) → (if is_unlocked v then inside else p) ≡ inside → (p ≡ inside) ⊎ Free v
set_only p v = elim (Bool-cases (is_unlocked v)) [
  | inl e ↦ λ h. inr (is_unlocked-Free v e)
  | inr e ↦ rw e (λ h. inl h)
]
