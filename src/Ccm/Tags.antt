-- ===== src/Ccm/Tags.antt =====
-- The tags of src/ccm.c: which are in use, and what allocating and freeing does to the others.
use native.Mathlib.Nat.{le_refl}
use native.Mathlib.Decide.{ℕ_discrete, dec_lt}
use nfp_drv_kmods.Base.{
  ℕ, zero, suc, ◌+◌, ◌-◌, ◌^◌, ◌≤◌, ◌<◌, ◌≡◌, ◌≢◌, ◌⊎◌, inl, inr, refl, true, false, update, u16,
  Bool-cases, ok, err, eagain, arith, ==-yes, ==-no, lt→ltb, ltb-no,
}
use nfp_drv_kmods.Ccm.{Ccm, tag_alloc_span, used_tags, alloc_tag, advance, free_tag}

-- How far a tag lies past `tag_alloc_last`, round the 16 bits.
abbrev pub offset : Ccm → ℕ → ℕ
offset ccm tag = u16 (tag + 2 ^ 16 - ccm.tag_alloc_last)

-- The tags in use lie in the window from `tag_alloc_last` up to `tag_alloc_next`, which holds at
-- most one tag more than the span.
pub record InWindow (ccm : Ccm) : Type 0 where
  pub next_in : ccm.tag_alloc_next < 2 ^ 16
  pub last_in : ccm.tag_alloc_last < 2 ^ 16
  pub few : used_tags ccm ≤ tag_alloc_span + 1
  pub inside : (t : ℕ) → t < 2 ^ 16 → ccm.tag_allocator t ≡ true → offset ccm t < used_tags ccm

-- The window is empty, or starts at a tag in use: the exit test of the loop in `free_tag`.
abbrev pub IsTight : Ccm → Type 0
IsTight ccm =
    (ccm.tag_alloc_last ≡ ccm.tag_alloc_next) ⊎ (ccm.tag_allocator ccm.tag_alloc_last ≡ true)

pub record IsValid (ccm : Ccm) : Type 0 where
  pub window : InWindow ccm
  pub tight : IsTight ccm

-- One step of `tag_alloc_last` towards another tag.
pub step_closer :
    (a b : ℕ)
    → a < 2 ^ 16
    → b < 2 ^ 16
    → a ≢ b
    → u16 (b + 2 ^ 16 - u16 (a + 1)) + 1 ≡ u16 (b + 2 ^ 16 - a)
step_closer a b ha hb ne = omega arith

-- What the loop leaves alone, and that it ends by its own test.
pub record Advanced (before after : Ccm) : Type 0 where
  pub bits : after.tag_allocator ≡ before.tag_allocator
  pub next : after.tag_alloc_next ≡ before.tag_alloc_next
  pub queue : after.replies ≡ before.replies
  pub valid : IsValid after

step-InWindow :
    (ccm : Ccm)
    → InWindow ccm
    → ccm.tag_allocator ccm.tag_alloc_last ≡ false
    → ccm.tag_alloc_last ≢ ccm.tag_alloc_next
    → InWindow (record ccm { tag_alloc_last = u16 (ccm.tag_alloc_last + 1) })
step-InWindow ccm v clear ne = record {
  next_in = v.next_in;
  last_in = omega arith;
  few = omega (arith, step_closer ccm.tag_alloc_last ccm.tag_alloc_next v.last_in v.next_in ne);
  inside = λ t lt used. closer t lt used (λ e. cc);
}
  where
    closer :
        (t : ℕ)
        → t < 2 ^ 16
        → ccm.tag_allocator t ≡ true
        → ccm.tag_alloc_last ≢ t
        → u16 (t + 2 ^ 16 - u16 (ccm.tag_alloc_last + 1))
          < u16 (ccm.tag_alloc_next + 2 ^ 16 - u16 (ccm.tag_alloc_last + 1))
    closer t lt used other = omega (
      arith,
      v.inside t lt used,
      step_closer ccm.tag_alloc_last t v.last_in lt other,
      step_closer ccm.tag_alloc_last ccm.tag_alloc_next v.last_in v.next_in ne,
    )

-- With as many rounds as there are used tags, the loop ends by its test.
pub advance-Advanced :
    (fuel : ℕ) (ccm : Ccm) → used_tags ccm ≤ fuel → InWindow ccm → Advanced ccm (advance fuel ccm)
unfolding advance
advance-Advanced zero ccm h v = record {
  bits = refl;
  next = refl;
  queue = refl;
  valid = record { window = v; tight = inl (omega (arith, v.next_in, v.last_in)) };
}
advance-Advanced (suc fuel) ccm h v = elim (Bool-cases (ccm.tag_allocator ccm.tag_alloc_last)) [
  | inl busy ↦ rw (busy, advance) (stay (inr busy))
  | inr clear ↦ elim (ℕ_discrete ccm.tag_alloc_last ccm.tag_alloc_next) [
    | yes e ↦ rw (clear, ==-yes _ _ e, advance) (stay (inl e))
    | no ne ↦
        rw (clear, ==-no _ _ ne, advance)
          (onwards (
            advance-Advanced fuel (record ccm { tag_alloc_last = u16 (ccm.tag_alloc_last + 1) })
              (omega
                (arith, step_closer ccm.tag_alloc_last ccm.tag_alloc_next v.last_in v.next_in ne))
              (step-InWindow ccm v clear ne)))
  ]
]
  where
    stay : IsTight ccm → Advanced ccm ccm
    stay t = record {
      bits = refl;
      next = refl;
      queue = refl;
      valid = record { window = v; tight = t };
    }

    onwards :
        {after : Ccm}
        → Advanced (record ccm { tag_alloc_last = u16 (ccm.tag_alloc_last + 1) }) after
        → Advanced ccm after
    onwards r = record { bits = r.bits; next = r.next; queue = r.queue; valid = r.valid }

-- `nfp_ccm_free_tag` clears the bit of the tag and no other, keeps `tag_alloc_next` and the queue,
-- and its loop stops at the first tag in use or at `tag_alloc_next`.
pub record Freed (ccm : Ccm) (tag : ℕ) (after : Ccm) : Type 0 where
  pub bits : after.tag_allocator ≡ update ccm.tag_allocator tag false
  pub next : after.tag_alloc_next ≡ ccm.tag_alloc_next
  pub queue : after.replies ≡ ccm.replies
  pub valid : IsValid after

-- Freeing a tag of a valid state clears its bit and no other, keeps `tag_alloc_next` and the queue
-- of replies, and moves `tag_alloc_last` on until the state is valid again.
pub free_tag-Freed : (ccm : Ccm) (tag : ℕ) → IsValid ccm → Freed ccm tag (free_tag ccm tag)
unfolding free_tag
free_tag-Freed ccm tag v = record {
  bits = moved.bits;
  next = moved.next;
  queue = moved.queue;
  valid = moved.valid;
}
  where
    cleared : Ccm
    cleared = record ccm { tag_allocator = update ccm.tag_allocator tag false }

    cleared-InWindow : InWindow cleared
    cleared-InWindow = record {
      next_in = v.window.next_in;
      last_in = v.window.last_in;
      few = v.window.few;
      inside = λ t lt used. v.window.inside t lt (ground arith);
    }

    moved : Advanced cleared (advance (used_tags ccm) cleared)
    moved = advance-Advanced (used_tags ccm) cleared (le_refl _) cleared-InWindow

next-clear : (ccm : Ccm) → IsValid ccm → ccm.tag_allocator ccm.tag_alloc_next ≡ false
next-clear ccm v = elim (Bool-cases (ccm.tag_allocator ccm.tag_alloc_next)) [
  | inl used ↦ absurd (omega (arith, v.window.inside ccm.tag_alloc_next v.window.next_in used))
  | inr clear ↦ clear
]

-- The state after a tag is given.
abbrev pub taken : Ccm → Ccm
taken ccm = record ccm {
  tag_allocator = update ccm.tag_allocator ccm.tag_alloc_next true;
  tag_alloc_next = u16 (ccm.tag_alloc_next + 1);
}

taken-IsValid : (ccm : Ccm) → IsValid ccm → used_tags ccm ≤ tag_alloc_span → IsValid (taken ccm)
taken-IsValid ccm v room = record {
  window = record {
    next_in = omega arith;
    last_in = v.window.last_in;
    few = omega (arith, v.window.next_in, v.window.last_in);
    inside = λ t lt used. elim (ℕ_discrete ccm.tag_alloc_next t) [
      | yes e ↦ omega (arith, v.window.next_in, v.window.last_in)
      | no ne ↦ omega (
        arith,
        v.window.next_in,
        v.window.last_in,
        v.window.inside t lt (rw (==-no _ _ ne) at used),
      )
    ];
  };
  tight = elim (v.tight) [ inl e ↦ inr (ground arith) | inr used ↦ inr (ground arith) ];
}

-- A tag is refused exactly when more than the span are used, and the state is then unchanged. A
-- tag that is given was free, so that the WARN_ON does not fire; its bit is set and no other, the
-- queue is unchanged, and the state stays valid.
pub alloc_tag_lem :
    (ccm : Ccm)
    → IsValid ccm
    → let r = alloc_tag ccm in
      ((tag_alloc_span < used_tags ccm) × (r.tag ≡ err eagain) × (r.ccm ≡ ccm) × (r.warned ≡ false))
      ⊎ ((used_tags ccm ≤ tag_alloc_span)
          × (r.tag ≡ ok ccm.tag_alloc_next)
          × (ccm.tag_allocator ccm.tag_alloc_next ≡ false)
          × (r.warned ≡ false)
          × (r.ccm ≡ taken ccm)
          × IsValid r.ccm)
unfolding alloc_tag
alloc_tag_lem ccm v = elim (dec_lt tag_alloc_span (used_tags ccm)) [
  | yes busy ↦ rw (lt→ltb _ _ busy) (inl (busy, refl, refl, refl))
  | no room ↦
      let few : used_tags ccm ≤ tag_alloc_span = omega arith in
      rw (ltb-no _ _ room)
        (inr (few, refl, next-clear ccm v, next-clear ccm v, refl, taken-IsValid ccm v few))
]
