-- ===== src/Ccm/Sequence.antt =====
-- Any sequence of the operations of src/ccm.c: the state stays valid, and no tag comes back until
-- 65536 requests later.
use native.Mathlib.Decide.{dec_lt}
use nfp_drv_kmods.Base.{
  ℕ, zero, suc, ◌+◌, ◌^◌, ◌<◌, ◌≡◌, ◌≢◌, ◌∙◌, inl, inr, refl, ap, false, not, ◌&&◌, Option, none,
  some, List, [], ◌∷◌, length, get_elem?, u16, update, ltb, ltb-no, lt→ltb, ◌==◌, Bool-cases,
  Option-cases, Result, ok, err, Errno, eagain, ◌⊎◌, arith,
}
use nfp_drv_kmods.Ccm.{
  Skb, Ccm, hdr_size, get_tag, used_tags, tag_alloc_span, alloc_tag, advance, free_tag,
  unlink_reply, reply, drop_unless_found, reply_drop_tag, rx,
}
use nfp_drv_kmods.Ccm.Tags.{IsValid, free_tag-Freed, alloc_tag_lem}
use nfp_drv_kmods.Ccm.Request.Release.{Looked, reply-Looked, drop_unless_found-IsReleased}
use nfp_drv_kmods.Ccm.Request.{Env}

-- One use of the lock.
pub data Op : Type 0 where
  allocate : Op
  free : ℕ → Op
  look last_look : ℕ → Op
  receive : Skb → Op

pub step : Ccm → Op → Ccm
unfolding alloc_tag free_tag reply reply_drop_tag rx
step ccm allocate = (alloc_tag ccm).ccm
step ccm (free tag) = free_tag ccm tag
step ccm (look tag) = (reply ccm tag).1
step ccm (last_look tag) = (reply_drop_tag ccm tag).1
step ccm (receive skb) = (rx ccm skb).1

abbrev pub put_tag : Result ℕ → List ℕ → List ℕ
put_tag (ok tag) tags = tag ∷ tags
put_tag (err e) tags = tags

-- The tags that a sequence of operations gives, in order.
unfoldable pub tags_given : Ccm → List Op → List ℕ
unfolding step
tags_given ccm [] = []
tags_given ccm (allocate ∷ ops) = put_tag (alloc_tag ccm).tag (tags_given (step ccm allocate) ops)
tags_given ccm (op ∷ ops) = tags_given (step ccm op) ops

next-advance : (fuel : ℕ) (ccm : Ccm) → (advance fuel ccm).tag_alloc_next ≡ ccm.tag_alloc_next
unfolding advance
next-advance zero ccm = refl
next-advance (suc fuel) ccm =
    elim (Bool-cases (
      not (ccm.tag_allocator ccm.tag_alloc_last)
      && not (ccm.tag_alloc_last == ccm.tag_alloc_next))) [
        | inl more ↦ rw (more, advance) (next-advance fuel _)
        | inr done ↦ rw (done, advance) refl
      ]

next-free_tag : (ccm : Ccm) (tag : ℕ) → (free_tag ccm tag).tag_alloc_next ≡ ccm.tag_alloc_next
unfolding free_tag
next-free_tag ccm tag =
    next-advance (used_tags ccm) (record ccm { tag_allocator = update ccm.tag_allocator tag false })

next-reply : (ccm : Ccm) (tag : ℕ) → (reply ccm tag).1.tag_alloc_next ≡ ccm.tag_alloc_next
unfolding reply
next-reply ccm tag = elim (Option-cases (unlink_reply tag ccm.replies)) [
  | inl e ↦ rw (e, reply) refl
  | inr ((skb, others), e) ↦ rw (e, reply) (next-free_tag ccm tag)
]

next-drop :
    (tag : ℕ) (r : Option Skb × Ccm)
    → (drop_unless_found tag r).1.tag_alloc_next ≡ r.1.tag_alloc_next
unfolding drop_unless_found
next-drop tag (some skb, c) = refl
next-drop tag (none, c) = next-free_tag c tag

next-reply_drop_tag :
    (ccm : Ccm) (tag : ℕ) → (reply_drop_tag ccm tag).1.tag_alloc_next ≡ ccm.tag_alloc_next
unfolding reply_drop_tag
next-reply_drop_tag ccm tag = next-drop tag (reply ccm tag) ∙ next-reply ccm tag

next-rx : (ccm : Ccm) (skb : Skb) → (rx ccm skb).1.tag_alloc_next ≡ ccm.tag_alloc_next
unfolding rx
next-rx ccm skb = ground arith

alloc_cases :
    (ccm : Ccm)
    → let r = alloc_tag ccm in
      ((e : Errno) × (r.tag ≡ err e) × (r.ccm ≡ ccm))
      ⊎ ((r.tag ≡ ok ccm.tag_alloc_next) × (r.ccm.tag_alloc_next ≡ u16 (ccm.tag_alloc_next + 1)))
unfolding alloc_tag
alloc_cases ccm = elim (dec_lt tag_alloc_span (used_tags ccm)) [
  | yes busy ↦ rw (lt→ltb _ _ busy) (inl (eagain, refl, refl))
  | no room ↦ rw (ltb-no _ _ room) (inr (refl, refl))
]

-- The i-th tag given is the i-th after `tag_alloc_next`, round the 16 bits.
pub tags_given-nth :
    (ccm : Ccm) (ops : List Op) (i : ℕ) {tag : ℕ}
    → ccm.tag_alloc_next < 2 ^ 16
    → get_elem? (tags_given ccm ops) i ≡ some tag
    → tag ≡ u16 (ccm.tag_alloc_next + i)
unfolding tags_given step
tags_given-nth ccm [] i lt h = cc
tags_given-nth ccm (allocate ∷ ops) i {tag} lt h = elim (alloc_cases ccm) [
  | inl (e, refused, same) ↦ tags_given-nth ccm ops i lt (rw (refused, same) at h)
  | inr (given, next) ↦
      counted i next (rw given at h) λ k n q. tags_given-nth (alloc_tag ccm).ccm ops k n q
]
  where
    counted :
        (k : ℕ)
        → (alloc_tag ccm).ccm.tag_alloc_next ≡ u16 (ccm.tag_alloc_next + 1)
        → get_elem? (ccm.tag_alloc_next ∷ tags_given (alloc_tag ccm).ccm ops) k ≡ some tag
        → ((m : ℕ)
            → (alloc_tag ccm).ccm.tag_alloc_next < 2 ^ 16
            → get_elem? (tags_given (alloc_tag ccm).ccm ops) m ≡ some tag
            → tag ≡ u16 ((alloc_tag ccm).ccm.tag_alloc_next + m))
        → tag ≡ u16 (ccm.tag_alloc_next + k)
    counted zero next q rest = ground arith
    counted (suc k) next q rest = omega (arith, rest k (omega arith) q)
tags_given-nth ccm (free t ∷ ops) i lt h =
    tags_given-nth (free_tag ccm t) ops i (rw next-free_tag lt) h
    ∙ ap (λ n. u16 (n + i)) (next-free_tag ccm t)
tags_given-nth ccm (look t ∷ ops) i lt h =
    tags_given-nth (reply ccm t).1 ops i (rw next-reply lt) h
    ∙ ap (λ n. u16 (n + i)) (next-reply ccm t)
tags_given-nth ccm (last_look t ∷ ops) i lt h =
    tags_given-nth (reply_drop_tag ccm t).1 ops i (rw next-reply_drop_tag lt) h
    ∙ ap (λ n. u16 (n + i)) (next-reply_drop_tag ccm t)
tags_given-nth ccm (receive skb ∷ ops) i lt h =
    tags_given-nth (rx ccm skb).1 ops i (rw next-rx lt) h ∙ ap (λ n. u16 (n + i)) (next-rx ccm skb)

-- Whatever is done in between, a tag that was given is not given again before 65535 other tags
-- have been.
pub tags_given_distinct :
    (ccm : Ccm) (ops : List Op) (i j : ℕ) {a b : ℕ}
    → ccm.tag_alloc_next < 2 ^ 16
    → i < j
    → j < i + 2 ^ 16
    → get_elem? (tags_given ccm ops) i ≡ some a
    → get_elem? (tags_given ccm ops) j ≡ some b
    → a ≢ b
tags_given_distinct ccm ops i j lt before near p q =
    omega (arith, tags_given-nth ccm ops i lt p, tags_given-nth ccm ops j lt q)

pub run : Ccm → List Op → Ccm
unfolding step
run ccm [] = ccm
run ccm (op ∷ ops) = run (step ccm op) ops

with_queue-IsValid :
    (ccm : Ccm) (queue : List Skb) → IsValid ccm → IsValid (record ccm { replies = queue })
with_queue-IsValid ccm queue v = record {
  window = record {
    next_in = v.window.next_in;
    last_in = v.window.last_in;
    few = v.window.few;
    inside = v.window.inside;
  };
  tight = v.tight;
}

Looked-IsValid : (tag : ℕ) (r : Option Skb × Ccm) → Looked tag r → IsValid r.1
Looked-IsValid tag (some skb, c) h = h.0
Looked-IsValid tag (none, c) h = h

rx-IsValid : (ccm : Ccm) (skb : Skb) → IsValid ccm → IsValid (rx ccm skb).1
unfolding rx
rx-IsValid ccm skb v = elim (Bool-cases (ltb (length skb) hdr_size)) [
  | inl short ↦ rw short v
  | inr long ↦ rw long (elim (Bool-cases (ccm.tag_allocator (get_tag skb))) [
    | inl wanted ↦ rw wanted (with_queue-IsValid ccm _ v)
    | inr unknown ↦ rw unknown v
  ])
]

step-IsValid : (ccm : Ccm) (op : Op) → IsValid ccm → IsValid (step ccm op)
unfolding step
step-IsValid ccm allocate v = elim (alloc_tag_lem ccm v) [
  | inl (_, _, same, _) ↦ rw same v
  | inr (_, _, _, _, _, valid) ↦ valid
]
step-IsValid ccm (free t) v = (free_tag-Freed ccm t v).valid
step-IsValid ccm (look t) v = Looked-IsValid t _ (reply-Looked ccm t v)
step-IsValid ccm (last_look t) v =
    unfold reply_drop_tag in
    (drop_unless_found-IsReleased same (λ i c w. w) t _ (reply-Looked ccm t v)).0
  where
    same : Env
    same = record { before = λ i c. c; checks = 0; interrupted = none }
step-IsValid ccm (receive skb) v = rx-IsValid ccm skb v

-- Every sequence of operations keeps the state valid: at most one tag more than the span is used,
-- and each tag in use lies between `tag_alloc_last` and `tag_alloc_next`.
pub run-IsValid : (ccm : Ccm) (ops : List Op) → IsValid ccm → IsValid (run ccm ops)
unfolding run
run-IsValid ccm [] v = v
run-IsValid ccm (op ∷ ops) v = run-IsValid (step ccm op) ops (step-IsValid ccm op v)
