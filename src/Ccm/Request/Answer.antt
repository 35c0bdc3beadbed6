-- ===== src/Ccm/Request/Answer.antt =====
-- What a request gets back (src/ccm.c): a reply to this request, of the type and size asked for;
-- and the one case in which a reply is dropped on the floor.
use nfp_drv_kmods.Base.{
  ℕ, zero, suc, ◌+◌, ◌≤◌, ◌<◌, ◌≡◌, ◌⊎◌, inl, inr, refl, not, ◌&&◌, Option, none, some, List, [],
  ◌∷◌, length, ◌==◌, if◌then◌else◌, Errno, Option-cases, Bool-cases, Result, ok, err, ==_iff, ==-no,
  ==-yes, eio, eagain,
}
use nfp_drv_kmods.Ccm.{
  Skb, Ccm, get_type, get_tag, reply_of, tag_alloc_span, used_tags, unlink_reply, reply,
  drop_unless_found, reply_drop_tag, alloc_tag,
}
use nfp_drv_kmods.Ccm.Tags.{IsValid, alloc_tag_lem}
use native.Mathlib.Decide.{ℕ_discrete}
use nfp_drv_kmods.Ccm.Request.Release.{KeepsValid, IsReleased, wait_reply-IsReleased}
use nfp_drv_kmods.Ccm.Request.{
  Env, or_else, poll, Waited, conclude, after_wait, after_spin, wait_reply, request, check_reply,
  transmit, communicate,
}

-- What a look found, if anything, carries the tag.
abbrev pub Tagged : ℕ → Option Skb → Type 0
Tagged tag none = Unit
Tagged tag (some skb) = get_tag skb ≡ tag

abbrev Unlinked : ℕ → Option (Skb × List Skb) → Type 0
Unlinked tag none = Unit
Unlinked tag (some (skb, others)) = get_tag skb ≡ tag

unlink_reply-Unlinked : (tag : ℕ) (queue : List Skb) → Unlinked tag (unlink_reply tag queue)
unfolding unlink_reply
unlink_reply-Unlinked tag [] = tt
unlink_reply-Unlinked tag (skb ∷ rest) = elim (Bool-cases (get_tag skb == tag)) [
  | inl same ↦ rw (same) ((==_iff _ _).0 same)
  | inr other ↦ rw other (Unlinked-cons (unlink_reply tag rest) (unlink_reply-Unlinked tag rest))
]
  where
    Unlinked-cons :
        (o : Option (Skb × List Skb))
        → Unlinked tag o
        → Unlinked tag (elim o [ none ↦ none | some (found, others) ↦ some (found, skb ∷ others) ])
    Unlinked-cons none u = tt
    Unlinked-cons (some (found, others)) u = u

reply-Tagged : (ccm : Ccm) (tag : ℕ) → Tagged tag (reply ccm tag).0
unfolding reply
reply-Tagged ccm tag = elim (Option-cases (unlink_reply tag ccm.replies)) [
  | inl e ↦ rw (e, reply) tt
  | inr ((skb, others), e) ↦ rw (e, reply) (rw e at (unlink_reply-Unlinked tag ccm.replies))
]

or_else-Tagged :
    (tag : ℕ) (r : Option Skb × Ccm) (next : Ccm → Option Skb × Ccm)
    → Tagged tag r.0
    → ((c : Ccm) → Tagged tag (next c).0)
    → Tagged tag (or_else r next).0
unfolding or_else
or_else-Tagged tag (some skb, c) next h k = h
or_else-Tagged tag (none, c) next h k = k c

drop_unless_found-fst : (tag : ℕ) (r : Option Skb × Ccm) → (drop_unless_found tag r).0 ≡ r.0
unfolding drop_unless_found
drop_unless_found-fst tag (some skb, c) = refl
drop_unless_found-fst tag (none, c) = refl

-- A wait that succeeds returns a buffer with the tag and loses none. One that was interrupted
-- returns that error, and loses the buffer that the last look found. Any other loses nothing.
abbrev pub FairResult : Env → ℕ → Result Skb → Option Skb → Type 0
FairResult env tag (ok skb) lost = (get_tag skb ≡ tag) × (lost ≡ none)
FairResult env tag (err e) lost = Tagged tag lost × ((env.interrupted ≡ some e) ⊎ (lost ≡ none))

abbrev pub Fair : Env → ℕ → Waited → Type 0
Fair env tag w = FairResult env tag w.result w.lost

module _ (env : Env) (tag : ℕ) where
  poll-Tagged : (n i : ℕ) (ccm : Ccm) → Tagged tag (poll env n i ccm tag).0
  unfolding poll
  poll-Tagged zero i ccm = tt
  poll-Tagged (suc n) i ccm =
      or_else-Tagged tag _ _ (reply-Tagged (env.before i ccm) tag) λ c. poll-Tagged n (i + 1) c

  conclude-Fair :
      (e : Option Errno) (r : Option Skb × Ccm)
      → env.interrupted ≡ e
      → Tagged tag r.0
      → Fair env tag (conclude e r)
  unfolding conclude
  conclude-Fair (some e) (found, c) h t = (t, inl h)
  conclude-Fair none (some skb, c) h t = (t, refl)
  conclude-Fair none (none, c) h t = (tt, inr refl)

  after_wait-Fair :
      (i : ℕ) (r : Option Skb × Ccm) → Tagged tag r.0 → Fair env tag (after_wait env i tag r)
  unfolding after_wait reply_drop_tag
  after_wait-Fair i (some skb, c) t = (t, refl)
  after_wait-Fair i (none, c) t =
      conclude-Fair env.interrupted _ refl
        (rw (drop_unless_found-fst tag) (reply-Tagged (env.before i c) tag))

  after_spin-Fair : (r : Option Skb × Ccm) → Tagged tag r.0 → Fair env tag (after_spin env tag r)
  unfolding after_spin
  after_spin-Fair (some skb, c) t = (t, refl)
  after_spin-Fair (none, c) t = after_wait-Fair (50 + env.checks) _ (poll-Tagged env.checks 50 c)

  pub wait_reply-Fair : (ccm : Ccm) → Fair env tag (wait_reply env ccm tag)
  unfolding wait_reply
  wait_reply-Fair ccm = after_spin-Fair _ (poll-Tagged 50 0 ccm)

-- What `nfp_ccm_communicate` lets through.
abbrev pub Accepted : ℕ → ℕ → ℕ → Result Skb → Type 0
Accepted tag type reply_size (err e) = Unit
Accepted tag type reply_size (ok skb) =
    (get_tag skb ≡ tag)
    × (get_type skb ≡ reply_of type)
    × ((reply_size ≡ 0) ⊎ (length skb ≡ reply_size))

abbrev Carries : ℕ → Result Skb → Type 0
Carries tag (err e) = Unit
Carries tag (ok skb) = get_tag skb ≡ tag

FairResult-Carries :
    (env : Env) (tag : ℕ) (r : Result Skb) (lost : Option Skb)
    → FairResult env tag r lost
    → Carries tag r
FairResult-Carries env tag (ok skb) lost f = f.0
FairResult-Carries env tag (err e) lost f = tt

check_reply-Accepted :
    (tag type reply_size : ℕ) (r : Result Skb)
    → Carries tag r
    → Accepted tag type reply_size (check_reply type reply_size r)
unfolding check_reply
check_reply-Accepted tag type reply_size (err e) h = tt
check_reply-Accepted tag type reply_size (ok skb) h =
    elim (ℕ_discrete (get_type skb) (reply_of type)) [
      | no ne ↦ rw (==-no _ _ ne) tt
      | yes e ↦
          rw (==-yes _ _ e) (sized (ℕ_discrete reply_size 0) (ℕ_discrete (length skb) reply_size) e)
    ]
  where
    sized :
        Dec (reply_size ≡ 0)
        → Dec (length skb ≡ reply_size)
        → get_type skb ≡ reply_of type
        → Accepted tag type reply_size
            (if not (reply_size == 0) && not (length skb == reply_size) then err eio else ok skb)
    sized (yes z) l e = rw (==-yes _ _ z) (h, e, inl z)
    sized (no z) (yes l) e = rw (==-no _ _ z, ==-yes _ _ l) (h, e, inr l)
    sized (no z) (no l) e = rw (==-no _ _ z, ==-no _ _ l) tt

-- `nfp_ccm_communicate`, from a valid state and whatever the other contexts do that keeps it valid.
-- With more tags used than the span, it sends nothing, fails and changes nothing. Else it sends the
-- request with the next tag in its header; what it returns as a success has that tag, the reply's
-- type and, unless `reply_size` is 0, that size; and in each case the tag is free again.
pub communicate_lem :
    (env : Env) (ccm : Ccm) (skb : Skb) (type reply_size : ℕ)
    → IsValid ccm
    → KeepsValid env
    → let r = communicate env ccm skb type reply_size in
      let tag = ccm.tag_alloc_next in
      ((tag_alloc_span < used_tags ccm) × (r.sent ≡ none) × (r.result ≡ err eagain) × (r.ccm ≡ ccm))
      ⊎ ((used_tags ccm ≤ tag_alloc_span)
          × (r.sent ≡ some (request type tag skb))
          × Accepted tag type reply_size r.result
          × IsReleased tag r.ccm)
unfolding communicate
communicate_lem env ccm skb type reply_size v keeps = elim (alloc_tag_lem ccm v) [
  | inl (full, refused, same, _) ↦ rw (refused, transmit, same) (inl (full, refl, refl, refl))
  | inr (room, given, _, _, after, valid) ↦
      rw (given, transmit)
        (inr (
          room,
          refl,
          check_reply-Accepted ccm.tag_alloc_next type reply_size _ (
              FairResult-Carries env _ _ _
                (wait_reply-Fair env ccm.tag_alloc_next (alloc_tag ccm).ccm)),
          wait_reply-IsReleased env keeps ccm.tag_alloc_next _ valid,
        ))
]
