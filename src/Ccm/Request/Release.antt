-- ===== src/Ccm/Request/Release.antt =====
-- No request keeps its tag (src/ccm.c): whatever the other contexts do and however the wait ends,
-- the tag is free when `nfp_ccm_wait_reply` returns.
use nfp_drv_kmods.Base.{
  ℕ, zero, suc, ◌+◌, ◌≡◌, refl, false, Option, none, some, List, inl, inr, Errno, Option-cases,
  arith,
}
use nfp_drv_kmods.Ccm.{Skb, Ccm, free_tag, unlink_reply, reply, drop_unless_found, reply_drop_tag}
use nfp_drv_kmods.Ccm.Tags.{IsValid, free_tag-Freed}
use nfp_drv_kmods.Ccm.Request.{Env, or_else, poll, conclude, after_wait, after_spin, wait_reply}

-- The other contexts keep the state valid.
abbrev pub KeepsValid : Env → Type 0
KeepsValid env = (i : ℕ) (ccm : Ccm) → IsValid ccm → IsValid (env.before i ccm)

-- The state is valid and the tag is free.
abbrev pub IsReleased : ℕ → Ccm → Type 0
IsReleased tag ccm = IsValid ccm × (ccm.tag_allocator tag ≡ false)

-- A look that finds a reply has freed the tag, and one that does not leaves the state valid.
abbrev pub Looked : ℕ → Option Skb × Ccm → Type 0
Looked tag (some skb, c) = IsReleased tag c
Looked tag (none, c) = IsValid c

pub free_tag-IsReleased : (ccm : Ccm) (tag : ℕ) → IsValid ccm → IsReleased tag (free_tag ccm tag)
free_tag-IsReleased ccm tag v =
    let f = free_tag-Freed ccm tag v in (f.valid, ground (arith, f.bits))

with_queue :
    (ccm : Ccm) (queue : List Skb) (tag : ℕ)
    → IsReleased tag ccm
    → IsReleased tag (record ccm { replies = queue })
with_queue ccm queue tag (v, free) = (
  record {
    window = record {
      next_in = v.window.next_in;
      last_in = v.window.last_in;
      few = v.window.few;
      inside = v.window.inside;
    };
    tight = v.tight;
  },
  free,
)

pub reply-Looked : (ccm : Ccm) (tag : ℕ) → IsValid ccm → Looked tag (reply ccm tag)
unfolding reply
reply-Looked ccm tag v = elim (Option-cases (unlink_reply tag ccm.replies)) [
  | inl e ↦ rw (e, reply) v
  | inr ((skb, others), e) ↦ rw (e, reply) (with_queue _ others tag (free_tag-IsReleased ccm tag v))
]

or_else-Looked :
    (tag : ℕ) (r : Option Skb × Ccm) (next : Ccm → Option Skb × Ccm)
    → Looked tag r
    → ((c : Ccm) → IsValid c → Looked tag (next c))
    → Looked tag (or_else r next)
unfolding or_else
or_else-Looked tag (some skb, c) next h k = h
or_else-Looked tag (none, c) next h k = k c h

module _ (env : Env) (keeps : KeepsValid env) (tag : ℕ) where
  poll-Looked : (n i : ℕ) (ccm : Ccm) → IsValid ccm → Looked tag (poll env n i ccm tag)
  unfolding poll
  poll-Looked zero i ccm v = v
  poll-Looked (suc n) i ccm v =
      or_else-Looked tag _ _ (reply-Looked (env.before i ccm) tag (keeps i ccm v))
        λ c w. poll-Looked n (i + 1) c w

  pub drop_unless_found-IsReleased :
      (r : Option Skb × Ccm) → Looked tag r → IsReleased tag (drop_unless_found tag r).1
  unfolding drop_unless_found
  drop_unless_found-IsReleased (some skb, c) h = h
  drop_unless_found-IsReleased (none, c) h = free_tag-IsReleased c tag h

  conclude-ccm : (e : Option Errno) (r : Option Skb × Ccm) → (conclude e r).ccm ≡ r.1
  unfolding conclude
  conclude-ccm (some e) (found, c) = refl
  conclude-ccm none (some skb, c) = refl
  conclude-ccm none (none, c) = refl

  after_wait-IsReleased :
      (i : ℕ) (r : Option Skb × Ccm) → Looked tag r → IsReleased tag (after_wait env i tag r).ccm
  unfolding after_wait reply_drop_tag
  after_wait-IsReleased i (some skb, c) h = h
  after_wait-IsReleased i (none, c) h =
      rw (conclude-ccm env.interrupted (reply_drop_tag (env.before i c) tag))
        (drop_unless_found-IsReleased _ (reply-Looked (env.before i c) tag (keeps i c h)))

  after_spin-IsReleased :
      (r : Option Skb × Ccm) → Looked tag r → IsReleased tag (after_spin env tag r).ccm
  unfolding after_spin
  after_spin-IsReleased (some skb, c) h = h
  after_spin-IsReleased (none, c) h =
      after_wait-IsReleased (50 + env.checks) _ (poll-Looked env.checks 50 c h)

  -- Whatever the other contexts do, as long as they keep the state valid, and however the wait
  -- ends, `nfp_ccm_wait_reply` leaves the state valid and the tag of the request free.
  pub wait_reply-IsReleased :
      (ccm : Ccm) → IsValid ccm → IsReleased tag (wait_reply env ccm tag).ccm
  unfolding wait_reply
  wait_reply-IsReleased ccm v = after_spin-IsReleased _ (poll-Looked 50 0 ccm v)
