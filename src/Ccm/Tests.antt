-- ===== src/Ccm/Tests.antt =====
-- Runs of src/ccm.c, and its theorems at states that meet their hypotheses.
use nfp_drv_kmods.Base.{
  ℕ, ◌≡◌, ◌≢◌, ◌≤◌, ◌<◌, ◌⊎◌, inl, refl, false, some, none, [], ◌∷◌, ok, err, eagain, erestartsys,
  arith,
}
use nfp_drv_kmods.Ccm.{Skb, Ccm, alloc_tag, free_tag, tag_alloc_span, used_tags}
use nfp_drv_kmods.Ccm.Tags.{IsValid, Freed, free_tag-Freed, taken, alloc_tag_lem}
use nfp_drv_kmods.Ccm.Request.{Env, wait_reply, request, communicate}
use nfp_drv_kmods.Ccm.Request.Release.{KeepsValid, IsReleased, wait_reply-IsReleased}
use nfp_drv_kmods.Ccm.Request.Answer.{Fair, wait_reply-Fair, Accepted, communicate_lem}
use nfp_drv_kmods.Ccm.Sequence.{
  allocate, free, look, receive, run, tags_given, tags_given_distinct, run-IsValid,
}

-- A map lookup (type 3) and its reply, for the tag 0.
abbrev lookup : Skb
lookup = 0 ∷ 0 ∷ 0 ∷ 0 ∷ 7 ∷ []

abbrev answer : Skb
answer = 131 ∷ 1 ∷ 0 ∷ 0 ∷ 42 ∷ []

-- The state of a new connection.
abbrev fresh : Ccm
fresh = record { tag_allocator = λ _. false; tag_alloc_next = 0; tag_alloc_last = 0; replies = [] }

fresh-IsValid : IsValid fresh
fresh-IsValid = record {
  window = record {
    next_in = omega arith;
    last_in = omega arith;
    few = omega arith;
    inside = λ t lt used. cc;
  };
  tight = inl refl;
}

-- Nothing arrives.
abbrev silent : Env
silent = record { before = λ i c. c; checks = 2; interrupted = some erestartsys }

-- The reply arrives only before the last look, after the signal.
abbrev late : Env
late = record {
  before = λ i c. (record c { replies = answer ∷ [] });
  checks = 0;
  interrupted = some erestartsys;
}

silent-KeepsValid : KeepsValid silent
silent-KeepsValid i ccm v = v

alloc_then_free : (free_tag (alloc_tag fresh).ccm 0).tag_alloc_last ≡ 1
unfolding alloc_tag free_tag
alloc_then_free = refl

free_tag-Freed_example : Freed fresh 5 (free_tag fresh 5)
free_tag-Freed_example = free_tag-Freed fresh 5 fresh-IsValid

alloc_tag_lem_example :
    let r = alloc_tag fresh in
    ((tag_alloc_span < used_tags fresh)
      × (r.tag ≡ err eagain)
      × (r.ccm ≡ fresh)
      × (r.warned ≡ false))
    ⊎ ((used_tags fresh ≤ tag_alloc_span)
        × (r.tag ≡ ok 0)
        × (fresh.tag_allocator 0 ≡ false)
        × (r.warned ≡ false)
        × (r.ccm ≡ taken fresh)
        × IsValid r.ccm)
alloc_tag_lem_example = alloc_tag_lem fresh fresh-IsValid

wait_reply-IsReleased_example : IsReleased 0 (wait_reply silent fresh 0).ccm
wait_reply-IsReleased_example = wait_reply-IsReleased silent silent-KeepsValid 0 fresh fresh-IsValid

communicate_lem_example :
    let r = communicate silent fresh lookup 3 5 in
    ((tag_alloc_span < used_tags fresh)
      × (r.sent ≡ none)
      × (r.result ≡ err eagain)
      × (r.ccm ≡ fresh))
    ⊎ ((used_tags fresh ≤ tag_alloc_span)
        × (r.sent ≡ some (request 3 0 lookup))
        × Accepted 0 3 5 r.result
        × IsReleased 0 r.ccm)
communicate_lem_example = communicate_lem silent fresh lookup 3 5 fresh-IsValid silent-KeepsValid

wait_reply-Fair_example : Fair late 0 (wait_reply late fresh 0)
wait_reply-Fair_example = wait_reply-Fair late 0 fresh

run-IsValid_example : IsValid (run fresh (allocate ∷ receive answer ∷ look 0 ∷ allocate ∷ []))
run-IsValid_example =
    run-IsValid fresh (allocate ∷ receive answer ∷ look 0 ∷ allocate ∷ []) fresh-IsValid

tags_given_distinct_example : ◌≢◌ {A = ℕ} 0 1
unfolding tags_given
tags_given_distinct_example =
    tags_given_distinct fresh (allocate ∷ free 0 ∷ allocate ∷ []) 0 1 (omega arith) (omega arith)
      (omega arith) refl refl
