-- ===== src/Mailbox/System/Finish.antt =====
-- What leaves the queue at the end of a batch (src/ccm_mbox.c): the messages up to the last.
use native.Mathlib.Decide.{dec_lt}
use nfp_drv_kmods.Base.{
  ℕ, zero, suc, ◌+◌, ◌*◌, ◌/◌, ◌%◌, ◌^◌, ◌<◌, ◌≤◌, ◌≡◌, refl, sym, ◌∙◌, inl, inr, false, ◌==◌,
  ==-no, ==-yes, lt→ltb, ltb-no, if◌then◌else◌, Bool-cases, Option, none, some, List, [], ◌∷◌,
  length, arith,
}
use mathlib.Core.Path.{subst}
use mathlib.Core.Option.{some-injective, some-ne-none}
use nfp_drv_kmods.Mailbox.{Skb, Caps, round_up4, hdr_tag, get_tag}
use nfp_drv_kmods.Mailbox.CopyOut.{
  behind, refuse, accept, on_req, on_reply, Round, stop, goto_next, from_req, on_tlv, next_tlv,
  read_tlvs, read_replies,
}
use nfp_drv_kmods.Mailbox.Queue.{dequeue_until}
use nfp_drv_kmods.Mailbox.System.Done.{HasId, Concludes, Moved, Moved-then}
use nfp_drv_kmods.Mailbox.System.Batch.{Distinct, Waits, Batch}

-- The messages behind the last one of a batch.
pub after : ℕ → List Skb → Option (List Skb)
after last [] = none
after last (skb ∷ queue) =
    let rest = after last queue in if skb.id == last then some queue else rest

pub Batch-after :
    (last : ℕ) (queue : List Skb)
    → Batch last queue
    → (rest : List Skb) × (after last queue ≡ some rest) × Waits rest
unfolding after
Batch-after last [] b = absurd b
Batch-after last (skb ∷ queue) (inl (is, waits)) = (queue, (rw (==-yes skb.id last is) refl), waits)
Batch-after last (skb ∷ queue) (inr (ne, f, b)) =
    let (rest, e, waits) = Batch-after last queue b in (rest, (rw (==-no skb.id last ne) e), waits)

pub after-Distinct :
    (last : ℕ) (queue rest : List Skb)
    → Distinct queue
    → after last queue ≡ some rest
    → Distinct rest
unfolding after
after-Distinct last [] rest d = λ e. absurd (some-ne-none rest (sym e))
after-Distinct last (skb ∷ queue) rest (absent, d) = elim (Bool-cases (skb.id == last)) [
  | inl is ↦ rw is (λ e. rw⁻¹ (some-injective queue rest e) d)
  | inr other ↦ rw other (after-Distinct last queue rest d)
]

-- What is taken off the queue is added to the messages that are done.
pub record Took (last : ℕ) (f : Skb → Skb) (queue skbs rest : List Skb) : Type 0 where
  pub done : List Skb
  pub is : dequeue_until last f queue skbs ≡ some (rest, done)
  pub sum : length done + length rest ≡ length queue + length skbs
  pub less : length rest < length queue
  pub moved : Moved queue skbs rest done

one_Moved :
    (f : Skb → Skb) (skb : Skb) (queue skbs : List Skb)
    → Concludes f
    → Moved (skb ∷ queue) skbs queue (f skb ∷ skbs)
one_Moved f skb queue skbs ends = record {
  news = f skb ∷ [];
  split = refl;
  all = (ends.ends skb, tt);
  covers = λ x h. elim h [ inl is ↦ inl (inl (ends.same skb ∙ is)) | inr there ↦ inr there ];
}

pub dequeue_until-after :
    (last : ℕ) (f : Skb → Skb) (queue skbs rest : List Skb)
    → Concludes f
    → after last queue ≡ some rest
    → Took last f queue skbs rest
unfolding after dequeue_until
dequeue_until-after last f [] skbs rest ends = λ e. absurd (some-ne-none rest (sym e))
dequeue_until-after last f (skb ∷ queue) skbs rest ends = elim (Bool-cases (skb.id == last)) [
  | inl is ↦ rw is (λ e.
      let same : queue ≡ rest = some-injective queue rest e in
      subst (λ r. Took last f (skb ∷ queue) skbs r) same
        (record {
          done = f skb ∷ skbs;
          is = rw is refl;
          sum = omega arith;
          less = omega arith;
          moved = one_Moved f skb queue skbs ends;
        }))
  | inr other ↦ rw other (λ e.
      let took = dequeue_until-after last f queue (f skb ∷ skbs) rest ends e in
      record {
        done = took.done;
        is = rw other took.is;
        sum = omega (arith, took.sum);
        less = omega (arith, took.less);
        moved =
            Moved-then (skb ∷ queue) skbs queue (f skb ∷ skbs) rest took.done
              (one_Moved f skb queue skbs ends) took.moved;
      })
]

-- Two states of a queue between which no message comes or goes.
abbrev pub Same : ℕ → List Skb → List Skb → Type 0
Same last queue queue' =
    (after last queue' ≡ after last queue)
    × (length queue' ≡ length queue)
    × ((x : ℕ) → HasId x queue → HasId x queue')

abbrev pub Kept : ℕ → List Skb → Option (List Skb) → Type 0
Kept last queue none = ⊥
Kept last queue (some queue') = Same last queue queue'

abbrev Found : ℕ → List Skb → Option (List Skb) → Type 0
Found last queue none = Unit
Found last queue (some queue') = Same last queue queue'

abbrev RoundKept : ℕ → List Skb → Round → Type 0
RoundKept last queue (stop queue') = Same last queue queue'
RoundKept last queue (goto_next queue') = Same last queue queue'

behind-Found :
    (last : ℕ) (skb : Skb) (queue : List Skb) (found : Option (List Skb))
    → (skb.id == last) ≡ false
    → Found last queue found
    → Found last (skb ∷ queue) (behind skb found)
unfolding after
behind-Found last skb queue none other k = tt
behind-Found last skb queue (some queue') other (k, len, ids) = (
  (rw other k),
  (rw len refl),
  (λ x h. elim h [ inl is ↦ inl is | inr there ↦ inr (ids x there) ]),
)

on_req-Found :
    (tag last : ℕ) (f : Skb → Skb) (queue : List Skb)
    → ((skb : Skb) → (f skb).id ≡ skb.id)
    → Found last queue (on_req tag last f queue)
unfolding on_req after
on_req-Found tag last f [] keeps = tt
on_req-Found tag last f (skb ∷ queue) keeps = elim (Bool-cases (get_tag skb == tag)) [
  | inl e ↦ rw e (
    (rw (keeps skb) refl),
    refl,
    (λ x h. elim h [ inl is ↦ inl (keeps skb ∙ is) | inr there ↦ inr there ]),
  )
  | inr e ↦ rw e (elim (Bool-cases (skb.id == last)) [
    | inl e' ↦ rw e' tt
    | inr e' ↦ rw e' (behind-Found last skb queue _ e' (on_req-Found tag last f queue keeps))
  ])
]

on_reply-id :
    (bar : ℕ → ℕ) (type at length : ℕ) (skb : Skb) → (on_reply bar type at length skb).id ≡ skb.id
unfolding on_reply refuse accept
on_reply-id bar type at length skb = ground arith

from_req-RoundKept :
    (last : ℕ) (queue : List Skb) (found : Option (List Skb))
    → Found last queue found
    → RoundKept last queue (from_req queue found)
from_req-RoundKept last queue none k = (refl, refl, (λ x h. h))
from_req-RoundKept last queue (some found) k = k

on_tlv-RoundKept :
    (bar : ℕ → ℕ) (end last type length at : ℕ) (queue : List Skb)
    → RoundKept last queue (on_tlv bar end last type length at queue)
unfolding on_tlv
on_tlv-RoundKept bar end last type length at queue = ground (
  arith,
  from_req-RoundKept last queue (on_req (hdr_tag (bar at)) last (on_reply bar type at length) queue)
      (on_req-Found (hdr_tag (bar at)) last (on_reply bar type at length) queue
        (on_reply-id bar type at length)),
)

Kept-trans :
    (last : ℕ) (queue queue' : List Skb) (result : Option (List Skb))
    → Same last queue queue'
    → Kept last queue' result
    → Kept last queue result
Kept-trans last queue queue' none k more = more
Kept-trans last queue queue' (some queue'') (k, len, ids) (k', len', ids') =
    (k' ∙ k, len' ∙ len, (λ x h. ids' x (ids x h)))

next_tlv-Kept :
    (last end at' : ℕ) (queue : List Skb) (round : Round) (loop : ℕ → List Skb → Option (List Skb))
    → RoundKept last queue round
    → ((queue' : List Skb) → at' + 4 ≤ end → Kept last queue' (loop at' queue'))
    → Kept last queue (next_tlv end at' round loop)
unfolding next_tlv
next_tlv-Kept last end at' queue (stop queue') loop k more = k
next_tlv-Kept last end at' queue (goto_next queue') loop k more = elim (dec_lt end (at' + 4)) [
  | yes over ↦ rw (lt→ltb _ _ over) k
  | no room ↦ rw (ltb-no _ _ room) (Kept-trans last queue queue' _ k (more queue' (omega arith)))
]

read_tlvs-Kept :
    (fuel : ℕ) (bar : ℕ → ℕ) (end last off : ℕ) (queue : List Skb)
    → off ≤ end
    → end < off + 4 * fuel
    → Kept last queue (read_tlvs fuel bar end last off queue)
unfolding read_tlvs
read_tlvs-Kept zero bar end last off queue low room = omega arith
read_tlvs-Kept (suc fuel) bar end last off queue low room =
    let type = bar off / 2 ^ 16 % 2 ^ 16 in
    let len = bar off % 2 ^ 16 in
    let behind_tlv = off + 4 + round_up4 len in
    next_tlv-Kept last end behind_tlv queue (on_tlv bar end last type len (off + 4) queue)
      (read_tlvs fuel bar end last) (on_tlv-RoundKept bar end last type len (off + 4) queue)
      (λ queue' fits.
        read_tlvs-Kept fuel bar end last behind_tlv queue' (omega arith) (omega arith))

-- The loop over the replies ends, and no message comes or goes.
pub read_replies-Kept :
    (bar : ℕ → ℕ) (caps : Caps) (last : ℕ) (queue : List Skb)
    → Kept last queue (read_replies bar caps last queue)
unfolding read_replies
read_replies-Kept bar caps last queue =
    read_tlvs-Kept (caps.mbox_len / 4 + 1) bar _ last _ queue (omega arith) (omega arith)
