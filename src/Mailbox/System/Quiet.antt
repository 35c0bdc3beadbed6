-- ===== src/Mailbox/System/Quiet.antt =====
-- What the WARN_ON of the two works of src/ccm_mbox.c name does not happen.
use mathlib.Core.Path.{subst}
use mathlib.Core.Bool.{false≢true}
use nfp_drv_kmods.Base.{
  ℕ, ◌≡◌, refl, sym, ap, ◌∙◌, inl, inr, Bool, true, Bool-cases, Option, some, List,
}
use nfp_drv_kmods.Mailbox.{Skb, Caps, should_run}
use nfp_drv_kmods.Mailbox.Queue.{Mailbox, is_first, first_posted}
use nfp_drv_kmods.Mailbox.System.{
  Owner, nobody, posting, System, first_runs, end_batch, last_of, find, Reaches, start,
}
use nfp_drv_kmods.Mailbox.System.Invariant.{Owned, Inv, end_batch-Ended}
use nfp_drv_kmods.Mailbox.System.Found.{find-Owned}
use nfp_drv_kmods.Mailbox.System.Reach.{first_runs-Owned, last_of-Batch, Reaches-Inv}

-- What the WARN_ON of the two works rule out, and what the code relies on.
pub record Quiet (caps : Caps) (s : System) : Type 0 where
  -- The work of the runner finds a posted message at the head that is to run, and nobody runs.
  pub works : s.mbox.runq_work ≡ true → (first_runs s.mbox.queue ≡ true) × (s.owner ≡ nobody)
  -- The work of the wait finds a posted message at the head.
  pub waits : s.owner ≡ posting → first_posted s.mbox.queue ≡ true
  -- A thread that is told to run finds its message at the head.
  pub runs :
      (id : ℕ) (skb : Skb)
      → find id s.mbox.queue ≡ some skb
      → should_run skb.state ≡ true
      → is_first s.mbox.queue id ≡ true
  -- The end of a batch, whatever the mailbox holds, finds all its messages in the queue.
  pub ends :
      (last : ℕ) (bar : Option (ℕ → ℕ))
      → last_of s ≡ some last
      → (m : Mailbox) × (end_batch bar caps last s.mbox ≡ some m)

pub start-Inv : Inv start
start-Inv = record { distinct = tt; owned = refl }

first-Quiet :
    (s : System) (id : ℕ) (skb : Skb)
    → Inv s
    → find id s.mbox.queue ≡ some skb
    → should_run skb.state ≡ true
    → is_first s.mbox.queue id ≡ true
first-Quiet s id skb inv e runs = elim (Bool-cases (is_first s.mbox.queue id)) [
  | inl first ↦ first
  | inr other ↦ elim (find-Owned s.owner s.mbox.queue s.mbox.runq_work id skb inv.owned other e) [
    | inl b ↦ absurd (false≢true (sym (ap should_run b) ∙ runs))
    | inr q ↦ absurd (false≢true (sym (ap should_run q) ∙ runs))
  ]
]

posting-Quiet :
    (owner : Owner) (queue : List Skb) (is_queued : Bool)
    → Owned owner queue is_queued
    → owner ≡ posting
    → first_posted queue ≡ true
posting-Quiet owner queue is_queued owned e = (subst (λ o. Owned o queue is_queued) e owned).1

-- From the mailbox that `nfp_ccm_mbox_alloc` makes, only states are reached in which the conditions
-- that the WARN_ON of the two works name do not hold, and in which the batch of the owner can end:
-- the work of the runner finds a posted message at the head of the queue that is to run while nobody
-- runs; the work of the wait finds a posted one there; a thread whose message is to run finds it
-- there; and at the end of a batch, with every content of the BAR and with an error, the loop over
-- the replies returns and the messages up to the last of the batch are in the queue.
pub Reaches-Quiet : (caps : Caps) (s : System) → Reaches caps start s → Quiet caps s
Reaches-Quiet caps s steps =
    let inv = Reaches-Inv caps start s steps start-Inv in
    record {
      works = first_runs-Owned s.owner s.mbox.queue s.mbox.runq_work inv.owned;
      waits = posting-Quiet s.owner s.mbox.queue s.mbox.runq_work inv.owned;
      runs = λ id skb e r. first-Quiet s id skb inv e r;
      ends = λ last bar is.
          let (b, idle) = last_of-Batch s.owner s.mbox.queue s.mbox.runq_work last inv.owned is in
          let (m, e, ended) = end_batch-Ended bar caps last s.mbox b inv.distinct idle in (m, e);
    }
