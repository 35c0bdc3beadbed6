-- ===== src/Mailbox/System/Invariant.antt =====
-- The mailbox (src/ccm_mbox.c) has one runner at most, and one to come while messages wait.
use nfp_drv_kmods.Base.{
  Errno, inl, inr, ℕ, ◌+◌, ◌<◌, ◌≡◌, refl, ◌∙◌, Bool, true, false, ◌||◌, Option, none, some, List,
  [], ◌∷◌, length, arith,
}
use nfp_drv_kmods.Mailbox.{Skb, Caps, next}
use nfp_drv_kmods.Mailbox.Queue.{
  Mailbox, mark_first, first_posted, mark_next_runner, conclude, conclude_err, finish_batch,
  mark_all_err,
}
use nfp_drv_kmods.Mailbox.System.{
  Owner, nobody, posting, runner, System, first_id, run_queue, replied, copy_out, end_batch,
}
use nfp_drv_kmods.Mailbox.System.Done.{HasId, Concludes, Moved}
use nfp_drv_kmods.Mailbox.System.Batch.{Distinct, Waits, Batch}
use nfp_drv_kmods.Mailbox.System.Choose.{choose_batch-Batch}
use nfp_drv_kmods.Mailbox.System.Finish.{
  after, Batch-after, after-Distinct, dequeue_until-after, read_replies-Kept, Kept,
}

-- Nobody owns the mailbox: the first message is to run, by its thread or by the work.
abbrev pub Idle : List Skb → Bool → Type 0
Idle [] is_queued = is_queued ≡ false
Idle (skb ∷ queue) is_queued = (skb.state ≡ next) × Waits queue × (is_queued ≡ skb.posted)

abbrev pub Owned : Owner → List Skb → Bool → Type 0
Owned nobody queue is_queued = Idle queue is_queued
Owned posting queue is_queued =
    Batch (first_id queue) queue × (first_posted queue ≡ true) × (is_queued ≡ false)
Owned (runner last) queue is_queued = Batch last queue × (is_queued ≡ false)

pub record Inv (s : System) : Type 0 where
  pub distinct : Distinct s.mbox.queue
  pub owned : Owned s.owner s.mbox.queue s.mbox.runq_work

pub mark_first-Distinct : (queue : List Skb) → Distinct queue → Distinct (mark_first queue)
mark_first-Distinct [] d = d
mark_first-Distinct (skb ∷ queue) d = d

pub mark_first-Idle :
    (queue : List Skb) (is_queued : Bool)
    → Waits queue
    → is_queued ≡ false
    → Idle (mark_first queue) (is_queued || first_posted queue)
mark_first-Idle [] is_queued waits e = rw e refl
mark_first-Idle (skb ∷ queue) is_queued (w, waits) e = (refl, waits, (rw e refl))

pub length-mark_first : (queue : List Skb) → length (mark_first queue) ≡ length queue
length-mark_first [] = refl
length-mark_first (skb ∷ queue) = refl

HasId-mark_first : (x : ℕ) (queue : List Skb) → HasId x queue → HasId x (mark_first queue)
HasId-mark_first x [] h = h
HasId-mark_first x (skb ∷ queue) h = h

conclude-Concludes : Concludes conclude
unfolding conclude
conclude-Concludes = record { same = λ skb. refl; ends = λ skb. refl }

conclude_err-Concludes : (e : Errno) → Concludes (conclude_err e)
unfolding conclude_err
conclude_err-Concludes e = record { same = λ skb. refl; ends = λ skb. refl }

-- A batch has ended: what has left the queue is done, and the first message behind it is to run.
pub record Ended (m m' : Mailbox) : Type 0 where
  pub inv : Inv (record { mbox = m'; owner = nobody })
  pub kept : length m'.finished_skbs + length m'.queue ≡ length m.finished_skbs + length m.queue
  pub less : length m'.queue < length m.queue
  pub moved : Moved m.queue m.finished_skbs m'.queue m'.finished_skbs

-- More is left where identifiers are kept, and less was in the queue.
Moved-between :
    (queue queue' before rest rest' after : List Skb)
    → ((x : ℕ) → HasId x queue' → HasId x queue)
    → ((x : ℕ) → HasId x rest → HasId x rest')
    → Moved queue before rest after
    → Moved queue' before rest' after
Moved-between queue queue' before rest rest' after taken left moved = record {
  news = moved.news;
  split = moved.split;
  all = moved.all;
  covers = λ x h. elim (moved.covers x (taken x h)) [
    | inl done ↦ inl done
    | inr there ↦ inr (left x there)
  ];
}

finish_batch-Ended :
    (f : Skb → Skb) (last : ℕ) (m : Mailbox) (rest : List Skb)
    → Concludes f
    → after last m.queue ≡ some rest
    → Waits rest
    → Distinct rest
    → m.runq_work ≡ false
    → (m' : Mailbox) × (finish_batch f last m ≡ some m') × Ended m m'
unfolding finish_batch mark_next_runner
finish_batch-Ended f last m rest ends e waits distinct idle =
    let took = dequeue_until-after last f m.queue m.finished_skbs rest ends e in
    let m' = mark_next_runner (record m { queue = rest; finished_skbs = took.done }) in
    (
      m',
      (rw (took.is) refl),
      (record {
        inv = record {
          distinct = mark_first-Distinct rest distinct;
          owned = mark_first-Idle rest m.runq_work waits idle;
        };
        kept = omega (arith, took.sum, length-mark_first rest);
        less = omega (arith, took.less, length-mark_first rest);
        moved =
            Moved-between m.queue m.queue m.finished_skbs rest (mark_first rest) took.done
              (λ x h. h) (λ x h. HasId-mark_first x rest h) took.moved;
      }),
    )

replied-Ended :
    (last : ℕ) (m : Mailbox) (rest : List Skb) (result : Option (List Skb))
    → Kept last m.queue result
    → after last m.queue ≡ some rest
    → Waits rest
    → Distinct rest
    → m.runq_work ≡ false
    → (m' : Mailbox) × (replied m last result ≡ some m') × Ended m m'
unfolding replied
replied-Ended last m rest none kept e waits distinct idle = absurd kept
replied-Ended last m rest (some queue') (same, len, ids) e waits distinct idle =
    let (m', is, ended) =
      finish_batch-Ended conclude last (record m { queue = queue' }) rest conclude-Concludes
        (same ∙ e) waits distinct idle in
    (
      m',
      is,
      (record {
        inv = ended.inv;
        kept = omega (arith, ended.kept, len);
        less = omega (arith, ended.less, len);
        moved =
            Moved-between queue' m.queue m.finished_skbs m'.queue m'.queue m'.finished_skbs ids
              (λ x h. h) ended.moved;
      }),
    )

pub end_batch-Ended :
    (bar : Option (ℕ → ℕ)) (caps : Caps) (last : ℕ) (m : Mailbox)
    → Batch last m.queue
    → Distinct m.queue
    → m.runq_work ≡ false
    → (m' : Mailbox) × (end_batch bar caps last m ≡ some m') × Ended m m'
unfolding end_batch copy_out mark_all_err
end_batch-Ended none caps last m b distinct idle =
    let (rest, e, waits) = Batch-after last m.queue b in
    finish_batch-Ended _ last m rest (conclude_err-Concludes _) e waits
      (after-Distinct last m.queue rest distinct e) idle
end_batch-Ended (some bar) caps last m b distinct idle =
    let (rest, e, waits) = Batch-after last m.queue b in
    replied-Ended last m rest _ (read_replies-Kept bar caps last m.queue) e waits
      (after-Distinct last m.queue rest distinct e) idle

-- A thread takes the mailbox.
pub run_queue-Inv :
    (caps : Caps) (s : System) (first : Skb) (queue : List Skb)
    → s.mbox.queue ≡ first ∷ queue
    → Distinct (first ∷ queue)
    → Waits queue
    → s.mbox.runq_work ≡ false
    → Inv (run_queue caps s)
unfolding run_queue
run_queue-Inv caps s first queue is distinct waits idle =
    let (b, d) = choose_batch-Batch caps first queue distinct waits in
    record { distinct = rw is d; owned = ((rw is b), idle) }
