-- ===== src/Mailbox/System/Reach.antt =====
-- From a mailbox that is empty (src/ccm_mbox.c) only states with the invariant are reached.
use mathlib.Core.Option.{some-injective, some-ne-none}
use mathlib.Core.Path.{subst}
use mathlib.Core.Bool.{false≢true}
use nfp_drv_kmods.Base.{
  ℕ, ◌≡◌, refl, sym, ap, ◌∙◌, inl, inr, Bool, true, false, ◌⊎◌, Bool-cases, Option, none, some,
  List, [], ◌∷◌,
}
use nfp_drv_kmods.Mailbox.{Skb, Caps, queued, busy, in_progress}
use nfp_drv_kmods.Mailbox.Queue.{Mailbox, is_first, give_up}
use nfp_drv_kmods.Mailbox.System.{
  Owner, nobody, posting, runner, System, first_id, first_runs, run_queue, end_batch, last_of,
  on_wake, post_runq_work, find, is_running, Step, send, send_posted, wake, work, end, Reaches,
  here, then_step,
}
use nfp_drv_kmods.Mailbox.System.Batch.{Distinct, Batch, find-Absent, find_first, unlink-Distinct}
use nfp_drv_kmods.Mailbox.System.Invariant.{Idle, Owned, Inv, run_queue-Inv, end_batch-Ended}
use nfp_drv_kmods.Mailbox.System.Send.{communicate-Inv, post-Inv, AllOk-Inv}
use nfp_drv_kmods.Mailbox.System.Found.{is_first-cons, find-id, find-Owned, unlink-Owned}

-- The first message of a mailbox that nobody owns runs.
nobody-run :
    (caps : Caps) (s : System)
    → Distinct s.mbox.queue
    → Idle s.mbox.queue s.mbox.runq_work
    → (first : Skb) (queue : List Skb) → s.mbox.queue ≡ first ∷ queue
    → s.mbox.runq_work ≡ false
    → Inv (run_queue caps s)
nobody-run caps s distinct idle first queue is w =
    let d : Distinct (first ∷ queue) = subst (λ q. Distinct q) is distinct in
    let i : Idle (first ∷ queue) s.mbox.runq_work = subst (λ q. Idle q s.mbox.runq_work) is idle in
    run_queue-Inv caps s first queue is d i.1 w

-- A thread that finds its message the first: nobody owns the mailbox, and no work is queued.
first-Idle :
    (owner : Owner) (queue : List Skb) (is_queued : Bool) (id : ℕ) (skb : Skb)
    → Owned owner queue is_queued
    → find id queue ≡ some skb
    → skb.posted ≡ false
    → is_first queue id ≡ true
    → (elim owner [ nobody ↦ false | posting ↦ false | runner last ↦ is_first queue id ]) ≡ false
    → Idle queue is_queued × (is_queued ≡ false)
first-Idle owner [] is_queued id skb owned e p first free = absurd (false≢true first)
first-Idle nobody (first ∷ queue) is_queued id skb (n, waits, w) e p is free =
    ((n, waits, w), w ∙ ap (λ s. s.posted) (find_first id first skb queue is e) ∙ p)
first-Idle posting (first ∷ queue) is_queued id skb (b, is_posted, w) e p is free =
    absurd (
      false≢true
        (sym p ∙ ap (λ s. s.posted) (sym (find_first id first skb queue is e)) ∙ is_posted))
first-Idle (runner last) (first ∷ queue) is_queued id skb owned e p is free =
    absurd (false≢true (sym free ∙ is))

not_busy :
    (skb : Skb)
    → in_progress skb.state ≡ false
    → (skb.state ≡ busy) ⊎ (skb.state ≡ queued)
    → skb.state ≡ queued
not_busy skb idle (inl is_busy) = absurd (false≢true (sym idle ∙ ap in_progress is_busy))
not_busy skb idle (inr waits) = waits

give_up-Inv :
    (s : System) (id : ℕ) (skb : Skb)
    → Inv s
    → find id s.mbox.queue ≡ some skb
    → is_first s.mbox.queue id ≡ false
    → in_progress skb.state ≡ false
    → skb.state ≡ queued
    → Inv (record s { mbox = give_up s.mbox skb })
unfolding give_up
give_up-Inv s id skb inv e other idle waits =
    rw (waits, find-id id s.mbox.queue skb e)
      (record {
        distinct = unlink-Distinct id s.mbox.queue inv.distinct;
        owned = unlink-Owned s.owner s.mbox.queue s.mbox.runq_work id skb inv.owned other e idle;
      })

pub wake-Inv :
    (caps : Caps) (s : System) (id : ℕ) (skb : Skb)
    → Inv s
    → find id s.mbox.queue ≡ some skb
    → skb.posted ≡ false
    → is_running s id ≡ false
    → Inv (on_wake caps s skb)
unfolding on_wake
wake-Inv caps s id skb inv e p free =
    let same = find-id id s.mbox.queue skb e in
    let first_as : (b : Bool) → is_first s.mbox.queue skb.id ≡ b → is_first s.mbox.queue id ≡ b =
      λ b is. subst (λ x. is_first s.mbox.queue x ≡ b) same is in
    elim (Bool-cases (is_first s.mbox.queue skb.id)) [
      | inl first ↦
          let is_id = first_as true first in
          let (rest, queue, is) = is_first-cons s.mbox.queue id is_id in
          let (idle, w) =
            first-Idle s.owner s.mbox.queue s.mbox.runq_work id skb inv.owned e p is_id free in
          rw first (nobody-run caps s inv.distinct idle rest queue is w)
      | inr other ↦
          let not_id = first_as false other in
          rw other (elim (Bool-cases (in_progress skb.state)) [
            | inl busy_one ↦ rw busy_one inv
            | inr idle ↦
                let waits =
                  find-Owned s.owner s.mbox.queue s.mbox.runq_work id skb inv.owned not_id e in
                rw idle (give_up-Inv s id skb inv e not_id idle (not_busy skb idle waits))
          ])
    ]

pub first_runs-Owned :
    (owner : Owner) (queue : List Skb) (is_queued : Bool)
    → Owned owner queue is_queued
    → is_queued ≡ true
    → (first_runs queue ≡ true) × (owner ≡ nobody)
first_runs-Owned nobody [] is_queued e w = absurd (false≢true (sym e ∙ w))
first_runs-Owned nobody (skb ∷ queue) is_queued (n, waits, e) w = (rw (n, sym e ∙ w) refl, refl)
first_runs-Owned posting queue is_queued (b, p, e) w = absurd (false≢true (sym e ∙ w))
first_runs-Owned (runner last) queue is_queued (b, e) w = absurd (false≢true (sym e ∙ w))

first_runs-cons :
    (queue : List Skb)
    → first_runs queue ≡ true
    → (skb : Skb) × (rest : List Skb) × (queue ≡ skb ∷ rest)
first_runs-cons [] e = absurd (false≢true e)
first_runs-cons (skb ∷ rest) e = (skb, rest, refl)

pub work-Inv :
    (caps : Caps) (s : System) → Inv s → s.mbox.runq_work ≡ true → Inv (post_runq_work caps s)
unfolding post_runq_work
work-Inv caps s inv w =
    let (runs, free) = first_runs-Owned s.owner s.mbox.queue s.mbox.runq_work inv.owned w in
    let (skb, rest, is) = first_runs-cons s.mbox.queue runs in
    let d : Distinct (skb ∷ rest) = subst (λ q. Distinct q) is inv.distinct in
    let i : Owned nobody (skb ∷ rest) s.mbox.runq_work =
      subst (λ o. Owned o (skb ∷ rest) s.mbox.runq_work) free
        (subst (λ q. Owned s.owner q s.mbox.runq_work) is inv.owned) in
    rw runs (
      run_queue-Inv caps (record s { mbox = record s.mbox { runq_work = false } }) skb rest is d i.1
        refl)

-- The owner's batch is in the queue.
pub last_of-Batch :
    (owner : Owner) (queue : List Skb) (is_queued : Bool) (last : ℕ)
    → Owned owner queue is_queued
    → (elim owner [ nobody ↦ none | posting ↦ some (first_id queue) | runner l ↦ some l ])
      ≡ some last
    → Batch last queue × (is_queued ≡ false)
last_of-Batch nobody queue is_queued last owned e = absurd (some-ne-none last (sym e))
last_of-Batch posting queue is_queued last (b, p, w) e =
    (subst (λ l. Batch l queue) (some-injective (first_id queue) last e) b, w)
last_of-Batch (runner l) queue is_queued last (b, w) e =
    (subst (λ l. Batch l queue) (some-injective l last e) b, w)

pub end-Inv :
    (caps : Caps) (s : System) (last : ℕ) (bar : Option (ℕ → ℕ)) (m : Mailbox)
    → Inv s
    → last_of s ≡ some last
    → end_batch bar caps last s.mbox ≡ some m
    → Inv (record { mbox = m; owner = nobody })
end-Inv caps s last bar m inv is e =
    let (b, idle) = last_of-Batch s.owner s.mbox.queue s.mbox.runq_work last inv.owned is in
    let (m', is', ended) = end_batch-Ended bar caps last s.mbox b inv.distinct idle in
    let same : m' ≡ m = some-injective m' m (sym is' ∙ e) in
    subst (λ m. Inv (record { mbox = m; owner = nobody })) same ended.inv

pub step-Inv : (caps : Caps) (s t : System) → Step caps s t → Inv s → Inv t
step-Inv caps s t (send _ _ skb type critical fresh e p is) inv =
    AllOk-Inv _ t is
      (communicate-Inv caps s skb type critical inv (find-Absent skb.id s.mbox.queue fresh) e)
step-Inv caps s t (send_posted _ _ skb type free fresh e is) inv =
    AllOk-Inv _ t is (post-Inv s skb type free inv (find-Absent skb.id s.mbox.queue fresh) e)
step-Inv caps s _ (wake _ id skb e p free) inv = wake-Inv caps s id skb inv e p free
step-Inv caps s _ (work _ w) inv = work-Inv caps s inv w
step-Inv caps s _ (end _ last bar m is e) inv = end-Inv caps s last bar m inv is e

-- Whatever the threads send, post, wait and run, and whatever the mailbox answers: of the messages
-- in the queue no two are the same; while a batch is in the mailbox, its messages but the first
-- are busy, all behind it wait, and no work is queued; and while nobody owns the mailbox, the first
-- message of the queue is to run, the others wait, and the work is queued if and only if the first
-- message is posted. The identifier of a message that is sent is in no queue.
pub Reaches-Inv : (caps : Caps) (s t : System) → Reaches caps s t → Inv s → Inv t
Reaches-Inv caps s t (here _) inv = inv
Reaches-Inv caps s t (then_step {t = u} steps step) inv =
    step-Inv caps u t step (Reaches-Inv caps s u steps inv)
