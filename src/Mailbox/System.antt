-- ===== src/Mailbox/System.antt =====
-- The threads that use the mailbox (src/ccm_mbox.c): `__nfp_ccm_mbox_communicate`,
-- `nfp_ccm_mbox_post` and the two works, each part of them that holds the lock of the queue a step.
pub mod Batch
pub mod Done
pub mod Choose
pub mod Finish
pub mod Invariant
pub mod Send
pub mod Found
pub mod Reach
pub mod Quiet
pub mod Drain
use nfp_drv_kmods.Base.{
  ℕ, ◌≡◌, Bool, true, false, not, ◌&&◌, ◌||◌, ◌==◌, if◌then◌else◌, Option, none, some, List, [],
  ◌∷◌, Errno, eio, Result, ok, err,
}
use nfp_drv_kmods.Mailbox.{Skb, Caps, queued, in_progress, should_run}
use nfp_drv_kmods.Mailbox.CopyOut.{read_replies}
use nfp_drv_kmods.Mailbox.Queue.{
  Mailbox, is_first, first_posted, mark_next_runner, choose_batch, conclude, finish_batch,
  mark_all_err, give_up, msg_enqueue,
}

-- Who owns the mailbox: nobody, a runner with the last message of its batch, or the work of a posted
-- message, which is the first in the queue.
pub data Owner : Type 0 where
  nobody posting : Owner
  runner : ℕ → Owner

pub record System : Type 0 where
  pub mbox : Mailbox
  pub owner : Owner

abbrev pub first_id : List Skb → ℕ
first_id [] = 0
first_id (skb ∷ queue) = skb.id

abbrev pub first_runs : List Skb → Bool
first_runs [] = false
first_runs (skb ∷ queue) = skb.posted && should_run skb.state

-- `nfp_ccm_mbox_run_queue_unlock` up to the release of the lock.
unfoldable pub run_queue : Caps → System → System
unfolding choose_batch
run_queue caps s =
    let (queue, last) = choose_batch caps s.mbox.queue in
    record { mbox = record s.mbox { queue = queue }; owner = runner last }

-- `nfp_ccm_mbox_copy_out`, from what the mailbox holds.
unfoldable pub replied : Mailbox → ℕ → Option (List Skb) → Option Mailbox
unfolding finish_batch conclude
replied m last none = none
replied m last (some queue) = finish_batch conclude last (record m { queue = queue })

unfoldable pub copy_out : (ℕ → ℕ) → Caps → ℕ → Mailbox → Option Mailbox
unfolding replied
copy_out bar caps last m = replied m last (read_replies bar caps last m.queue)

-- The end of a batch: `nfp_net_mbox_reconfig` or its posted form succeeded, and `bar` gives the
-- words of the BAR, or it failed.
unfoldable pub end_batch : Option (ℕ → ℕ) → Caps → ℕ → Mailbox → Option Mailbox
unfolding copy_out mark_all_err
end_batch (some bar) caps last m = copy_out bar caps last m
end_batch none caps last m = mark_all_err m last eio

abbrev pub last_of : System → Option ℕ
last_of s = elim s.owner [
  | nobody ↦ none
  | posting ↦ some (first_id s.mbox.queue)
  | runner last ↦ some last
]

-- `__nfp_ccm_mbox_communicate` up to the wait or the run, for a message that is prepared.
unfoldable pub on_enqueued : Caps → System → ℕ → Result Mailbox → Result System
unfolding run_queue
on_enqueued caps s id (err e) = err e
on_enqueued caps s id (ok m) =
    let s' = record s { mbox = m } in if is_first m.queue id then ok (run_queue caps s') else ok s'

unfoldable pub communicate : Caps → System → Skb → ℕ → Bool → Result System
unfolding on_enqueued msg_enqueue
communicate caps s skb type critical =
    on_enqueued caps s skb.id (msg_enqueue s.mbox skb type critical)

-- `nfp_ccm_mbox_post` for a message that is prepared. `free` says whether the lock of the control
-- BAR is got.
unfoldable pub on_posted : System → ℕ → Bool → Result Mailbox → Result System
unfolding mark_next_runner
on_posted s id free (err e) = err e
on_posted s id free (ok m) =
    if is_first m.queue id
    then (if free
        then ok (record { mbox = m; owner = posting })
        else ok (record s { mbox = mark_next_runner m }))
    else ok (record s { mbox = m })

unfoldable pub post : System → Skb → ℕ → Bool → Result System
unfolding on_posted msg_enqueue
post s skb type free =
    on_posted s skb.id free (msg_enqueue s.mbox (record skb { posted = true }) type false)

-- `__nfp_ccm_mbox_communicate` behind the wait, for a message that is not done.
unfoldable pub on_wake : Caps → System → Skb → System
unfolding run_queue give_up
on_wake caps s skb =
    if is_first s.mbox.queue skb.id
    then run_queue caps s
    else if in_progress skb.state
    then s
    else record s { mbox = give_up s.mbox skb }

-- `nfp_ccm_mbox_post_runq_work`.
unfoldable pub post_runq_work : Caps → System → System
unfolding run_queue
post_runq_work caps s =
    let s' = record s { mbox = record s.mbox { runq_work = false } } in
    if first_runs s.mbox.queue then run_queue caps s' else s'

-- The message with an identifier.
unfoldable pub find : ℕ → List Skb → Option Skb
find id [] = none
find id (skb ∷ queue) = let rest = find id queue in if skb.id == id then some skb else rest

-- Whether the thread of a message runs the queue, and waits no more.
abbrev pub is_running : System → ℕ → Bool
is_running s id = elim s.owner [
  | nobody ↦ false
  | posting ↦ false
  | runner last ↦ is_first s.mbox.queue id
]

-- A message is sent or posted, and is in no queue before; a thread wakes that waits for its message
-- and does not run; the work runs that is queued; and the batch of the owner ends.
pub data Step (caps : Caps) : System → System → Type 0 where
  send :
      (s t : System) (skb : Skb) (type : ℕ) (critical : Bool)
      → find skb.id s.mbox.queue ≡ none
      → skb.state ≡ queued
      → skb.posted ≡ false
      → communicate caps s skb type critical ≡ ok t
      → Step caps s t
  send_posted :
      (s t : System) (skb : Skb) (type : ℕ) (free : Bool)
      → find skb.id s.mbox.queue ≡ none
      → skb.state ≡ queued
      → post s skb type free ≡ ok t
      → Step caps s t
  wake :
      (s : System) (id : ℕ) (skb : Skb)
      → find id s.mbox.queue ≡ some skb
      → skb.posted ≡ false
      → is_running s id ≡ false
      → Step caps s (on_wake caps s skb)
  work : (s : System) → s.mbox.runq_work ≡ true → Step caps s (post_runq_work caps s)
  end :
      (s : System) (last : ℕ) (bar : Option (ℕ → ℕ)) (m : Mailbox)
      → last_of s ≡ some last
      → end_batch bar caps last s.mbox ≡ some m
      → Step caps s (record { mbox = m; owner = nobody })

pub data Reaches (caps : Caps) : System → System → Type 0 where
  here : (s : System) → Reaches caps s s
  then_step : {s t u : System} → Reaches caps s t → Step caps t u → Reaches caps s u

-- `nfp_ccm_mbox_alloc`.
abbrev pub start : System
start = record {
  mbox = record { queue = []; tag = 0; runq_work = false; finished_skbs = [] };
  owner = nobody;
}
