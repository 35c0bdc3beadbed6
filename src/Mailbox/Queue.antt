-- ===== src/Mailbox/Queue.antt =====
-- The queue of the mailbox and the operations under its lock (src/ccm_mbox.c).
use nfp_drv_kmods.Base.{
  ℕ, ◌+◌, ◌*◌, ◌%◌, ◌^◌, Bool, false, not, ◌&&◌, ◌||◌, ◌==◌, ltb, if◌then◌else◌, Option, none, some,
  List, [], ◌∷◌, ◌++◌, length, Errno, enoent, ebusy, Result, ok, err, u16, update,
}
use nfp_drv_kmods.Mailbox.{
  Skb, Caps, CmsgState, next, busy, finished, is_found, should_run, simple_val,
}

-- The queue, the next tag, whether the work of the posted messages is queued, and the messages that
-- are done, the last one first. They stay with the threads that sent them, and a posted one is
-- freed.
pub record Mailbox : Type 0 where
  pub queue : List Skb
  pub tag : ℕ
  pub runq_work : Bool
  pub finished_skbs : List Skb

abbrev pub set_state : CmsgState → Skb → Skb
set_state s skb = record skb { state = s }

-- `nfp_ccm_mbox_is_first`.
abbrev pub is_first : List Skb → ℕ → Bool
is_first [] id = false
is_first (skb ∷ queue) id = skb.id == id

-- `nfp_ccm_mbox_mark_next_runner`.
abbrev pub mark_first : List Skb → List Skb
mark_first [] = []
mark_first (skb ∷ queue) = set_state next skb ∷ queue

abbrev pub first_posted : List Skb → Bool
first_posted [] = false
first_posted (skb ∷ queue) = skb.posted

unfoldable pub mark_next_runner : Mailbox → Mailbox
mark_next_runner m = record m {
  queue = mark_first m.queue;
  runq_work = m.runq_work || first_posted m.queue;
}

-- NFP_CCM_MBOX_BATCH_LIMIT and NFP_CCM_MAX_QLEN.
abbrev pub batch_limit : ℕ
batch_limit = 64

abbrev pub max_qlen : ℕ
max_qlen = 1024

-- The loop of `nfp_ccm_mbox_run_queue_unlock` behind `last`: the queue from there on, with the
-- messages that join the batch marked, and the identifier of the last of these. The source counts
-- the free space down to below 0; `used` is what it has taken off `total`.
unfoldable pub extend_batch : ℕ → ℕ → ℕ → ℕ → List Skb → List Skb × ℕ
extend_batch total used cnt last [] = ([], last)
extend_batch total used cnt last (skb ∷ queue) =
    let used' = used + (4 + skb.max_len) in
    let (more, last') = extend_batch total used' (cnt + 1) skb.id queue in
    if ltb total used'
    then (skb ∷ queue, last)
    else if cnt + 1 == batch_limit
    then (set_state busy skb ∷ queue, skb.id)
    else (set_state busy skb ∷ more, last')

-- The batch is chosen; the queue is not empty there. With `last`.
unfoldable pub choose_batch : Caps → List Skb → List Skb × ℕ
unfolding extend_batch
choose_batch caps [] = ([], 0)
choose_batch caps (skb ∷ queue) =
    let (more, last) =
      extend_batch caps.mbox_len (simple_val + 4 + (4 + skb.max_len)) 1 skb.id queue in
    (skb ∷ more, last)

-- A message that leaves the queue in `nfp_ccm_mbox_copy_out`.
unfoldable pub conclude : Skb → Skb
conclude skb = record skb {
  state = finished;
  failure = if is_found skb.state then skb.failure else some enoent;
}

-- A message that leaves it in `nfp_ccm_mbox_mark_all_err`.
unfoldable pub conclude_err : Errno → Skb → Skb
conclude_err e skb = record skb { state = finished; failure = some e }

-- The messages up to `last` leave the queue for the list of those done. The result is none where
-- `last` is not in it, and the source takes from an empty queue.
unfoldable pub dequeue_until : ℕ → (Skb → Skb) → List Skb → List Skb → Option (List Skb × List Skb)
dequeue_until last f [] skbs = none
dequeue_until last f (skb ∷ queue) skbs =
    let rest = dequeue_until last f queue (f skb ∷ skbs) in
    if skb.id == last then some (queue, f skb ∷ skbs) else rest

abbrev pub dequeued : Mailbox → Option (List Skb × List Skb) → Option Mailbox
dequeued m none = none
dequeued m (some (queue, skbs)) =
    some (mark_next_runner (record m { queue = queue; finished_skbs = skbs }))

-- The locked part of `nfp_ccm_mbox_copy_out` and of `nfp_ccm_mbox_mark_all_err`.
unfoldable pub finish_batch : (Skb → Skb) → ℕ → Mailbox → Option Mailbox
unfolding dequeue_until mark_next_runner
finish_batch f last m = dequeued m (dequeue_until last f m.queue m.finished_skbs)

unfoldable pub mark_all_err : Mailbox → ℕ → Errno → Option Mailbox
unfolding finish_batch conclude_err
mark_all_err m last e = finish_batch (conclude_err e) last m

-- `__skb_unlink`.
unfoldable pub unlink : ℕ → List Skb → List Skb
unlink id [] = []
unlink id (skb ∷ queue) = if skb.id == id then queue else skb ∷ unlink id queue

-- The rest of `nfp_ccm_mbox_unlink_unlock` for a message that is not in progress.
unfoldable pub give_up : Mailbox → Skb → Mailbox
unfolding unlink mark_next_runner
give_up m skb =
    let m' = record m { queue = unlink skb.id m.queue } in
    if should_run skb.state then mark_next_runner m' else m'

-- The header of a request: the type, the version 1 and the tag.
abbrev pub with_hdr : Skb → ℕ → ℕ → Skb
with_hdr skb type tag = record skb {
  words = update skb.words 0 (type % 2 ^ 8 * 2 ^ 24 + 1 * 2 ^ 16 + tag);
}

-- `nfp_ccm_mbox_msg_enqueue`.
unfoldable pub msg_enqueue : Mailbox → Skb → ℕ → Bool → Result Mailbox
msg_enqueue m skb type critical =
    if not critical && not (ltb (length m.queue) max_qlen)
    then err ebusy
    else ok (record m { queue = m.queue ++ (with_hdr skb type m.tag ∷ []); tag = u16 (m.tag + 1) })
