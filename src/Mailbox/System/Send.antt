-- ===== src/Mailbox/System/Send.antt =====
-- A message that is sent or posted through the mailbox (src/ccm_mbox.c) keeps its invariant.
use mathlib.Core.Bool.{false≢true}
use nfp_drv_kmods.Base.{
  ℕ, ◌+◌, ◌≡◌, refl, sym, ◌∙◌, inl, inr, Bool, true, false, not, ◌&&◌, ==-yes, ==-no, Bool-cases,
  List, [], ◌∷◌, ◌++◌, length, Result, ok, err, u16, ltb,
}
use nfp_drv_kmods.Mailbox.{Skb, Caps, queued}
use nfp_drv_kmods.Mailbox.Queue.{
  Mailbox, is_first, mark_next_runner, with_hdr, msg_enqueue, max_qlen,
}
use nfp_drv_kmods.Mailbox.System.{
  Owner, nobody, posting, runner, System, on_enqueued, communicate, on_posted, post,
}
use nfp_drv_kmods.Mailbox.System.Batch.{
  Absent, Distinct, Waits, append-Distinct, append-Waits, append-Batch,
}
use nfp_drv_kmods.Mailbox.System.Invariant.{
  Owned, Inv, run_queue-Inv, mark_first-Idle, mark_first-Distinct,
}

append-Owned :
    (owner : Owner) (queue : List Skb) (is_queued : Bool) (skb : Skb)
    → Owned owner queue is_queued
    → is_first (queue ++ (skb ∷ [])) skb.id ≡ false
    → skb.state ≡ queued
    → Owned owner (queue ++ (skb ∷ [])) is_queued
append-Owned owner [] is_queued skb owned other e =
    absurd (false≢true (sym other ∙ ==-yes skb.id skb.id refl))
append-Owned nobody (first ∷ queue) is_queued skb (is_next, waits, w) other e =
    (is_next, append-Waits queue skb waits e, w)
append-Owned posting (first ∷ queue) is_queued skb (b, p, w) other e =
    (append-Batch first.id (first ∷ queue) skb b e, p, w)
append-Owned (runner last) (first ∷ queue) is_queued skb (b, w) other e =
    (append-Batch last (first ∷ queue) skb b e, w)

-- A message that becomes the first finds nobody there.
append-first :
    (owner : Owner) (queue : List Skb) (is_queued : Bool) (skb : Skb)
    → Owned owner queue is_queued
    → Absent skb.id queue
    → is_first (queue ++ (skb ∷ [])) skb.id ≡ true
    → (queue ≡ []) × (is_queued ≡ false) × (owner ≡ nobody)
append-first owner (first ∷ queue) is_queued skb owned (ne, absent) e =
    absurd (false≢true (sym (==-no first.id skb.id ne) ∙ e))
append-first nobody [] is_queued skb owned absent e = (refl, owned, refl)
append-first posting [] is_queued skb (b, p, w) absent e = absurd b
append-first (runner last) [] is_queued skb (b, w) absent e = absurd b

-- What a call leaves, if it has a result.
abbrev pub AllOk : Result System → Type 0
AllOk (err e) = Unit
AllOk (ok s) = Inv s

pub AllOk-Inv : (result : Result System) (s : System) → result ≡ ok s → AllOk result → Inv s
AllOk-Inv result s e = rw e (λ inv. inv)

appended : System → Skb → Mailbox
appended s skb = record s.mbox { queue = s.mbox.queue ++ (skb ∷ []); tag = u16 (s.mbox.tag + 1) }

append-Inv :
    (s : System) (skb : Skb)
    → Inv s
    → Absent skb.id s.mbox.queue
    → skb.state ≡ queued
    → is_first (s.mbox.queue ++ (skb ∷ [])) skb.id ≡ false
    → Inv (record s { mbox = appended s skb })
unfolding appended
append-Inv s skb inv absent e other = record {
  distinct = append-Distinct s.mbox.queue skb inv.distinct absent;
  owned = append-Owned s.owner s.mbox.queue s.mbox.runq_work skb inv.owned other e;
}

on_enqueued-Inv :
    (caps : Caps) (s : System) (skb : Skb)
    → Inv s
    → Absent skb.id s.mbox.queue
    → skb.state ≡ queued
    → AllOk (on_enqueued caps s skb.id (ok (appended s skb)))
unfolding on_enqueued appended
on_enqueued-Inv caps s skb inv absent e =
    elim (Bool-cases (is_first (s.mbox.queue ++ (skb ∷ [])) skb.id)) [
      | inr other ↦ rw other (append-Inv s skb inv absent e other)
      | inl first ↦
          let (empty, idle, free) =
            append-first s.owner s.mbox.queue s.mbox.runq_work skb inv.owned absent first in
          rw first (
            run_queue-Inv caps (record s { mbox = appended s skb }) skb [] (rw empty refl) (tt, tt)
              tt idle)
    ]

pub communicate-Inv :
    (caps : Caps) (s : System) (skb : Skb) (type : ℕ) (critical : Bool)
    → Inv s
    → Absent skb.id s.mbox.queue
    → skb.state ≡ queued
    → AllOk (communicate caps s skb type critical)
unfolding communicate msg_enqueue on_enqueued appended
communicate-Inv caps s skb type critical inv absent e =
    elim (Bool-cases (not critical && not (ltb (length s.mbox.queue) max_qlen))) [
      | inl full ↦ rw full tt
      | inr room ↦ rw room (on_enqueued-Inv caps s (with_hdr skb type s.mbox.tag) inv absent e)
    ]

posting-Inv :
    (m : Mailbox) (skb : Skb)
    → m.queue ≡ skb ∷ []
    → m.runq_work ≡ false
    → skb.posted ≡ true
    → Inv (record { mbox = m; owner = posting })
posting-Inv m skb is idle p = record {
  distinct = rw is (tt, tt);
  owned = rw is (inl (refl, tt), p, idle);
}

waiting-Inv :
    (m : Mailbox) (owner : Owner) (queue : List Skb)
    → m.queue ≡ queue
    → Distinct queue
    → Waits queue
    → m.runq_work ≡ false
    → owner ≡ nobody
    → Inv (record { mbox = mark_next_runner m; owner = owner })
unfolding mark_next_runner
waiting-Inv m owner queue is distinct waits idle free = record {
  distinct = rw is (mark_first-Distinct queue distinct);
  owned = rw (free, is) (mark_first-Idle queue m.runq_work waits idle);
}

on_posted-Inv :
    (s : System) (skb : Skb) (free : Bool)
    → Inv s
    → Absent skb.id s.mbox.queue
    → skb.state ≡ queued
    → skb.posted ≡ true
    → AllOk (on_posted s skb.id free (ok (appended s skb)))
unfolding on_posted appended mark_next_runner
on_posted-Inv s skb free inv absent e p =
    elim (Bool-cases (is_first (s.mbox.queue ++ (skb ∷ [])) skb.id)) [
      | inr other ↦ rw other (append-Inv s skb inv absent e other)
      | inl first ↦
          let (empty, idle, nobody_owns) =
            append-first s.owner s.mbox.queue s.mbox.runq_work skb inv.owned absent first in
          let one : (appended s skb).queue ≡ skb ∷ [] = rw empty refl in
          rw first (elim (Bool-cases free) [
            | inl got ↦ rw got (posting-Inv (appended s skb) skb one idle p)
            | inr not_got ↦ rw not_got (
                waiting-Inv (appended s skb) s.owner (skb ∷ []) one (tt, tt) (e, tt) idle
                  nobody_owns)
          ])
    ]

pub post-Inv :
    (s : System) (skb : Skb) (type : ℕ) (free : Bool)
    → Inv s
    → Absent skb.id s.mbox.queue
    → skb.state ≡ queued
    → AllOk (post s skb type free)
unfolding post msg_enqueue on_posted appended
post-Inv s skb type free inv absent e =
    let posted_skb = record skb { posted = true } in
    elim (Bool-cases (not (ltb (length s.mbox.queue) max_qlen))) [
      | inl full ↦ rw full tt
      | inr room ↦
          rw room (on_posted-Inv s (with_hdr posted_skb type s.mbox.tag) free inv absent e refl)
    ]
