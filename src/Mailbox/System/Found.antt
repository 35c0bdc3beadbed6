-- ===== src/Mailbox/System/Found.antt =====
-- A message that is found in the queue by its identifier (src/ccm_mbox.c), and taken out of it.
use mathlib.Core.Option.{some-ne-none}
use mathlib.Core.Bool.{false≢true}
use nfp_drv_kmods.Base.{
  ℕ, ◌≡◌, refl, sym, ap, ◌∙◌, inl, inr, Bool, true, false, ◌==◌, ==_iff, ◌⊎◌, Bool-cases, some,
  List, [], ◌∷◌,
}
use nfp_drv_kmods.Mailbox.{Skb, queued, busy, in_progress}
use nfp_drv_kmods.Mailbox.Queue.{is_first, unlink}
use nfp_drv_kmods.Mailbox.System.{Owner, nobody, posting, runner, first_id, find}
use nfp_drv_kmods.Mailbox.System.Batch.{
  Waits, Batch, find_first, find_later, unlink-Waits, unlink-Batch,
}
use nfp_drv_kmods.Mailbox.System.Invariant.{Owned}

pub is_first-cons :
    (queue : List Skb) (id : ℕ)
    → is_first queue id ≡ true
    → (skb : Skb) × (rest : List Skb) × (queue ≡ skb ∷ rest)
is_first-cons [] id e = absurd (false≢true e)
is_first-cons (skb ∷ rest) id e = (skb, rest, refl)

pub find-id : (id : ℕ) (queue : List Skb) (skb : Skb) → find id queue ≡ some skb → skb.id ≡ id
unfolding find
find-id id [] skb e = absurd (some-ne-none skb (sym e))
find-id id (first ∷ queue) skb e = elim (Bool-cases (first.id == id)) [
  | inl is ↦ ap (λ s. s.id) (sym (find_first id first skb queue is e)) ∙ (==_iff first.id id).0 is
  | inr other ↦ find-id id queue skb (find_later id first skb queue other e)
]

pub find-Waits :
    (id : ℕ) (queue : List Skb) (skb : Skb)
    → Waits queue
    → find id queue ≡ some skb
    → skb.state ≡ queued
unfolding find
find-Waits id [] skb waits e = absurd (some-ne-none skb (sym e))
find-Waits id (first ∷ queue) skb (w, waits) e = elim (Bool-cases (first.id == id)) [
  | inl is ↦ ap (λ s. s.state) (sym (find_first id first skb queue is e)) ∙ w
  | inr other ↦ find-Waits id queue skb waits (find_later id first skb queue other e)
]

pub find-Batch :
    (id last : ℕ) (queue : List Skb) (skb : Skb)
    → Batch last queue
    → is_first queue id ≡ false
    → find id queue ≡ some skb
    → (skb.state ≡ busy) ⊎ (skb.state ≡ queued)
unfolding find
find-Batch id last [] skb b other e = absurd b
find-Batch id last (first ∷ queue) skb (inl (is, waits)) other e =
    inr (find-Waits id queue skb waits (find_later id first skb queue other e))
find-Batch id last (first ∷ []) skb (inr (ne, is_busy, b)) other e = absurd b
find-Batch id last (first ∷ then ∷ queue) skb (inr (ne, is_busy, b)) other e =
    let later = find_later id first skb (then ∷ queue) other e in
    elim (Bool-cases (then.id == id)) [
      | inl is ↦ inl (ap (λ s. s.state) (sym (find_first id then skb queue is later)) ∙ is_busy)
      | inr other' ↦ find-Batch id last (then ∷ queue) skb b other' later
    ]

-- A message that is not the first is busy or waits: no other thread runs than the first one's.
pub find-Owned :
    (owner : Owner) (queue : List Skb) (is_queued : Bool) (id : ℕ) (skb : Skb)
    → Owned owner queue is_queued
    → is_first queue id ≡ false
    → find id queue ≡ some skb
    → (skb.state ≡ busy) ⊎ (skb.state ≡ queued)
unfolding find
find-Owned nobody [] is_queued id skb owned other e = absurd (some-ne-none skb (sym e))
find-Owned nobody (first ∷ queue) is_queued id skb (n, waits, w) other e =
    inr (find-Waits id queue skb waits (find_later id first skb queue other e))
find-Owned posting queue is_queued id skb (b, p, w) other e =
    find-Batch id (first_id queue) queue skb b other e
find-Owned (runner last) queue is_queued id skb (b, w) other e =
    find-Batch id last queue skb b other e

pub unlink-Owned :
    (owner : Owner) (queue : List Skb) (is_queued : Bool) (id : ℕ) (skb : Skb)
    → Owned owner queue is_queued
    → is_first queue id ≡ false
    → find id queue ≡ some skb
    → in_progress skb.state ≡ false
    → Owned owner (unlink id queue) is_queued
unfolding unlink
unlink-Owned nobody [] is_queued id skb owned other e idle = owned
unlink-Owned nobody (first ∷ queue) is_queued id skb (n, waits, w) other e idle =
    rw other (n, unlink-Waits id queue waits, w)
unlink-Owned posting [] is_queued id skb (b, p, w) other e idle = absurd b
unlink-Owned posting (first ∷ queue) is_queued id skb (inl (is, waits), p, w) other e idle =
    rw other (inl (refl, unlink-Waits id queue waits), p, w)
unlink-Owned posting (first ∷ queue) is_queued id skb (inr (ne, busy_next, b), p, w) other e idle =
    absurd (ne refl)
unlink-Owned (runner last) queue is_queued id skb (b, w) other e idle =
    (unlink-Batch id last skb queue other e idle b, w)
