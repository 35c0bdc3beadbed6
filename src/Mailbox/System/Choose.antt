-- ===== src/Mailbox/System/Choose.antt =====
-- The batch that `nfp_ccm_mbox_run_queue_unlock` (src/ccm_mbox.c) chooses.
use nfp_drv_kmods.Base.{ℕ, ◌+◌, ◌≢◌, refl, sym, inl, inr, ◌==◌, ltb, Bool-cases, List, [], ◌∷◌}
use nfp_drv_kmods.Mailbox.{Skb, Caps, simple_val, busy}
use nfp_drv_kmods.Mailbox.Queue.{choose_batch, set_state, batch_limit, extend_batch}
use nfp_drv_kmods.Mailbox.System.Batch.{Absent, Distinct, Waits, Batch}

pub extend_batch-Absent :
    (total used cnt last x : ℕ) (queue : List Skb)
    → Absent x queue
    → Absent x (extend_batch total used cnt last queue).0
unfolding extend_batch
extend_batch-Absent total used cnt last x [] absent = tt
extend_batch-Absent total used cnt last x (skb ∷ queue) (ne, absent) =
    elim (Bool-cases (ltb total (used + (4 + skb.max_len)))) [
      | inl e ↦ rw e (ne, absent)
      | inr e ↦ rw e (elim (Bool-cases (cnt + 1 == batch_limit)) [
        | inl e' ↦ rw e' (ne, absent)
        | inr e' ↦ rw e' (
          ne,
          extend_batch-Absent total (used + (4 + skb.max_len)) (cnt + 1) skb.id x queue absent,
        )
      ])
    ]

pub extend_batch-Distinct :
    (total used cnt last : ℕ) (queue : List Skb)
    → Distinct queue
    → Distinct (extend_batch total used cnt last queue).0
unfolding extend_batch
extend_batch-Distinct total used cnt last [] distinct = tt
extend_batch-Distinct total used cnt last (skb ∷ queue) (absent, distinct) =
    let used' = used + (4 + skb.max_len) in
    elim (Bool-cases (ltb total (used + (4 + skb.max_len)))) [
      | inl e ↦ rw e (absent, distinct)
      | inr e ↦ rw e (elim (Bool-cases (cnt + 1 == batch_limit)) [
        | inl e' ↦ rw e' (absent, distinct)
        | inr e' ↦ rw e' (
          extend_batch-Absent total used' (cnt + 1) skb.id skb.id queue absent,
          extend_batch-Distinct total used' (cnt + 1) skb.id queue distinct,
        )
      ])
    ]

-- The last message of the batch is its first or one that is behind it.
extend_batch-other :
    (total used cnt last x : ℕ) (queue : List Skb)
    → last ≢ x
    → Absent x queue
    → (extend_batch total used cnt last queue).1 ≢ x
unfolding extend_batch
extend_batch-other total used cnt last x [] ne absent = ne
extend_batch-other total used cnt last x (skb ∷ queue) ne (other, absent) =
    elim (Bool-cases (ltb total (used + (4 + skb.max_len)))) [
      | inl e ↦ rw e ne
      | inr e ↦ rw e (elim (Bool-cases (cnt + 1 == batch_limit)) [
        | inl e' ↦ rw e' other
        | inr e' ↦ rw e' (
            extend_batch-other total (used + (4 + skb.max_len)) (cnt + 1) skb.id x queue other
              absent)
      ])
    ]

-- A first message with the batch that is chosen behind it.
unfoldable pub Chosen : Skb → List Skb × ℕ → Type 0
Chosen first chosen = Batch chosen.1 (first ∷ chosen.0)

Batch-Chosen :
    (first : Skb) (queue : List Skb) (last : ℕ)
    → Batch last (first ∷ queue)
    → Chosen first (queue, last)
unfolding Chosen
Batch-Chosen first queue last b = b

Chosen-Batch :
    (first : Skb) (chosen : List Skb × ℕ) → Chosen first chosen → Batch chosen.1 (first ∷ chosen.0)
unfolding Chosen
Chosen-Batch first chosen b = b

pub extend_batch-Batch :
    (total used cnt : ℕ) (first : Skb) (queue : List Skb)
    → Absent first.id queue
    → Distinct queue
    → Waits queue
    → Chosen first (extend_batch total used cnt first.id queue)
unfolding extend_batch
extend_batch-Batch total used cnt first [] absent distinct waits =
    Batch-Chosen first [] first.id (inl (refl, tt))
extend_batch-Batch total used cnt first (skb ∷ queue) (ne, absent) (absent', distinct) (w, waits) =
    let used' = used + (4 + skb.max_len) in
    let other : first.id ≢ skb.id = λ e. ne (sym e) in
    let more = extend_batch total used' (cnt + 1) skb.id queue in
    let rest =
      extend_batch-Batch total used' (cnt + 1) (set_state busy skb) queue absent' distinct waits in
    let far : more.1 ≢ first.id =
      extend_batch-other total used' (cnt + 1) skb.id first.id queue ne absent in
    elim (Bool-cases (ltb total (used + (4 + skb.max_len)))) [
      | inl e ↦ rw e (Batch-Chosen first (skb ∷ queue) first.id (inl (refl, (w, waits))))
      | inr e ↦ rw e (elim (Bool-cases (cnt + 1 == batch_limit)) [
        | inl e' ↦ rw e' (
            Batch-Chosen first (set_state busy skb ∷ queue) skb.id
              (inr (other, refl, inl (refl, waits))))
        | inr e' ↦ rw e' (
            Batch-Chosen first (set_state busy skb ∷ more.0) more.1
              (inr ((λ e. far (sym e)), refl, Chosen-Batch (set_state busy skb) more rest)))
      ])
    ]

-- The choice for a queue that is not empty, whose messages behind the first wait.
pub choose_batch-Batch :
    (caps : Caps) (first : Skb) (queue : List Skb)
    → Distinct (first ∷ queue)
    → Waits queue
    → Batch (choose_batch caps (first ∷ queue)).1 (choose_batch caps (first ∷ queue)).0
      × Distinct (choose_batch caps (first ∷ queue)).0
unfolding choose_batch
choose_batch-Batch caps first queue (absent, distinct) waits =
    let used = simple_val + 4 + (4 + first.max_len) in
    (
      Chosen-Batch first _
          (extend_batch-Batch caps.mbox_len used 1 first queue absent distinct waits),
      (
        extend_batch-Absent caps.mbox_len used 1 first.id first.id queue absent,
        extend_batch-Distinct caps.mbox_len used 1 first.id queue distinct,
      ),
    )
