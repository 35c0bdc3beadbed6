-- ===== src/Mailbox/System/Batch.antt =====
-- The shape of the queue (src/ccm_mbox.c): behind a batch, messages that only wait; and how the
-- operations on the queue keep it.
use nfp_drv_kmods.Base.{
  ℕ, ◌≡◌, ◌≢◌, sym, ◌∙◌, ◌⊎◌, inl, inr, true, false, ◌==◌, Bool-cases, none, some, List, [], ◌∷◌,
  ◌++◌, ap, differ,
}
use mathlib.Core.Bool.{false≢true}
use mathlib.Core.Option.{some-injective, some-ne-none}
use nfp_drv_kmods.Mailbox.{Skb, queued, busy, in_progress}
use nfp_drv_kmods.Mailbox.Queue.{is_first, unlink}
use nfp_drv_kmods.Mailbox.System.{find}

-- No message of the queue has the identifier; no two have the same.
abbrev pub Absent : ℕ → List Skb → Type 0
Absent id [] = Unit
Absent id (skb ∷ queue) = (skb.id ≢ id) × Absent id queue

abbrev pub Distinct : List Skb → Type 0
Distinct [] = Unit
Distinct (skb ∷ queue) = Absent skb.id queue × Distinct queue

-- Every message waits to be taken into a batch.
abbrev pub Waits : List Skb → Type 0
Waits [] = Unit
Waits (skb ∷ queue) = (skb.state ≡ queued) × Waits queue

abbrev pub BusyFirst : List Skb → Type 0
BusyFirst [] = Unit
BusyFirst (skb ∷ queue) = skb.state ≡ busy

-- A batch that ends with `last`: the messages in it behind the first are busy, and those behind it
-- wait.
abbrev pub Batch : ℕ → List Skb → Type 0
Batch last [] = ⊥
Batch last (skb ∷ queue) =
    ((skb.id ≡ last) × Waits queue) ⊎ ((skb.id ≢ last) × BusyFirst queue × Batch last queue)

abbrev one : Skb → List Skb
one skb = skb ∷ []

pub find-Absent : (id : ℕ) (queue : List Skb) → find id queue ≡ none → Absent id queue
unfolding find
find-Absent id [] e = tt
find-Absent id (skb ∷ queue) e = elim (Bool-cases (skb.id == id)) [
  | inl is ↦
      let k : find id (skb ∷ queue) ≡ none → some skb ≡ none = rw is (λ f. f) in
      absurd (some-ne-none skb (k e))
  | inr other ↦
      let k : find id (skb ∷ queue) ≡ none → find id queue ≡ none = rw other (λ f. f) in
      (differ skb.id id other, find-Absent id queue (k e))
]

pub find_first :
    (id : ℕ) (first skb : Skb) (queue : List Skb)
    → (first.id == id) ≡ true
    → find id (first ∷ queue) ≡ some skb
    → first ≡ skb
unfolding find
find_first id first skb queue is = rw is (λ f. some-injective first skb f)

pub find_later :
    (id : ℕ) (first skb : Skb) (queue : List Skb)
    → (first.id == id) ≡ false
    → find id (first ∷ queue) ≡ some skb
    → find id queue ≡ some skb
unfolding find
find_later id first skb queue other = rw other (λ f. f)

pub append-Absent :
    (id : ℕ) (queue : List Skb) (skb : Skb)
    → Absent id queue
    → skb.id ≢ id
    → Absent id (queue ++ one skb)
append-Absent id [] skb absent other = (other, tt)
append-Absent id (first ∷ queue) skb (other, absent) ne =
    (other, append-Absent id queue skb absent ne)

pub append-Distinct :
    (queue : List Skb) (skb : Skb)
    → Distinct queue
    → Absent skb.id queue
    → Distinct (queue ++ one skb)
append-Distinct [] skb distinct absent = (tt, tt)
append-Distinct (first ∷ queue) skb (other, distinct) (ne, absent) = (
  append-Absent first.id queue skb other (λ e. ne (sym e)),
  append-Distinct queue skb distinct absent,
)

pub append-Waits :
    (queue : List Skb) (skb : Skb) → Waits queue → skb.state ≡ queued → Waits (queue ++ one skb)
append-Waits [] skb waits e = (e, tt)
append-Waits (first ∷ queue) skb (w, waits) e = (w, append-Waits queue skb waits e)

pub append-Batch :
    (last : ℕ) (queue : List Skb) (skb : Skb)
    → Batch last queue
    → skb.state ≡ queued
    → Batch last (queue ++ one skb)
append-Batch last [] skb b e = absurd b
append-Batch last (first ∷ queue) skb (inl (is, waits)) e = inl (is, append-Waits queue skb waits e)
append-Batch last (first ∷ []) skb (inr (ne, f, b)) e = absurd b
append-Batch last (first ∷ then ∷ queue) skb (inr (ne, f, b)) e =
    inr (ne, f, append-Batch last (then ∷ queue) skb b e)

pub unlink-Absent : (x id : ℕ) (queue : List Skb) → Absent x queue → Absent x (unlink id queue)
unfolding unlink
unlink-Absent x id [] absent = tt
unlink-Absent x id (skb ∷ queue) (ne, absent) = elim (Bool-cases (skb.id == id)) [
  | inl e ↦ rw e absent
  | inr e ↦ rw e (ne, unlink-Absent x id queue absent)
]

pub unlink-Distinct : (id : ℕ) (queue : List Skb) → Distinct queue → Distinct (unlink id queue)
unfolding unlink
unlink-Distinct id [] distinct = tt
unlink-Distinct id (skb ∷ queue) (absent, distinct) = elim (Bool-cases (skb.id == id)) [
  | inl e ↦ rw e distinct
  | inr e ↦ rw e (unlink-Absent skb.id id queue absent, unlink-Distinct id queue distinct)
]

pub unlink-Waits : (id : ℕ) (queue : List Skb) → Waits queue → Waits (unlink id queue)
unfolding unlink
unlink-Waits id [] waits = tt
unlink-Waits id (skb ∷ queue) (w, waits) = elim (Bool-cases (skb.id == id)) [
  | inl e ↦ rw e waits
  | inr e ↦ rw e (w, unlink-Waits id queue waits)
]

-- A message of a batch that is found and not in progress lies behind the batch.
pub unlink-Batch :
    (id last : ℕ) (skb : Skb) (queue : List Skb)
    → is_first queue id ≡ false
    → find id queue ≡ some skb
    → in_progress skb.state ≡ false
    → Batch last queue
    → Batch last (unlink id queue)
unfolding unlink find
unlink-Batch id last skb [] ne f idle b = absurd b
unlink-Batch id last skb (first ∷ queue) ne f idle (inl (is, waits)) =
    rw ne (inl (is, unlink-Waits id queue waits))
unlink-Batch id last skb (first ∷ []) ne f idle (inr (other, is_busy, b)) = absurd b
unlink-Batch id last skb (first ∷ then ∷ queue) ne f idle (inr (other, is_busy, b)) =
    let later = find_later id first skb (then ∷ queue) ne f in
    elim (Bool-cases (then.id == id)) [
      | inl e ↦
          let is : then ≡ skb = find_first id then skb queue e later in
          absurd (false≢true (sym idle ∙ ap in_progress (ap (λ s. s.state) (sym is) ∙ is_busy)))
      | inr e ↦
          let rest = unlink-Batch id last skb (then ∷ queue) e later idle b in
          rw ne (inr (other, (rw e is_busy), rest))
    ]
