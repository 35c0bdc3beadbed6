-- ===== src/Flower/Ring/Queue.antt =====
-- A free list of src/flower/metadata.c is a queue: a release appends, and an allocation takes the
-- first.
use nfp_drv_kmods.Base.{
  ℕ, zero, suc, ◌+◌, ◌-◌, ◌*◌, ◌%◌, ◌^◌, ◌≤◌, ◌<◌, ◌≡◌, ◌≢◌, ◌∙◌, sym, ap, ap₂, refl, List, [], ◌∷◌,
  ◌++◌, bit_and_mask, update, ltb, leb, ◌==◌, ==-yes, ==-no, leb-yes, leb-no, if◌then◌else◌, arith,
  true, false, pow-pos, length,
}
use native.Mathlib.Nat.{
  mod-eq_of_lt, mod_self, mod-eq-sub-mod, mul-add-mod_self_right, pow-suc, zero-add,
}
use native.Mathlib.Decide.{dec_lt, ℕ_discrete}
use nfp_drv_kmods.Flower.Ring.{Ring, circ_space, step, put, drop_first, is_empty, IsValid}

-- The index after `i` in a ring of `size` entries.
abbrev pub after : ℕ → ℕ → ℕ
after size i = if i + 1 == size then 0 else i + 1

-- The number of entries from `tail` to `head`.
abbrev pub held : ℕ → ℕ → ℕ → ℕ
held size head tail = if leb tail head then head - tail else head + size - tail

pub step_lem : (k i : ℕ) → i < 2 ^ k → step (2 ^ k) i ≡ after (2 ^ k) i
unfolding step
step_lem k i h = bit_and_mask k (i + 1) ∙ elim (ℕ_discrete (i + 1) (2 ^ k)) [
  | yes e ↦ rw (==-yes _ _ e, e) (mod_self (2 ^ k))
  | no d ↦ rw (==-no _ _ d) (mod-eq_of_lt (omega arith))
]

pow_add : (a b : ℕ) → 2 ^ (a + b) ≡ 2 ^ a * 2 ^ b
pow_add zero b = omega (arith, ap (λ (t : ℕ). 2 ^ t) (zero-add b))
pow_add (suc a) b =
    let e : suc a + b ≡ suc (a + b) = omega arith in
    rw (e, pow-suc 2 (a + b), pow-suc 2 a, pow_add a b) (omega arith)

pub pred_mul : (a b : ℕ) → 0 < a → a * b ≡ (a - 1) * b + b
pred_mul zero b h = absurd (omega arith)
pred_mul (suc a) b h = grind arith

-- Space that wraps around once at most.
wrapped :
    (size head tail : ℕ)
    → head < size
    → tail < size
    → (tail + size - (head + 1)) % size + held size head tail + 1 ≡ size
wrapped size head tail hh ht = elim (dec_lt head tail) [
  | yes lt ↦
      let e = mod-eq-sub-mod {n = tail + size - (head + 1)} {m = size} (omega arith) in
      let f = mod-eq_of_lt {n = tail + size - (head + 1) - size} {m = size} (omega arith) in
      rw (leb-no tail head (omega arith)) (omega arith)
  | no ge ↦
      let e = mod-eq_of_lt {n = tail + size - (head + 1)} {m = size} (omega arith) in
      rw (leb-yes tail head (omega arith)) (omega arith)
]

-- What is held and the space are the ring but for one entry.
pub circ_space_lem :
    (k head tail : ℕ)
    → k ≤ 31
    → head < 2 ^ k
    → tail < 2 ^ k
    → circ_space head tail (2 ^ k) + held (2 ^ k) head tail + 1 ≡ 2 ^ k
unfolding circ_space
circ_space_lem k head tail h hh ht =
    let total : 32 ≡ 32 - k + k = omega arith in
    let whole : 2 ^ 32 ≡ 2 ^ (32 - k) * 2 ^ k = ap (λ (t : ℕ). 2 ^ t) total ∙ pow_add (32 - k) k in
    let above = pred_mul (2 ^ (32 - k)) (2 ^ k) (pow-pos (32 - k)) in
    let cut : tail + 2 ^ 32 - (head + 1)
        ≡ (2 ^ (32 - k) - 1) * 2 ^ k + (tail + 2 ^ k - (head + 1)) =
      omega arith in
    let space =
      bit_and_mask k (tail + 2 ^ 32 - (head + 1))
      ∙ ap (λ (t : ℕ). t % 2 ^ k) cut
      ∙ mul-add-mod_self_right (2 ^ (32 - k) - 1) (2 ^ k) (tail + 2 ^ k - (head + 1)) in
    ap (λ (t : ℕ). t + held (2 ^ k) head tail + 1) space ∙ wrapped (2 ^ k) head tail hh ht

entries : (ℕ → ℕ) → ℕ → ℕ → ℕ → List ℕ
entries buf size from zero = []
entries buf size from (suc n) = buf from ∷ entries buf size (after size from) n

-- A write where the entries end adds one.
entries-update :
    (buf : ℕ → ℕ) (size from n i id : ℕ)
    → from < size
    → n < size
    → i ≡ (if ltb (from + n) size then from + n else from + n - size)
    → entries (update buf i id) size from (suc n) ≡ entries buf size from n ++ id ∷ []
unfolding entries
entries-update buf size from zero i id hf hn e =
    let s : i ≡ from = ground arith in rw (==-yes i from s) refl
entries-update buf size from (suc n) i id hf hn e =
    let d : i ≢ from = ground arith in
    ap₂ ◌∷◌ (rw (==-no i from d) refl)
      (entries-update buf size (after size from) n i id (ground arith) (omega arith) (ground arith))

-- A write outside changes none.
entries_same :
    (buf : ℕ → ℕ) (size from n i id : ℕ)
    → from < size
    → n < size
    → i < size
    → n ≤ (if leb from i then i - from else i + size - from)
    → entries (update buf i id) size from n ≡ entries buf size from n
unfolding entries
entries_same buf size from zero i id hf hn hi out = refl
entries_same buf size from (suc n) i id hf hn hi out =
    let d : i ≢ from = ground arith in
    ap₂ ◌∷◌ (rw (==-no i from d) refl) (
      entries_same buf size (after size from) n i id (ground arith) (omega arith) hi (ground arith))

-- The queue that a ring holds.
unfoldable pub contents : ℕ → Ring → List ℕ
unfolding entries
contents size ring = entries ring.buf size ring.tail (held size ring.head ring.tail)

length-entries : (buf : ℕ → ℕ) (size from n : ℕ) → length (entries buf size from n) ≡ n
unfolding entries
length-entries buf size from zero = refl
length-entries buf size from (suc n) = ap suc (length-entries buf size (after size from) n)

-- There is no space exactly when the queue has one entry less than the ring.
pub circ_space-contents :
    (k : ℕ) (ring : Ring)
    → k ≤ 31
    → IsValid k ring
    → circ_space ring.head ring.tail (2 ^ k) + length (contents (2 ^ k) ring) + 1 ≡ 2 ^ k
unfolding contents
circ_space-contents k ring h v =
    rw (length-entries ring.buf (2 ^ k) ring.tail (held (2 ^ k) ring.head ring.tail))
      (circ_space_lem k ring.head ring.tail h v.head v.tail)

pub put-IsValid : (k : ℕ) (ring : Ring) (id : ℕ) → IsValid k ring → IsValid k (put (2 ^ k) ring id)
unfolding put
put-IsValid k ring id v = record {
  head = rw (step_lem k ring.head v.head) (ground (arith, pow-pos k));
  tail = v.tail;
}

pub drop_first-IsValid :
    (k : ℕ) (ring : Ring) (freed : ℕ) → IsValid k ring → IsValid k (drop_first (2 ^ k) ring freed)
unfolding drop_first
drop_first-IsValid k ring freed v = record {
  head = v.head;
  tail = rw (step_lem k ring.tail v.tail) (ground (arith, pow-pos k));
}

-- A release appends.
pub contents-put :
    (k : ℕ) (ring : Ring) (id : ℕ)
    → IsValid k ring
    → length (contents (2 ^ k) ring) + 1 < 2 ^ k
    → contents (2 ^ k) (put (2 ^ k) ring id) ≡ contents (2 ^ k) ring ++ id ∷ []
unfolding contents put
contents-put k ring id v room =
    let few : held (2 ^ k) ring.head ring.tail + 1 < 2 ^ k =
      omega (arith, length-entries ring.buf (2 ^ k) ring.tail (held (2 ^ k) ring.head ring.tail)) in
    let more : held (2 ^ k) (step (2 ^ k) ring.head) ring.tail
        ≡ suc (held (2 ^ k) ring.head ring.tail) =
      rw (step_lem k ring.head v.head) (ground arith) in
    rw more (
      entries-update ring.buf (2 ^ k) ring.tail (held (2 ^ k) ring.head ring.tail) ring.head id
        v.tail (omega arith) (ground arith))

after-lt : (size i : ℕ) → i < size → after size i < size
after-lt size i h = ground arith

held-lt : (size head tail : ℕ) → head < size → tail < size → held size head tail < size
held-lt size head tail hh ht = ground arith

first_held :
    (size head tail : ℕ)
    → head < size
    → tail < size
    → (head == tail) ≡ false
    → held size head tail ≡ suc (held size head (after size tail))
first_held size head tail hh ht d = ground arith

rest_fits :
    (size head tail : ℕ)
    → head < size
    → tail < size
    → (head == tail) ≡ false
    → held size head (after size tail) ≤ (
        if leb (after size tail) tail
        then tail - after size tail
        else tail + size - after size tail)
rest_fits size head tail hh ht d = ground arith

empty_held : (size head tail : ℕ) → (head == tail) ≡ true → held size head tail ≡ 0
empty_held size head tail e = ground arith

-- An allocation takes the first.
pub contents-drop_first :
    (k : ℕ) (ring : Ring) (freed : ℕ)
    → IsValid k ring
    → is_empty ring ≡ false
    → contents (2 ^ k) ring ≡ ring.buf ring.tail ∷ contents (2 ^ k) (drop_first (2 ^ k) ring freed)
unfolding contents drop_first is_empty entries
contents-drop_first k ring freed v left =
    let head = ring.head in
    let tail = ring.tail in
    let one = step_lem k tail v.tail in
    let shorter : held (2 ^ k) head tail ≡ suc (held (2 ^ k) head (after (2 ^ k) tail)) =
      first_held (2 ^ k) head tail v.head v.tail left in
    rw (one, shorter)
      (ap (λ t. ring.buf tail ∷ t)
        (sym (
          entries_same ring.buf (2 ^ k) (after (2 ^ k) tail)
            (held (2 ^ k) head (after (2 ^ k) tail)) tail freed (after-lt (2 ^ k) tail v.tail)
            (held-lt (2 ^ k) head (after (2 ^ k) tail) v.head (after-lt (2 ^ k) tail v.tail)) v.tail
            (rest_fits (2 ^ k) head tail v.head v.tail left))))

-- The ring is empty exactly when the queue is.
pub is_empty-contents :
    (k : ℕ) (ring : Ring) → IsValid k ring → is_empty ring ≡ true → contents (2 ^ k) ring ≡ []
unfolding contents is_empty entries
is_empty-contents k ring v empty = rw (empty_held (2 ^ k) ring.head ring.tail empty) refl
