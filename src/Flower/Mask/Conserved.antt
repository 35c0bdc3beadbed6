-- ===== src/Flower/Mask/Conserved.antt =====
-- Each mask identifier of src/flower/metadata.c is free or in use, and in one place only.
use nfp_drv_kmods.Base.{
  ℕ, ◌+◌, ◌-◌, ◌^◌, ◌≤◌, ◌<◌, ◌≡◌, ap, refl, Bool, true, false, ◌&&◌, ltb, leb, ◌==◌, if◌then◌else◌,
  none, some, List, [], ◌∷◌, ◌++◌, length, length-append, u32, Result, ok, err, Bool-cases,
  Option-cases, inl, inr, arith, ==-no,
}
use nfp_drv_kmods.Flower.Ring.{Ring, circ_space, put, drop_first, is_empty}
use nfp_drv_kmods.Flower.Ring as R
use nfp_drv_kmods.Flower.Ring.Queue.{
  contents, circ_space-contents, contents-put, contents-drop_first, put-IsValid, drop_first-IsValid,
}
use nfp_drv_kmods.Flower.Mask.{
  Entry, Masks, mask_entry_rs, reuse_time_ns, release_mask_id, mask_alloc, enter, search_mask_table,
  set_count, hash_del, managed, check_mask_add, check_mask_remove,
}

abbrev pub ids : List Entry → List ℕ
ids [] = []
ids (e ∷ t) = e.mask_id ∷ ids t

abbrev pub count : ℕ → List ℕ → ℕ
count a [] = 0
count a (x ∷ xs) = (if x == a then 1 else 0) + count a xs

pub count-put_last :
    (queue : List ℕ) (last id : ℕ)
    → count id (queue ++ (last ∷ [])) ≡ (if last == id then 1 else 0) + count id queue
count-put_last [] last id = omega arith
count-put_last (head ∷ queue) last id = omega (arith, count-put_last queue last id)

-- 1 for the identifiers that were never given.
abbrev pub unallocated : ℕ → ℕ → ℕ
unallocated n id = if ltb 0 id && leb id n then 1 else 0

-- Each of 1 to 255 is once in the free list, in the table, or not given yet.
pub record IsValid (m : Masks) : Type 0 where
  pub ring : R.IsValid 8 m.ring
  pub once :
      (id : ℕ)
      → count id (contents 256 m.ring) + count id (ids m.table) + unallocated m.init_unallocated id
        ≡ unallocated 255 id
  pub total : length (contents 256 m.ring) + length (ids m.table) + m.init_unallocated ≡ 255

-- A release of an identifier that is nowhere else.
pub record IsHeld (m : Masks) (id : ℕ) : Type 0 where
  pub ring : R.IsValid 8 m.ring
  pub once :
      (j : ℕ)
      → count j (contents 256 m.ring)
          + count j (ids m.table)
          + unallocated m.init_unallocated j
          + (if id == j then 1 else 0)
        ≡ unallocated 255 j
  pub total : length (contents 256 m.ring) + length (ids m.table) + m.init_unallocated + 1 ≡ 255

pub release-IsValid :
    (now : ℕ) (m : Masks) (id : ℕ)
    → IsHeld m id
    → ((release_mask_id now m id).0 ≡ none) × IsValid (release_mask_id now m id).1
unfolding release_mask_id
release-IsValid now m id h =
    let space = circ_space-contents 8 m.ring (omega arith) h.ring in
    let full = ==-no (circ_space m.ring.head m.ring.tail 256) 0 (omega (arith, h.total)) in
    let room : length (contents 256 m.ring) + 1 < 2 ^ 8 = omega (arith, h.total) in
    let queue = contents-put 8 m.ring id h.ring room in
    rw full (
      refl,
      record {
        ring = put-IsValid 8 m.ring id h.ring;
        once = λ j. rw (queue, count-put_last (contents 256 m.ring) id j) (omega (arith, h.once j));
        total = rw (queue, length-append (contents 256 m.ring) (id ∷ [])) (omega (arith, h.total));
      },
    )

-- What an allocation gives is nowhere else; where it fails nothing changes.
abbrev Allocated : Masks → Result ℕ × Masks → Type 0
Allocated m (err e, m') = m' ≡ m
Allocated m (ok id, m') = IsHeld m' id × (m'.table ≡ m.table)

alloc-Allocated : (now : ℕ) (m : Masks) → IsValid m → Allocated m (mask_alloc now m)
unfolding mask_alloc
alloc-Allocated now m v = elim (Bool-cases (ltb 0 m.init_unallocated)) [
  | inl fresh ↦ rw fresh (
    record { ring = v.ring; once = λ j. ground (arith, v.once j); total = ground (arith, v.total) },
    refl,
  )
  | inr given ↦ rw given (elim (Bool-cases (is_empty m.ring)) [
    | inl empty ↦ rw empty refl
    | inr left ↦
        let first = contents-drop_first 8 m.ring (mask_entry_rs - 1) v.ring left in
        rw left
          (elim (Bool-cases (ltb now (m.last_used (m.ring.buf m.ring.tail) + reuse_time_ns))) [
            | inl early ↦ rw early refl
            | inr late ↦ rw late (
              record {
                ring = drop_first-IsValid 8 m.ring (mask_entry_rs - 1) v.ring;
                once = λ j. omega (arith, v.once j, ap (count j) first);
                total = omega (arith, v.total, ap length first);
              },
              refl,
            )
          ])
  ])
]

enter-IsValid :
    (room : Bool) (now hash : ℕ) (m : Masks) (r : Result ℕ × Masks)
    → IsValid m
    → Allocated m r
    → IsValid (enter room now hash r).1
unfolding enter
enter-IsValid room now hash m (err e, m') v h = rw h v
enter-IsValid true now hash m (ok id, m') v (h, t) = record {
  ring = h.ring;
  once = λ j. omega (arith, h.once j);
  total = omega (arith, h.total);
}
enter-IsValid false now hash m (ok id, m') v (h, t) = (release-IsValid now m' id h).1

ids-set_count : (t : List Entry) (hash n : ℕ) → ids (set_count t hash n) ≡ ids t
unfolding set_count
ids-set_count [] hash n = refl
ids-set_count (e ∷ t) hash n = elim (Bool-cases (e.hash_key == hash)) [
  | inl same ↦ rw same refl
  | inr other ↦ rw other (ap (λ u. e.mask_id ∷ u) (ids-set_count t hash n))
]

-- The entry that a search finds is the one that is deleted.
ids-hash_del :
    (t : List Entry) (hash : ℕ) (e : Entry) (j : ℕ)
    → search_mask_table t hash ≡ some e
    → (count j (ids t) ≡ count j (ids (hash_del t hash)) + (if e.mask_id == j then 1 else 0))
      × (length (ids t) ≡ length (ids (hash_del t hash)) + 1)
unfolding search_mask_table hash_del
ids-hash_del [] hash e j = λ found. cc
ids-hash_del (x ∷ t) hash e j = elim (Bool-cases (x.hash_key == hash)) [
  | inl same ↦ rw same (λ found. ground arith)
  | inr other ↦
      rw other (λ found. let (c, l) = ids-hash_del t hash e j found in (omega arith, omega arith))
]

set_count-IsValid :
    (m : Masks) (hash n : ℕ) → IsValid m → IsValid (record m { table = set_count m.table hash n })
set_count-IsValid m hash n v = record {
  ring = v.ring;
  once = λ j. rw (ids-set_count m.table hash n) (v.once j);
  total = rw (ids-set_count m.table hash n) (v.total);
}

managed-IsValid : (flags : ℕ) (r : Result ℕ × Masks) → IsValid r.1 → IsValid (managed flags r).1
managed-IsValid flags (err e, m) v = v
managed-IsValid flags (ok id, m) v = v

pub check_mask_add-IsValid :
    (room : Bool) (now : ℕ) (m : Masks) (hash flags : ℕ)
    → IsValid m
    → IsValid (check_mask_add room now m hash flags).1
unfolding check_mask_add
check_mask_add-IsValid room now m hash flags v =
    elim (Option-cases (search_mask_table m.table hash)) [
      | inl missing ↦
          rw (missing, check_mask_add)
            (managed-IsValid flags (enter room now hash (mask_alloc now m))
              (enter-IsValid room now hash m (mask_alloc now m) v (alloc-Allocated now m v)))
      | inr (e, found) ↦
          rw (found, check_mask_add) (set_count-IsValid m hash (u32 (e.ref_cnt + 1)) v)
    ]

deleted-IsHeld :
    (m : Masks) (hash : ℕ) (e : Entry)
    → IsValid m
    → search_mask_table m.table hash ≡ some e
    → IsHeld (record m { table = hash_del m.table hash }) e.mask_id
deleted-IsHeld m hash e v found = record {
  ring = v.ring;
  once = λ j. omega (arith, v.once j, (ids-hash_del m.table hash e j found).0);
  total = omega (arith, v.total, (ids-hash_del m.table hash e 0 found).1);
}

pub check_mask_remove-IsValid :
    (now : ℕ) (m : Masks) (hash flags : ℕ)
    → IsValid m
    → IsValid (check_mask_remove now m hash flags).1
unfolding check_mask_remove
check_mask_remove-IsValid now m hash flags v =
    elim (Option-cases (search_mask_table m.table hash)) [
      | inl missing ↦ rw (missing, check_mask_remove) v
      | inr (e, found) ↦
          rw (found, check_mask_remove)
            (elim (Bool-cases (u32 (e.ref_cnt + (2 ^ 32 - 1)) == 0)) [
              | inl last ↦
                  rw last
                    (release-IsValid now (record m { table = hash_del m.table hash }) e.mask_id
                      (deleted-IsHeld m hash e v found)).1
              | inr more ↦ rw more (set_count-IsValid m hash (u32 (e.ref_cnt + (2 ^ 32 - 1))) v)
            ])
    ]

-- No mask identifier is in two entries, none is both in the table and in the free list, and each in
-- either is from 1 to 255.
pub ids_distinct :
    (m : Masks) (id : ℕ)
    → IsValid m
    → (count id (ids m.table) + count id (contents 256 m.ring) ≤ 1)
      × (0 < count id (ids m.table) + count id (contents 256 m.ring) → (0 < id) × (id < 256))
ids_distinct m id v = ground (arith, v.once id)
