-- ===== src/Flower/Mask/Counts.antt =====
-- The table of src/flower/metadata.c counts the flows that use each mask.
use nfp_drv_kmods.Base.{
  differ, ℕ, ◌+◌, ◌-◌, ◌^◌, ◌<◌, ◌≡◌, ◌≢◌, ◌∙◌, sym, ap, refl, Bool, true, false, ◌==◌,
  if◌then◌else◌, Option, none, some, List, [], ◌∷◌, bit_or, u32, Result, ok, err, Bool-cases,
  Option-cases, inl, inr, arith, ==_iff, ==-no, ==-yes,
}
use native.Mathlib.Decide.{ℕ_discrete}
use nfp_drv_kmods.Flower.Mask.{
  Entry, Masks, release_mask_id, mask_alloc, enter, flag_manage_mask, search_mask_table, set_count,
  hash_del, Given, managed, check_mask_add, check_mask_remove,
}

-- The flows that use the mask with this hash, as the table counts them.
abbrev pub counted : Option Entry → ℕ
counted none = 0
counted (some e) = e.ref_cnt

abbrev pub uses : Masks → ℕ → ℕ
uses m hash = counted (search_mask_table m.table hash)

-- No hash is in two entries, and no entry is unused.
unfoldable pub IsTable : List Entry → Type 0
unfolding search_mask_table
IsTable [] = Unit
IsTable (e ∷ t) =
    (search_mask_table t e.hash_key ≡ none) × (0 < e.ref_cnt) × (e.ref_cnt < 2 ^ 32) × IsTable t

counted-set_count :
    (t : List Entry) (hash n h : ℕ) (e : Entry)
    → search_mask_table t hash ≡ some e
    → counted (search_mask_table (set_count t hash n) h)
      ≡ (if hash == h then n else counted (search_mask_table t h))
unfolding search_mask_table set_count
counted-set_count [] hash n h e = λ found. cc
counted-set_count (x ∷ t) hash n h e = elim (Bool-cases (x.hash_key == hash)) [
  | inl same ↦ rw same (λ found. ground arith)
  | inr other ↦ rw other (λ found. ground (arith, counted-set_count t hash n h e found))
]

search-hash_del :
    (t : List Entry) (hash h : ℕ) (e : Entry)
    → IsTable t
    → search_mask_table t hash ≡ some e
    → search_mask_table (hash_del t hash) h ≡ (if hash == h then none else search_mask_table t h)
unfolding search_mask_table hash_del IsTable
search-hash_del [] hash h e = λ v found. cc
search-hash_del (x ∷ t) hash h e = elim (Bool-cases (x.hash_key == hash)) [
  | inl same ↦ rw same (λ v found. elim (ℕ_discrete hash h) [
    | yes here ↦
        let key : x.hash_key ≡ h = (==_iff _ _).0 same ∙ here in rw (==-yes _ _ here) (rw⁻¹ key v.0)
    | no away ↦
        let key : x.hash_key ≢ h = λ k. away (sym ((==_iff x.hash_key hash).0 same) ∙ k) in
        rw (==-no _ _ away, ==-no _ _ key) refl
  ])
  | inr other ↦ rw other (λ v found. elim (Bool-cases (x.hash_key == h)) [
    | inl here ↦
        let away : hash ≢ h =
          λ k. differ x.hash_key hash other ((==_iff x.hash_key h).0 here ∙ sym k) in
        rw (here, ==-no _ _ away) refl
    | inr away ↦ rw away (search-hash_del t hash h e v.3 found)
  ])
]

set_count-none :
    (t : List Entry) (hash n h : ℕ)
    → search_mask_table t h ≡ none
    → search_mask_table (set_count t hash n) h ≡ none
unfolding search_mask_table set_count
set_count-none [] hash n h = λ missing. refl
set_count-none (x ∷ t) hash n h = elim (Bool-cases (x.hash_key == h)) [
  | inl here ↦ rw here (λ missing. cc)
  | inr away ↦ rw away (λ missing. elim (Bool-cases (x.hash_key == hash)) [
    | inl same ↦ rw (same, away) missing
    | inr other ↦ rw (other, away) (set_count-none t hash n h missing)
  ])
]

set_count-IsTable :
    (t : List Entry) (hash n : ℕ) → 0 < n → n < 2 ^ 32 → IsTable t → IsTable (set_count t hash n)
unfolding IsTable set_count
set_count-IsTable [] hash n h k v = tt
set_count-IsTable (x ∷ t) hash n h k v = elim (Bool-cases (x.hash_key == hash)) [
  | inl same ↦ rw same (v.0, h, k, v.3)
  | inr other ↦
      rw other
        (set_count-none t hash n x.hash_key v.0, v.1, v.2, set_count-IsTable t hash n h k v.3)
]

hash_del-IsTable :
    (t : List Entry) (hash : ℕ) (e : Entry)
    → search_mask_table t hash ≡ some e
    → IsTable t
    → IsTable (hash_del t hash)
unfolding IsTable hash_del search_mask_table
hash_del-IsTable [] hash e = λ found v. cc
hash_del-IsTable (x ∷ t) hash e = elim (Bool-cases (x.hash_key == hash)) [
  | inl same ↦ rw same (λ found v. v.3)
  | inr other ↦ rw other (λ found v. (
    search-hash_del t hash x.hash_key e v.3 found
        ∙ either (hash == x.hash_key) (search_mask_table t x.hash_key) v.0,
    v.1,
    v.2,
    hash_del-IsTable t hash e found v.3,
  ))
]
  where
    either : (b : Bool) (o : Option Entry) → o ≡ none → (if b then none else o) ≡ none
    either true o h = refl
    either false o h = h

found_count :
    (t : List Entry) (hash : ℕ) (e : Entry)
    → IsTable t
    → search_mask_table t hash ≡ some e
    → (0 < e.ref_cnt) × (e.ref_cnt < 2 ^ 32)
unfolding IsTable search_mask_table
found_count [] hash e = λ v found. cc
found_count (x ∷ t) hash e = elim (Bool-cases (x.hash_key == hash)) [
  | inl same ↦ rw same (λ v found. ground arith)
  | inr other ↦ rw other (λ v found. found_count t hash e v.3 found)
]

table-release : (now : ℕ) (m : Masks) (id : ℕ) → (release_mask_id now m id).1.table ≡ m.table
unfolding release_mask_id
table-release now m id = ground arith

table-alloc : (now : ℕ) (m : Masks) → (mask_alloc now m).1.table ≡ m.table
unfolding mask_alloc
table-alloc now m = ground arith

-- What a flow that begins to use a mask finds, where the mask had `n` users: the flag is set exactly
-- for the first, and where no identifier is to be had the table stays.
abbrev pub Began : Masks → ℕ → ℕ → Option Given × Masks → Type 0
Began m hash flags (none, m') = m'.table ≡ m.table
Began m hash flags (some g, m') =
    IsTable m'.table
    × ((h : ℕ) → uses m' h ≡ (if hash == h then uses m hash + 1 else uses m h))
    × (g.flags ≡ (if uses m hash == 0 then bit_or flags flag_manage_mask else flags))

enter-Began :
    (room : Bool) (now hash flags : ℕ) (m : Masks) (r : Result ℕ × Masks)
    → search_mask_table m.table hash ≡ none
    → IsTable m.table
    → r.1.table ≡ m.table
    → Began m hash flags (managed flags (enter room now hash r))
unfolding enter IsTable search_mask_table
enter-Began room now hash flags m (err e, m') missing v same = same
enter-Began false now hash flags m (ok id, m') missing v same = table-release now m' id ∙ same
enter-Began true now hash flags m (ok id, m') missing v same =
    rw (same, missing) ((refl, omega arith, omega arith, v), (λ h. ground (arith, missing)), refl)

-- From a table of distinct masks in use, `nfp_check_mask_add` counts one use more of the mask and of
-- no other, and sets the flag exactly for the first use; it fails only with the table as it was.
pub check_mask_add-Began :
    (room : Bool) (now : ℕ) (m : Masks) (hash flags : ℕ)
    → IsTable m.table
    → uses m hash + 1 < 2 ^ 32
    → Began m hash flags (check_mask_add room now m hash flags)
unfolding check_mask_add
check_mask_add-Began room now m hash flags v =
    elim (Option-cases (search_mask_table m.table hash)) [
      | inl missing ↦ λ few.
          rw (missing, check_mask_add)
            (enter-Began room now hash flags m (mask_alloc now m) missing v (table-alloc now m))
      | inr (e, found) ↦ λ few.
          let r : uses m hash ≡ e.ref_cnt = ap counted found in
          let (pos, lim) = found_count m.table hash e v found in
          rw (found, check_mask_add)
            (
              set_count-IsTable m.table hash (u32 (e.ref_cnt + 1)) (omega arith) (omega arith) v,
              (λ h.
                  counted-set_count m.table hash (u32 (e.ref_cnt + 1)) h e found
                  ∙ ap (λ n. if hash == h then n else uses m h) (omega arith)),
              rw (==-no (uses m hash) 0 (omega arith)) refl,
            )
    ]

counted-if :
    (b : Bool) (o : Option Entry) → counted (if b then none else o) ≡ (if b then 0 else counted o)
counted-if true o = refl
counted-if false o = refl

-- What a flow that ends its use of a mask finds: it fails exactly when the mask is not in use, and
-- the flag is set exactly for the last.
abbrev pub Ended : Masks → ℕ → ℕ → Option Given × Masks → Type 0
Ended m hash flags (none, m') = (m' ≡ m) × (uses m hash ≡ 0)
Ended m hash flags (some g, m') =
    IsTable m'.table
    × ((h : ℕ) → uses m' h ≡ (if hash == h then uses m hash - 1 else uses m h))
    × (0 < uses m hash)
    × (g.flags ≡ (if uses m hash == 1 then bit_or flags flag_manage_mask else flags))

-- From a table of distinct masks in use, `nfp_check_mask_remove` counts one use less of the mask and
-- of no other, and sets the flag exactly for the last use; it fails exactly when the mask has none,
-- and changes nothing then.
pub check_mask_remove-Ended :
    (now : ℕ) (m : Masks) (hash flags : ℕ)
    → IsTable m.table
    → Ended m hash flags (check_mask_remove now m hash flags)
unfolding check_mask_remove
check_mask_remove-Ended now m hash flags v = elim (Option-cases (search_mask_table m.table hash)) [
  | inl missing ↦ rw (missing, check_mask_remove) (refl, ap counted missing)
  | inr (e, found) ↦
      let r : uses m hash ≡ e.ref_cnt = ap counted found in
      let (pos, lim) = found_count m.table hash e v found in
      elim (ℕ_discrete e.ref_cnt 1) [
        | yes last ↦
            let zero_left : (u32 (e.ref_cnt + (2 ^ 32 - 1)) == 0) ≡ true =
              ==-yes _ _ (omega arith) in
            let gone = record m { table = hash_del m.table hash } in
            let same = table-release now gone e.mask_id in
            rw (found, check_mask_remove, zero_left)
              (
                rw same (hash_del-IsTable m.table hash e found v),
                (λ h.
                    ap (λ t. counted (search_mask_table t h)) same
                    ∙ ap counted (search-hash_del m.table hash h e v found)
                    ∙ counted-if (hash == h) (search_mask_table m.table h)
                    ∙ ap (λ n. if hash == h then n else uses m h) (omega arith)),
                omega arith,
                rw (==-yes (uses m hash) 1 (omega arith)) refl,
              )
        | no more ↦
            let some_left : (u32 (e.ref_cnt + (2 ^ 32 - 1)) == 0) ≡ false =
              ==-no _ _ (omega arith) in
            rw (found, check_mask_remove, some_left)
              (
                set_count-IsTable m.table hash (u32 (e.ref_cnt + (2 ^ 32 - 1))) (omega arith)
                    (omega arith) v,
                (λ h.
                    counted-set_count m.table hash (u32 (e.ref_cnt + (2 ^ 32 - 1))) h e found
                    ∙ ap (λ n. if hash == h then n else uses m h) (omega arith)),
                omega arith,
                rw (==-no (uses m hash) 1 (omega arith)) refl,
              )
      ]
]
