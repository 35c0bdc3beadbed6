-- ===== src/Target/Encode/Basic.antt =====
-- `nfp_decode_basic` undoes `nfp_encode_basic` (src/nfpcore/nfp_target.c).
use native.Mathlib.Decide.{ℕ_discrete}
use nfp_drv_kmods.Base.{
  ℕ, zero, suc, ◌+◌, ◌-◌, ◌/◌, ◌%◌, ◌^◌, ◌<◌, ◌≡◌, inl, inr, ◌∙◌, sym, Bool, true, false, some,
  Option-cases, ==-yes, ==-no, if◌then◌else◌, ok, err, ok-injective, enodev, bit_and, bit_or,
  bit_and_mask, arith,
}
use nfp_drv_kmods.Target.Encode.{
  not64, not32, either_lsb, decode_indexed, find_low, place, encode_basic_search, put_island,
  put_index, has_bit,
}
use nfp_drv_kmods.Target.Encode.Decode.{
  put_island-34, put_island-26, place-38, place-30, place-37, place-29, clear_index-39,
  clear_index-31, set_index, has_bit-true, has_bit-false, decode_indexed-low, decode_indexed-high,
}

-- A value that the inner loop finds is one of those it tries, and gives the island.
find_low-some :
    (n v isld dest w : ℕ) → find_low n v isld dest ≡ some w → (w < v + n) × (dest ≡ bit_or isld w)
unfolding find_low
find_low-some zero v isld dest w h = cc
find_low-some (suc n) v isld dest w h = elim (ℕ_discrete dest (bit_or isld v)) [
  | yes here ↦
      let same : some v ≡ some w = rw (==-yes _ _ here) at h in (ground arith, ground arith)
  | no other ↦
      let later = find_low-some n (v + 1) isld dest w (rw (==-no _ _ other) at h) in
      (omega (arith, later.0), later.1)
]

-- What a successful search has done.
pub data Found (addr dest isld0 isld1 iid_lsb idx_lsb v_max a : ℕ) : Type 0 where
  in_first :
      (v : ℕ)
      → v < v_max
      → dest ≡ bit_or isld0 v
      → a ≡ place addr iid_lsb idx_lsb 0 v
      → Found addr dest isld0 isld1 iid_lsb idx_lsb v_max a
  in_second :
      (v : ℕ)
      → v < v_max
      → dest ≡ bit_or isld1 v
      → a ≡ place addr iid_lsb idx_lsb 1 v
      → Found addr dest isld0 isld1 iid_lsb idx_lsb v_max a

pub search-Found :
    (addr dest isld0 isld1 iid_lsb idx_lsb v_max : ℕ) {a : ℕ}
    → encode_basic_search addr dest isld0 isld1 iid_lsb idx_lsb v_max ≡ ok a
    → Found addr dest isld0 isld1 iid_lsb idx_lsb v_max a
unfolding encode_basic_search
search-Found addr dest isld0 isld1 iid_lsb idx_lsb v_max {a} h =
    elim (Option-cases (find_low v_max 0 isld0 dest)) [
      | inr (v, e) ↦
          let f = find_low-some v_max 0 isld0 dest v e in
          in_first v (omega (arith, f.0)) f.1
            (ok-injective (sym (rw (e, encode_basic_search) at h)))
      | inl e ↦ elim (Option-cases (find_low v_max 0 isld1 dest)) [
        | inr (v, e') ↦
            let f = find_low-some v_max 0 isld1 dest v e' in
            in_second v (omega (arith, f.0)) f.1
              (ok-injective (sym (rw (e, e', encode_basic_search) at h)))
        | inl e' ↦ absurd (ground (arith, h, e, e'))
      ]
    ]

-- Modes 2 and 3: what is found decodes to the island, where the address that was written holds the
-- Index bit and the low bits.
Found-decode :
    (addr dest isld0 isld1 iid_lsb idx_lsb s a : ℕ)
    → ((v : ℕ)
        → v < 2 ^ s
        → (place addr iid_lsb idx_lsb 0 v / 2 ^ idx_lsb % 2 ≡ 0)
          × (place addr iid_lsb idx_lsb 0 v / 2 ^ iid_lsb % 2 ^ s ≡ v)
          × (place addr iid_lsb idx_lsb 1 v / 2 ^ idx_lsb % 2 ≡ 1)
          × (place addr iid_lsb idx_lsb 1 v / 2 ^ iid_lsb % 2 ^ s ≡ v))
    → Found addr dest
        (bit_and isld0 (not32 (2 ^ s - 1)))
        (bit_and isld1 (not32 (2 ^ s - 1)))
        iid_lsb
        idx_lsb
        (2 ^ s)
        a
    → decode_indexed a idx_lsb iid_lsb (2 ^ s - 1) isld1 isld0 ≡ dest
Found-decode addr dest isld0 isld1 iid_lsb idx_lsb s a reads (in_first v hv is_dest wrote) =
    let r = reads v hv in
    rw wrote (decode_indexed-low _ idx_lsb iid_lsb s v isld1 isld0 r.0 r.1 ∙ sym is_dest)
Found-decode addr dest isld0 isld1 iid_lsb idx_lsb s a reads (in_second v hv is_dest wrote) =
    let r = reads v hv in
    rw wrote (decode_indexed-high _ idx_lsb iid_lsb s v isld1 isld0 r.2 r.3 ∙ sym is_dest)

module _ (addr dest isld1 isld0 a : ℕ) (wide : addr < 2 ^ 64) where
  pub search_decode-2 :
      (addr40 : Bool)
      → encode_basic_search addr dest
          (bit_and isld0 (not32 1))
          (bit_and isld1 (not32 1))
          (either_lsb addr40 38 30)
          (either_lsb addr40 39 31)
          2
        ≡ ok a
      → decode_indexed a (either_lsb addr40 39 31) (either_lsb addr40 38 30) 1 isld1 isld0 ≡ dest
  search_decode-2 true h =
      Found-decode addr dest isld0 isld1 38 39 1 a
        (λ v hv. let p = place-38 addr v wide hv in omega (arith, p.0, p.1))
        (search-Found addr dest _ _ 38 39 2 h)
  search_decode-2 false h =
      Found-decode addr dest isld0 isld1 30 31 1 a
        (λ v hv. let p = place-30 addr v wide hv in omega (arith, p.0, p.1))
        (search-Found addr dest _ _ 30 31 2 h)

  pub search_decode-3 :
      (addr40 : Bool)
      → encode_basic_search addr dest
          (bit_and isld0 (not32 3))
          (bit_and isld1 (not32 3))
          (either_lsb addr40 37 29)
          (either_lsb addr40 39 31)
          4
        ≡ ok a
      → decode_indexed a (either_lsb addr40 39 31) (either_lsb addr40 37 29) 3 isld1 isld0 ≡ dest
  search_decode-3 true h =
      Found-decode addr dest isld0 isld1 37 39 2 a
        (λ v hv. let p = place-37 addr v wide hv in omega (arith, p.0, p.1))
        (search-Found addr dest _ _ 37 39 4 h)
  search_decode-3 false h =
      Found-decode addr dest isld0 isld1 29 31 2 a
        (λ v hv. let p = place-29 addr v wide hv in omega (arith, p.0, p.1))
        (search-Found addr dest _ _ 29 31 4 h)

  -- Mode 1.
  put_index-decode :
      (idx : ℕ)
      → bit_and addr (not64 (2 ^ idx)) / 2 ^ idx % 2 ≡ 0
      → bit_or addr (2 ^ idx) / 2 ^ idx % 2 ≡ 1
      → put_index addr dest idx isld1 isld0 ≡ ok a
      → (if has_bit a idx then isld1 else isld0) ≡ dest
  put_index-decode idx cleared raised h = elim (ℕ_discrete dest isld0) [
    | yes e ↦
        let same = ok-injective {a = bit_and addr (not64 (2 ^ idx))} (rw (==-yes _ _ e) at h) in
        rw (← same, has_bit-false _ idx cleared) (sym e)
    | no ne ↦ elim (ℕ_discrete dest isld1) [
      | yes e ↦
          let same =
            ok-injective {a = bit_or addr (2 ^ idx)} (rw (==-no _ _ ne, ==-yes _ _ e) at h) in
          rw (← same, has_bit-true _ idx raised) (sym e)
      | no ne' ↦ absurd (wrong (rw (==-no _ _ ne, ==-no _ _ ne') at h))
    ]
  ]
    where
      wrong : err enodev ≡ ok a → ⊥
      wrong e = cc

  pub index_decode :
      (addr40 : Bool)
      → put_index addr dest (either_lsb addr40 39 31) isld1 isld0 ≡ ok a
      → (if has_bit a (either_lsb addr40 39 31) then isld1 else isld0) ≡ dest
  index_decode true h =
      put_index-decode 39 (omega (arith, clear_index-39 addr wide))
        (omega (arith, set_index 39 addr)) h
  index_decode false h =
      put_index-decode 31 (omega (arith, clear_index-31 addr wide))
        (omega (arith, set_index 31 addr)) h

  -- Mode 0.
  pub island_decode :
      (addr40 : Bool)
      → dest < 64
      → bit_and (put_island addr (either_lsb addr40 34 26) dest / 2 ^ either_lsb addr40 34 26) 0x3f
        ≡ dest
  island_decode true h =
      omega
        (arith, put_island-34 addr dest wide h, bit_and_mask 6 (put_island addr 34 dest / 2 ^ 34))
  island_decode false h =
      omega
        (arith, put_island-26 addr dest wide h, bit_and_mask 6 (put_island addr 26 dest / 2 ^ 26))
