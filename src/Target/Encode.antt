-- ===== src/Target/Encode.antt =====
-- The address translation of src/nfpcore/nfp_target.c: an island in the bits of an address.
pub mod Decode
pub mod Basic
pub mod RoundTrip
pub mod Translate
use nfp_drv_kmods.Base.{
  ℕ, zero, suc, ◌+◌, ◌-◌, ◌*◌, ◌/◌, ◌%◌, ◌^◌, ◌≡◌, Bool, true, false, not, ◌&&◌, ◌||◌, Option, none,
  some, ltb, leb, ◌==◌, if◌then◌else◌, Result, ok, err, einval, enodev, bit_and, bit_or, u64, ◌<<<◌,
  ◌>>>◌,
}
use nfp_drv_kmods.Cpp.{
  cpp_id, target_of, token_of, action_of, island_of, target_nbi, target_qdr, target_ila, target_mu,
  target_pcie, target_arm, target_crypto, target_ct_xpb, target_cls,
}

-- `GENMASK_ULL(hi, lo)` and the complement of 64 bits.
abbrev pub genmask : ℕ → ℕ → ℕ
genmask hi lo = 2 ^ (hi + 1) - 2 ^ lo

abbrev pub not64 : ℕ → ℕ
not64 x = 2 ^ 64 - 1 - x

-- `~1` and `~3` on an `int`.
abbrev pub not32 : ℕ → ℕ
not32 x = 2 ^ 32 - 1 - x

-- The position of a field, which depends on the width of the address.
abbrev pub either_lsb : Bool → ℕ → ℕ → ℕ
either_lsb addr40 wide narrow = if addr40 then wide else narrow

abbrev pub has_bit : ℕ → ℕ → Bool
has_bit addr idx_lsb = not (bit_and addr (2 ^ idx_lsb) == 0)

abbrev pub handled : ℕ → Bool
handled cpp_tgt = not (cpp_tgt == target_mu || cpp_tgt == target_ct_xpb)

-- The modes 1 to 3 of `nfp_decode_basic`: the Index bit picks an island number, whose low bits
-- `mask` come from the address.
pub decode_indexed : ℕ → ℕ → ℕ → ℕ → ℕ → ℕ → ℕ
decode_indexed addr idx_lsb iid_lsb mask isld1 isld0 =
    if has_bit addr idx_lsb
    then bit_or (bit_and isld1 (not32 mask)) (bit_and (addr >>> iid_lsb) mask)
    else bit_or (bit_and isld0 (not32 mask)) (bit_and (addr >>> iid_lsb) mask)

pub decode_basic : ℕ → ℕ → ℕ → Bool → ℕ → ℕ → Result ℕ
unfolding decode_indexed
decode_basic addr cpp_tgt mode addr40 isld1 isld0 =
    let idx_lsb = either_lsb addr40 39 31 in
    if not (handled cpp_tgt)
    then err einval
    else if mode == 0
    then ok (bit_and (addr >>> either_lsb addr40 34 26) 0x3f)
    else if mode == 1
    then ok (if has_bit addr idx_lsb then isld1 else isld0)
    else if mode == 2
    then ok (decode_indexed addr idx_lsb (either_lsb addr40 38 30) 1 isld1 isld0)
    else if mode == 3
    then ok (decode_indexed addr idx_lsb (either_lsb addr40 37 29) 3 isld1 isld0)
    else err einval

-- `nfp_encode_basic_qdr`, in the order of its own parameters; the destination is never -1 here.
-- The address is left as it is.
pub encode_basic_qdr : ℕ → ℕ → ℕ → ℕ → Bool → ℕ → ℕ → Result ℕ
unfolding decode_basic
encode_basic_qdr addr dest_island cpp_tgt mode addr40 isld1 isld0 =
    elim (decode_basic addr cpp_tgt mode addr40 isld1 isld0) [
      | err e ↦ err e
      | ok v ↦ if not (dest_island == v) then err einval else ok addr
    ]

-- The inner loop of `nfp_encode_basic_search`, with `n` values left.
pub find_low : ℕ → ℕ → ℕ → ℕ → Option ℕ
find_low zero v isld dest_island = none
find_low (suc n) v isld dest_island =
    let rest = find_low n (v + 1) isld dest_island in
    if dest_island == bit_or isld v then some v else rest

abbrev pub place : ℕ → ℕ → ℕ → ℕ → ℕ → ℕ
place addr iid_lsb idx_lsb i v =
    bit_or (bit_or (bit_and addr (not64 (genmask idx_lsb iid_lsb))) (i <<< idx_lsb)) (v <<< iid_lsb)

pub encode_basic_search : ℕ → ℕ → ℕ → ℕ → ℕ → ℕ → ℕ → Result ℕ
unfolding find_low
encode_basic_search addr dest_island isld0 isld1 iid_lsb idx_lsb v_max =
    elim (find_low v_max 0 isld0 dest_island) [
      | some v ↦ ok (place addr iid_lsb idx_lsb 0 v)
      | none ↦ elim (find_low v_max 0 isld1 dest_island) [
        | some v ↦ ok (place addr iid_lsb idx_lsb 1 v)
        | none ↦ err enodev
      ]
    ]

-- A field of six bits that takes the island.
abbrev pub put_island : ℕ → ℕ → ℕ → ℕ
put_island addr iid_lsb dest_island =
    let v64 = genmask (iid_lsb + 5) iid_lsb in
    bit_or (bit_and addr (not64 v64)) (bit_and (u64 (dest_island <<< iid_lsb)) v64)

-- The Index bit alone.
abbrev pub put_index : ℕ → ℕ → ℕ → ℕ → ℕ → Result ℕ
put_index addr dest_island idx_lsb isld1 isld0 =
    if dest_island == isld0
    then ok (bit_and addr (not64 (2 ^ idx_lsb)))
    else if dest_island == isld1
    then ok (bit_or addr (2 ^ idx_lsb))
    else err enodev

-- The calls of `nfp_encode_basic_qdr` give the target where it expects the island, and the island
-- where it expects the target.
unfoldable pub encode_basic : ℕ → ℕ → ℕ → ℕ → Bool → ℕ → ℕ → Result ℕ
unfolding encode_basic_qdr encode_basic_search
encode_basic addr dest_island cpp_tgt mode addr40 isld1 isld0 =
    let idx_lsb = either_lsb addr40 39 31 in
    if not (handled cpp_tgt)
    then err einval
    else if ltb 3 mode
    then err einval
    else if cpp_tgt == target_qdr && not addr40
    then encode_basic_qdr addr cpp_tgt dest_island mode addr40 isld1 isld0
    else if mode == 0
    then ok (put_island addr (either_lsb addr40 34 26) dest_island)
    else if mode == 1
    then put_index addr dest_island idx_lsb isld1 isld0
    else if mode == 2
    then encode_basic_search addr dest_island (bit_and isld0 (not32 1)) (bit_and isld1 (not32 1))
        (either_lsb addr40 38 30) idx_lsb 2
    else encode_basic_search addr dest_island (bit_and isld0 (not32 3)) (bit_and isld1 (not32 3))
        (either_lsb addr40 37 29) idx_lsb 4

-- `nfp_encode_mu`. For a mode above 3 the source shifts by a negative number before it fails; the
-- result is the same.
abbrev pub locality_direct : ℕ
locality_direct = 2

pub encode_mu : ℕ → ℕ → ℕ → Bool → ℕ → ℕ → Result ℕ
unfolding encode_basic_search
encode_mu addr dest_island mode addr40 isld1 isld0 =
    let locality_lsb = either_lsb addr40 38 30 in
    let da = bit_and (addr >>> locality_lsb) 3 == locality_direct in
    let idx_lsb = either_lsb addr40 37 29 in
    let direct = λ (a : ℕ). ok (put_island a (either_lsb addr40 32 24) dest_island) in
    if mode == 0
    then direct addr
    else if mode == 1
    then (if da then direct addr else put_index addr dest_island idx_lsb isld1 isld0)
    else if mode == 2
    then (if da
        then direct addr
        else encode_basic_search addr dest_island (bit_and isld0 (not32 1))
            (bit_and isld1 (not32 1)) (either_lsb addr40 36 28) idx_lsb 2)
    else if mode == 3
    then (if ltb 0 dest_island && (ltb dest_island 24 || ltb 26 dest_island)
        then direct (bit_or addr (locality_direct <<< locality_lsb))
        else if da
        then direct addr
        else encode_basic_search addr dest_island (bit_and isld0 (not32 3))
            (bit_and isld1 (not32 3)) (either_lsb addr40 35 27) idx_lsb 4)
    else err einval

abbrev pub basic_target : ℕ → Bool
basic_target cpp_tgt =
    cpp_tgt == target_nbi
    || cpp_tgt == target_qdr
    || cpp_tgt == target_ila
    || cpp_tgt == target_pcie
    || cpp_tgt == target_arm
    || cpp_tgt == target_crypto
    || cpp_tgt == target_cls

pub addr_encode : ℕ → ℕ → ℕ → ℕ → Bool → ℕ → ℕ → Result ℕ
unfolding encode_basic encode_mu
addr_encode addr dest_island cpp_tgt mode addr40 isld1 isld0 =
    if basic_target cpp_tgt
    then encode_basic addr dest_island cpp_tgt mode addr40 isld1 isld0
    else if cpp_tgt == target_mu
    then encode_mu addr dest_island mode addr40 isld1 isld0
    else if cpp_tgt == target_ct_xpb
    then (if not (mode == 1) || addr40
        then err einval
        else ok (
            bit_or (bit_and addr (not64 (genmask 29 24)))
              (bit_and (dest_island <<< 24) (genmask 29 24))))
    else err einval

-- What `nfp_target_cpp` writes through its pointers.
pub record Translated : Type 0 where
  pub target_id : ℕ
  pub address : ℕ

abbrev pub with_id : ℕ → Result ℕ → Result Translated
with_id id (ok address) = ok (record { target_id = id; address = address })
with_id id (err e) = err e

-- The fields of an entry of the IMB table.
abbrev pub imb_mode : ℕ → ℕ
imb_mode imb = bit_and (imb >>> 13) 7

abbrev pub imb_addr40 : ℕ → Bool
imb_addr40 imb = bit_and (imb >>> 12) 1 == 1

abbrev pub imb_isld1 : ℕ → ℕ
imb_isld1 imb = bit_and (imb >>> 6) 0x3f

abbrev pub imb_isld0 : ℕ → ℕ
imb_isld0 imb = bit_and (imb >>> 0) 0x3f

-- The IMB table is absent or a function of the target.
pub translate : ℕ → ℕ → Option (ℕ → ℕ) → Result Translated
unfolding addr_encode
translate id address none = err einval
translate id address (some imb_table) =
    let imb = imb_table (target_of id) in
    with_id (cpp_id (target_of id) (action_of id) (token_of id)) (
      addr_encode address (island_of id) (target_of id) (imb_mode imb) (imb_addr40 imb)
        (imb_isld1 imb) (imb_isld0 imb))

unfoldable pub target_cpp : ℕ → ℕ → Option (ℕ → ℕ) → Result Translated
unfolding translate
target_cpp cpp_island_id cpp_island_address imb_table =
    if leb 16 (target_of cpp_island_id)
    then err einval
    else if island_of cpp_island_id == 0
    then ok (record { target_id = cpp_island_id; address = cpp_island_address })
    else translate cpp_island_id cpp_island_address imb_table
