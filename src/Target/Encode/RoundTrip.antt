-- ===== src/Target/Encode/RoundTrip.antt =====
-- `nfp_decode_basic` and `nfp_encode_basic` (src/nfpcore/nfp_target.c) against each other: what is
-- encoded decodes to the island, but for the 32-bit addresses of QDR, which are only compared with
-- the number of the target.
use native.Mathlib.Decide.{ℕ_discrete}
use nfp_drv_kmods.Base.{
  ℕ, zero, suc, ◌/◌, ◌^◌, ◌<◌, ◌≡◌, ◌≢◌, ◌↔◌, inl, inr, ◌∙◌, sym, ap, refl, Bool, true, false, not,
  ◌&&◌, Bool-cases, lt→ltb, ltb-no, ==-yes, ==-no, ◌==◌, if◌then◌else◌, Result, ok, err,
  ok-injective, einval, bit_and, arith,
}
use nfp_drv_kmods.Cpp.{target_qdr, target_mu, target_ct_xpb}
use nfp_drv_kmods.Target.Encode.{either_lsb, handled, decode_basic, encode_basic_qdr, encode_basic}
use nfp_drv_kmods.Target.Encode.Basic.{
  search_decode-2, search_decode-3, index_decode, island_decode,
}

-- The modes, for a target that both functions handle and an address whose bits may be changed.
module _ (addr dest cpp_tgt : ℕ) (addr40 : Bool) (isld1 isld0 a : ℕ) (wide : addr < 2 ^ 64)
    (small : dest < 64) (free : (cpp_tgt == target_qdr && not addr40) ≡ false)
    (known : handled cpp_tgt ≡ true) where
  mode_decode :
      (mode : ℕ)
      → encode_basic addr dest cpp_tgt mode addr40 isld1 isld0 ≡ ok a
      → decode_basic a cpp_tgt mode addr40 isld1 isld0 ≡ ok dest
  unfolding encode_basic decode_basic
  mode_decode zero h =
      let same = ok-injective (rw (known, free) at h) in
      rw (known) (
        ap ok (
          ap (λ (t : ℕ). bit_and (t / 2 ^ either_lsb addr40 34 26) 0x3f) (sym same)
          ∙ island_decode addr dest isld1 isld0 a wide addr40 small))
  mode_decode (suc zero) h =
      rw known (ap ok (index_decode addr dest isld1 isld0 a wide addr40 (rw (known, free) at h)))
  mode_decode (suc (suc zero)) h =
      rw known (ap ok (search_decode-2 addr dest isld1 isld0 a wide addr40 (rw (known, free) at h)))
  mode_decode (suc (suc (suc zero))) h =
      rw known (ap ok (search_decode-3 addr dest isld1 isld0 a wide addr40 (rw (known, free) at h)))
  mode_decode (suc (suc (suc (suc mode)))) h =
      absurd (wrong (rw (known, lt→ltb 3 (suc (suc (suc (suc mode)))) (omega arith)) at h))
    where
      wrong : err einval ≡ ok a → ⊥
      wrong e = cc

-- An address that `nfp_encode_basic` makes for an island below 64 decodes to that island, in each
-- mode and for each target, but for the 32-bit addresses of QDR, which it does not change.
pub decode_basic-encode_basic :
    (addr dest cpp_tgt mode : ℕ) (addr40 : Bool) (isld1 isld0 : ℕ) {a : ℕ}
    → addr < 2 ^ 64
    → dest < 64
    → (cpp_tgt == target_qdr && not addr40) ≡ false
    → encode_basic addr dest cpp_tgt mode addr40 isld1 isld0 ≡ ok a
    → decode_basic a cpp_tgt mode addr40 isld1 isld0 ≡ ok dest
decode_basic-encode_basic addr dest cpp_tgt mode addr40 isld1 isld0 {a} wide small free h =
    elim (Bool-cases (handled cpp_tgt)) [
      | inl known ↦ mode_decode addr dest cpp_tgt addr40 isld1 isld0 a wide small free known mode h
      | inr unknown ↦ absurd (wrong (unfold encode_basic in rw unknown at h))
    ]
  where
    wrong : err einval ≡ ok a → ⊥
    wrong e = cc

qdr_check :
    (x addr : ℕ)
    → ((if not (target_qdr == x) then err einval else ok addr) ≡ ok addr)
      ↔ (◌≡◌ {A = Result ℕ} (ok x) (ok target_qdr))
qdr_check x addr = elim (ℕ_discrete target_qdr x) [
  | yes e ↦ rw (==-yes _ _ e) ((λ h. ap ok (sym e)), (λ h. refl))
  | no ne ↦ rw (==-no _ _ ne) ((λ h. cc), (λ h. absurd (ne (sym (ok-injective h)))))
]

decode_basic-total :
    (addr mode isld1 isld0 : ℕ)
    → mode < 4
    → (x : ℕ) × (decode_basic addr target_qdr mode false isld1 isld0 ≡ ok x)
unfolding decode_basic
decode_basic-total addr zero isld1 isld0 h = (_, refl)
decode_basic-total addr (suc zero) isld1 isld0 h = (_, refl)
decode_basic-total addr (suc (suc zero)) isld1 isld0 h = (_, refl)
decode_basic-total addr (suc (suc (suc zero))) isld1 isld0 h = (_, refl)
decode_basic-total addr (suc (suc (suc (suc mode)))) isld1 isld0 h = absurd (omega arith)

decode_basic-target :
    (addr t mode isld1 isld0 : ℕ)
    → handled t ≡ true
    → decode_basic addr t mode false isld1 isld0
      ≡ decode_basic addr target_qdr mode false isld1 isld0
unfolding decode_basic
decode_basic-target addr t mode isld1 isld0 known = rw known refl

-- For a 32-bit address of QDR in the modes 0 to 3, `nfp_encode_basic` succeeds exactly when the
-- address decodes to the island 2, which is the number of the target, whatever island other than 7
-- and 14 was asked for.
pub encode_basic_qdr_ignores :
    (addr dest mode isld1 isld0 : ℕ)
    → mode < 4
    → dest ≢ target_mu
    → dest ≢ target_ct_xpb
    → (encode_basic addr dest target_qdr mode false isld1 isld0 ≡ ok addr)
      ↔ (decode_basic addr target_qdr mode false isld1 isld0 ≡ ok target_qdr)
unfolding encode_basic encode_basic_qdr
encode_basic_qdr_ignores addr dest mode isld1 isld0 h not_mu not_xpb =
    let (x, e) = decode_basic-total addr mode isld1 isld0 h in
    let known : handled dest ≡ true = rw (==-no _ _ not_mu, ==-no _ _ not_xpb) in
    let decoded = decode_basic-target addr dest mode isld1 isld0 known ∙ e in
    rw (ltb-no 3 mode (omega arith), decoded, e, encode_basic_qdr) (qdr_check x addr)
