-- ===== src/Target/Encode/Translate.antt =====
-- `nfp_target_cpp` (src/nfpcore/nfp_target.c): what becomes of the identifier and of the address.
use nfp_drv_kmods.Base.{
  ℕ, ◌^◌, ◌<◌, ◌≡◌, ◌≢◌, sym, ap, true, false, not, ◌&&◌, some, leb, Bool-cases, inl, inr, ==-no,
  ◌==◌, Result, ok, err, einval, ok-injective,
}
use nfp_drv_kmods.Cpp.{cpp_id, target_of, action_of, token_of, island_of, target_qdr}
use nfp_drv_kmods.Cpp.Fields.{cpp_id_fields, target_of-lt, action_of-lt, token_of-lt}
use nfp_drv_kmods.Target.Encode.{
  basic_target, addr_encode, decode_basic, Translated, with_id, imb_mode, imb_addr40, imb_isld1,
  imb_isld0, translate, target_cpp,
}
use nfp_drv_kmods.Target.Encode.RoundTrip.{decode_basic-encode_basic}

-- The identifier `r` names the same target, action and token as `id`, and no island.
pub record SameCommand (id r : ℕ) : Type 0 where
  pub target : target_of r ≡ target_of id
  pub action : action_of r ≡ action_of id
  pub token : token_of r ≡ token_of id
  pub island : island_of r ≡ 0

repacked-SameCommand :
    (id : ℕ) → SameCommand id (cpp_id (target_of id) (action_of id) (token_of id))
repacked-SameCommand id =
    let f =
      cpp_id_fields (target_of id) (action_of id) (token_of id) (target_of-lt id) (action_of-lt id)
        (token_of-lt id) in
    record { target = f.0; action = f.1; token = f.2; island = f.3 }

with_id-ok :
    (id : ℕ) (o : Result ℕ) {r : Translated}
    → with_id id o ≡ ok r
    → (o ≡ ok r.address) × (r.target_id ≡ id)
with_id-ok id (ok a) h =
    let e = ok-injective h in (ap (λ t. ok t.address) e, ap (λ t. t.target_id) (sym e))
with_id-ok id (err e) h = cc

module _ (id addr : ℕ) (imb_table : ℕ → ℕ) (r : Translated) where
  abbrev imb : ℕ
  imb = imb_table (target_of id)

  reaches :
      island_of id ≢ 0
      → target_cpp id addr (some imb_table) ≡ ok r
      → (addr_encode addr
            (island_of id)
            (target_of id)
            (imb_mode imb)
            (imb_addr40 imb)
            (imb_isld1 imb)
            (imb_isld0 imb)
          ≡ ok r.address)
        × SameCommand id r.target_id
  unfolding target_cpp translate
  reaches away h = elim (Bool-cases (leb 16 (target_of id))) [
    | inl bad ↦ absurd (wrong (rw bad at h))
    | inr good ↦
        let w = with_id-ok _ _ (rw (good, ==-no _ _ away) at h) in
        (w.0, rw w.1 (repacked-SameCommand id))
  ]
    where
      wrong : err einval ≡ ok r → ⊥
      wrong e = cc

  -- A command for an island (from 1 to 63) of a target that `nfp_encode_basic` serves, but for
  -- 32-bit addresses of QDR, is translated, if at all, into one for the same target, action and
  -- token with no island, at an address that decodes to the island under the table's entry.
  pub target_cpp-decode :
      addr < 2 ^ 64
      → island_of id ≢ 0
      → island_of id < 64
      → basic_target (target_of id) ≡ true
      → (target_of id == target_qdr && not (imb_addr40 imb)) ≡ false
      → target_cpp id addr (some imb_table) ≡ ok r
      → (decode_basic r.address
            (target_of id)
            (imb_mode imb)
            (imb_addr40 imb)
            (imb_isld1 imb)
            (imb_isld0 imb)
          ≡ ok (island_of id))
        × SameCommand id r.target_id
  unfolding addr_encode
  target_cpp-decode wide away small basic free h =
      let (encoded, command) = reaches away h in
      (
        decode_basic-encode_basic addr (island_of id) (target_of id) (imb_mode imb) (imb_addr40 imb)
            (imb_isld1 imb) (imb_isld0 imb) wide small free (rw basic at encoded),
        command,
      )
