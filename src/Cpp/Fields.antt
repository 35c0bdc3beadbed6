-- ===== src/Cpp/Fields.antt =====
-- The fields of a CPP identifier are what it was packed from.
use nfp_drv_kmods.Base.{
  ℕ, ◌+◌, ◌*◌, ◌/◌, ◌%◌, ◌^◌, ◌<◌, ◌≡◌, ◌∙◌, ap, bit_or, bit_and_mask, bit_or_below, refl, arith,
}
use nfp_drv_kmods.Cpp.{cpp_id, target_of, token_of, action_of, island_of}

fields_sum :
    (t k a : ℕ)
    → t < 128
    → k < 256
    → a < 256
    → bit_or (bit_or (t * 2 ^ 24) (k * 2 ^ 16)) (a * 2 ^ 8) ≡ t * 2 ^ 24 + k * 2 ^ 16 + a * 2 ^ 8
fields_sum t k a ht hk ha =
    ap (λ (x : ℕ). bit_or x (a * 2 ^ 8))
      (bit_or_below 24 t (t * 2 ^ 24) (k * 2 ^ 16) refl (omega arith))
    ∙ bit_or_below 16 (t * 2 ^ 8 + k) (t * 2 ^ 24 + k * 2 ^ 16) (a * 2 ^ 8) (omega arith)
        (omega arith)

pub cpp_id_sum :
    (target action token : ℕ)
    → cpp_id target action token
      ≡ (target % 128) * 2 ^ 24 + (token % 256) * 2 ^ 16 + (action % 256) * 2 ^ 8
unfolding cpp_id
cpp_id_sum target action token =
    rw (bit_and_mask 7 target, bit_and_mask 8 token, bit_and_mask 8 action)
      (fields_sum (target % 128) (token % 256) (action % 256) (omega arith) (omega arith)
        (omega arith))

-- Packing a target, an action and a token into a CPP identifier and unpacking gives them back, and
-- no island, for a target below 32 and bytes.
pub cpp_id_fields :
    (target action token : ℕ)
    → target < 32
    → action < 256
    → token < 256
    → (target_of (cpp_id target action token) ≡ target)
      × (action_of (cpp_id target action token) ≡ action)
      × (token_of (cpp_id target action token) ≡ token)
      × (island_of (cpp_id target action token) ≡ 0)
unfolding target_of action_of token_of island_of
cpp_id_fields target action token ht ha hk =
    let sum = cpp_id_sum target action token in
    let id = cpp_id target action token in
    (
      omega (arith, sum, bit_and_mask 5 (id / 2 ^ 24)),
      omega (arith, sum, bit_and_mask 8 (id / 2 ^ 8)),
      omega (arith, sum, bit_and_mask 8 (id / 2 ^ 16)),
      omega (arith, sum, bit_and_mask 8 (id / 2 ^ 0)),
    )

pub target_of-lt : (id : ℕ) → target_of id < 32
unfolding target_of
target_of-lt id = omega (arith, bit_and_mask 5 (id / 2 ^ 24))

pub token_of-lt : (id : ℕ) → token_of id < 256
unfolding token_of
token_of-lt id = omega (arith, bit_and_mask 8 (id / 2 ^ 16))

pub action_of-lt : (id : ℕ) → action_of id < 256
unfolding action_of
action_of-lt id = omega (arith, bit_and_mask 8 (id / 2 ^ 8))
