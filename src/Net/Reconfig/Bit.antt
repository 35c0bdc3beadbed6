-- ===== src/Net/Reconfig/Bit.antt =====
-- Requests that src/nfp_net_common.c keeps in words, each a bit of them.
use nfp_drv_kmods.Base.{ℕ, ◌≡◌, refl, max, List, [], ◌∷◌, bit}

-- Whether a bit is set in one of the words.
pub some_bit : ℕ → List ℕ → ℕ
some_bit k [] = 0
some_bit k (x ∷ xs) = max (bit k x) (some_bit k xs)

pub some_bit-cons : (k x : ℕ) (xs : List ℕ) → some_bit k (x ∷ xs) ≡ max (bit k x) (some_bit k xs)
unfolding some_bit
some_bit-cons k x xs = refl

pub some_bit-nil : (k : ℕ) → some_bit k [] ≡ 0
unfolding some_bit
some_bit-nil k = refl
