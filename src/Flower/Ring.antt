-- ===== src/Flower/Ring.antt =====
-- The free lists of src/flower/metadata.c: a `struct circ_buf` of identifiers, whose size is a power
-- of two.
pub mod Queue
use nfp_drv_kmods.Base.{
  ℕ, zero, suc, ◌+◌, ◌-◌, ◌*◌, ◌%◌, ◌^◌, ◌≤◌, ◌<◌, ◌≡◌, ◌∙◌, ap, refl, List, [], ◌∷◌, bit_and,
  bit_and_mask, update, ltb, leb, ◌==◌, if◌then◌else◌, arith, Bool, pow-pos,
}

pub record Ring : Type 0 where
  pub buf : ℕ → ℕ
  pub head : ℕ
  pub tail : ℕ

-- `CIRC_SPACE` on 32 bits.
unfoldable pub circ_space : ℕ → ℕ → ℕ → ℕ
circ_space head tail size = bit_and (tail + 2 ^ 32 - (head + 1)) (size - 1)

-- The step of an index.
unfoldable pub step : ℕ → ℕ → ℕ
step size i = bit_and (i + 1) (size - 1)

-- The write at the head, where there is space.
unfoldable pub put : ℕ → Ring → ℕ → Ring
put size ring id = record ring { buf = update ring.buf ring.head id; head = step size ring.head }

-- The read at the tail, where `freed` is left.
unfoldable pub drop_first : ℕ → Ring → ℕ → Ring
drop_first size ring freed = record ring {
  buf = update ring.buf ring.tail freed;
  tail = step size ring.tail;
}

unfoldable pub is_empty : Ring → Bool
is_empty ring = ring.head == ring.tail

-- The indices of a ring of 2 ^ k entries, with k at most 31.
pub record IsValid (k : ℕ) (ring : Ring) : Type 0 where
  pub head : ring.head < 2 ^ k
  pub tail : ring.tail < 2 ^ k
