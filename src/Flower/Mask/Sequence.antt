-- ===== src/Flower/Mask/Sequence.antt =====
-- Sequences of flows that take and give back mask identifiers (src/flower/metadata.c).
use nfp_drv_kmods.Base.{ℕ, ◌+◌, ◌≡◌, Bool, List, [], ◌∷◌, refl, arith}
use nfp_drv_kmods.Flower.Ring.{Ring}
use nfp_drv_kmods.Flower.Ring as R
use nfp_drv_kmods.Flower.Ring.Queue.{contents, is_empty-contents}
use nfp_drv_kmods.Flower.Mask.{Masks, check_mask_add, check_mask_remove}
use nfp_drv_kmods.Flower.Mask.Conserved.{
  ids, count, unallocated, IsValid, check_mask_add-IsValid, check_mask_remove-IsValid,
}

-- The memory and the time are as they come.
pub data Op : Type 0 where
  add : Bool → ℕ → ℕ → ℕ → Op
  remove : ℕ → ℕ → ℕ → Op

pub run : Masks → List Op → Masks
run m [] = m
run m (add room now hash flags ∷ ops) = run (check_mask_add room now m hash flags).1 ops
run m (remove now hash flags ∷ ops) = run (check_mask_remove now m hash flags).1 ops

-- `nfp_flower_metadata_init`, with what memory `kmalloc` gives.
abbrev pub initial : (ℕ → ℕ) → (ℕ → ℕ) → Masks
initial buf last_used = record {
  ring = record { buf = buf; head = 0; tail = 0 };
  last_used = last_used;
  init_unallocated = 255;
  table = [];
}

initial-IsValid : (buf last_used : ℕ → ℕ) → IsValid (initial buf last_used)
unfolding R.is_empty
initial-IsValid buf last_used =
    let ring : R.IsValid 8 (initial buf last_used).ring = record {
      head = omega arith;
      tail = omega arith;
    } in
    let none_free = is_empty-contents 8 ((initial buf last_used).ring) ring refl in
    record {
      ring = ring;
      once = λ id. rw none_free (omega arith);
      total = rw none_free (omega arith);
    }

run-IsValid : (ops : List Op) (m : Masks) → IsValid m → IsValid (run m ops)
unfolding run
run-IsValid [] m v = v
run-IsValid (add room now hash flags ∷ ops) m v =
    run-IsValid ops _ (check_mask_add-IsValid room now m hash flags v)
run-IsValid (remove now hash flags ∷ ops) m v =
    run-IsValid ops _ (check_mask_remove-IsValid now m hash flags v)

-- After any sequence of `nfp_check_mask_add` and `nfp_check_mask_remove` from the state that
-- `nfp_flower_metadata_init` leaves, each mask identifier from 1 to 255 is in one place only, the
-- free list, an entry of the table or those never given, and no other is in the first two.
pub run_once :
    (buf last_used : ℕ → ℕ) (ops : List Op) (id : ℕ)
    → count id (contents 256 (run (initial buf last_used) ops).ring)
        + count id (ids (run (initial buf last_used) ops).table)
        + unallocated (run (initial buf last_used) ops).init_unallocated id
      ≡ unallocated 255 id
run_once buf last_used ops id =
    (run-IsValid ops (initial buf last_used) (initial-IsValid buf last_used)).once id
