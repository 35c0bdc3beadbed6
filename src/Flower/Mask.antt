-- ===== src/Flower/Mask.antt =====
-- The mask identifiers of src/flower/metadata.c, and the table of the masks in use. `hash` stands for
-- the value of `jhash` on a mask, and `now` for `ktime_get`.
pub mod Conserved
pub mod Counts
pub mod Sequence
use nfp_drv_kmods.Base.{
  ℕ, ◌+◌, ◌-◌, ◌%◌, ◌^◌, Bool, true, false, not, ltb, ◌==◌, if◌then◌else◌, Option, none, some, List,
  [], ◌∷◌, update, bit_or, u32, Errno, enobufs, enoent, enomem, Result, ok, err,
}
use nfp_drv_kmods.Flower.Ring.{Ring, circ_space, put, drop_first, is_empty}

-- `struct nfp_mask_id_table`, less its link.
pub record Entry : Type 0 where
  pub hash_key : ℕ
  pub ref_cnt : ℕ
  pub mask_id : ℕ

-- `struct nfp_fl_mask_id` and the table.
pub record Masks : Type 0 where
  pub ring : Ring
  pub last_used : ℕ → ℕ
  pub init_unallocated : ℕ
  pub table : List Entry

abbrev pub mask_entry_rs : ℕ
mask_entry_rs = 256

abbrev pub reuse_time_ns : ℕ
reuse_time_ns = 40000

abbrev pub flag_manage_mask : ℕ
flag_manage_mask = 2 ^ 7

pub release_mask_id : ℕ → Masks → ℕ → Option Errno × Masks
release_mask_id now m id =
    if circ_space m.ring.head m.ring.tail mask_entry_rs == 0 then (some enobufs, m) else (
      none,
      record m { ring = put mask_entry_rs m.ring id; last_used = update m.last_used id now },
    )

pub mask_alloc : ℕ → Masks → Result ℕ × Masks
mask_alloc now m =
    let temp = m.ring.buf m.ring.tail in
    if ltb 0 m.init_unallocated
    then (ok m.init_unallocated, record m { init_unallocated = m.init_unallocated - 1 })
    else if is_empty m.ring
    then (err enoent, m)
    else if ltb now (m.last_used temp + reuse_time_ns)
    then (err enoent, m)
    else (ok temp, record m { ring = drop_first mask_entry_rs m.ring (mask_entry_rs - 1) })

-- The end of `nfp_add_mask_table`; `room` says that `kmalloc` gives memory.
pub enter : Bool → ℕ → ℕ → Result ℕ × Masks → Result ℕ × Masks
enter room now hash (err e, m) = (err enoent, m)
enter room now hash (ok id, m) = if not room then (err enomem, (release_mask_id now m id).1) else (
  ok id,
  record m { table = record { hash_key = hash; ref_cnt = 1; mask_id = id } ∷ m.table },
)

pub add_mask_table : Bool → ℕ → Masks → ℕ → Result ℕ × Masks
unfolding enter
add_mask_table room now m hash = enter room now hash (mask_alloc now m)

unfoldable pub search_mask_table : List Entry → ℕ → Option Entry
search_mask_table [] hash = none
search_mask_table (e ∷ t) hash =
    let rest = search_mask_table t hash in if e.hash_key == hash then some e else rest

-- A new count for the first entry with this hash.
pub set_count : List Entry → ℕ → ℕ → List Entry
set_count [] hash n = []
set_count (e ∷ t) hash n =
    if e.hash_key == hash then record e { ref_cnt = n } ∷ t else e ∷ set_count t hash n

-- `hash_del` of the first entry with this hash.
pub hash_del : List Entry → ℕ → List Entry
hash_del [] hash = []
hash_del (e ∷ t) hash = if e.hash_key == hash then t else e ∷ hash_del t hash

-- The mask identifier and the flags.
pub record Given : Type 0 where
  pub mask_id : ℕ
  pub flags : ℕ

-- `nfp_check_mask_add` where no entry was found.
abbrev pub managed : ℕ → Result ℕ × Masks → Option Given × Masks
managed flags (err e, m) = (none, m)
managed flags (ok id, m) =
    (some (record { mask_id = id; flags = bit_or flags flag_manage_mask }), m)

-- `nfp_check_mask_add`, with `nfp_find_in_mask_table`.
pub check_mask_add : Bool → ℕ → Masks → ℕ → ℕ → Option Given × Masks
unfolding add_mask_table
check_mask_add room now m hash flags = elim (search_mask_table m.table hash) [
  | some e ↦ (
    some (record { mask_id = e.mask_id; flags = flags }),
    record m { table = set_count m.table hash (u32 (e.ref_cnt + 1)) },
  )
  | none ↦ managed flags (add_mask_table room now m hash)
]

-- `nfp_check_mask_remove`. The flags are left out where the source passes NULL: the caller drops them.
pub check_mask_remove : ℕ → Masks → ℕ → ℕ → Option Given × Masks
check_mask_remove now m hash flags = elim (search_mask_table m.table hash) [
  | none ↦ (none, m)
  | some e ↦
      let n = u32 (e.ref_cnt + (2 ^ 32 - 1)) in
      if n == 0
      then (
        some (record { mask_id = e.mask_id; flags = bit_or flags flag_manage_mask }),
        (release_mask_id now (record m { table = hash_del m.table hash }) e.mask_id).1,
      )
      else (
        some (record { mask_id = e.mask_id; flags = flags }),
        record m { table = set_count m.table hash n },
      )
]
