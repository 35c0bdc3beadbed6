-- ===== src/Flower/Stats.antt =====
-- The statistics identifiers of src/flower/metadata.c, and the counters that the firmware reports.
pub mod Conserved
use nfp_drv_kmods.Base.{
  ℕ, ◌+◌, ◌-◌, ◌*◌, ◌%◌, ◌^◌, ◌/◌, Bool, true, false, not, ltb, ◌==◌, if◌then◌else◌, Option, none,
  some, List, [], ◌∷◌, update, bit_and, bit_or, ◌<<<◌, u32, u64, Errno, enobufs, enoent, Result, ok,
  err,
}
use nfp_drv_kmods.Flower.Ring.{Ring, circ_space, put, drop_first, is_empty}

-- `struct nfp_fl_stats_id`, and what `nfp_flower_priv` has of it.
pub record Stats : Type 0 where
  pub ring : Ring
  pub init_unalloc : ℕ
  pub active_mem_unit : ℕ
  pub total_mem_units : ℕ
  pub ring_size : ℕ

pub release_stats_entry : Stats → ℕ → Option Errno × Stats
release_stats_entry s id =
    if circ_space s.ring.head s.ring.tail s.ring_size == 0
    then (some enobufs, s)
    else (none, record s { ring = put s.ring_size s.ring id })

-- `FIELD_PREP(NFP_FL_STAT_ID_STAT, stat) | FIELD_PREP(NFP_FL_STAT_ID_MU_NUM, mu)`.
pub stat_id : ℕ → ℕ → ℕ
stat_id stat mu = bit_or (bit_and (stat <<< 0) (2 ^ 22 - 1)) (bit_and (mu <<< 22) (1023 * 2 ^ 22))

-- The end of the entries that were never given.
abbrev pub next_mem_unit : Stats → Stats
next_mem_unit s =
    if s.active_mem_unit + 1 == s.total_mem_units
    then record s { init_unalloc = s.init_unalloc - 1; active_mem_unit = 0 }
    else record s { active_mem_unit = s.active_mem_unit + 1 }

pub get_stats_entry : Stats → Result ℕ × Stats
get_stats_entry s =
    if ltb 0 s.init_unalloc
    then (ok (stat_id (s.init_unalloc - 1) s.active_mem_unit), next_mem_unit s)
    else if is_empty s.ring
    then (err enoent, s)
    else (
      ok (s.ring.buf s.ring.tail),
      record s { ring = drop_first s.ring_size s.ring s.ring_size },
    )

-- `struct nfp_fl_stats`.
pub record Counters : Type 0 where
  pub pkts : ℕ
  pub bytes : ℕ
  pub used : ℕ

-- `struct nfp_fl_stats_frame` in host order.
pub record Frame : Type 0 where
  pub stats_con_id : ℕ
  pub pkt_count : ℕ
  pub byte_count : ℕ

-- `nfp_flower_rx_flow_stats` on the whole frames of a message.
pub rx_flow_stats : ℕ → List Frame → (ℕ → Counters) → ℕ → Counters
rx_flow_stats jiffies [] stats = stats
rx_flow_stats jiffies (f ∷ frames) stats =
    let old = stats f.stats_con_id in
    rx_flow_stats jiffies frames (
      update stats f.stats_con_id (record {
        pkts = u64 (old.pkts + f.pkt_count);
        bytes = u64 (old.bytes + f.byte_count);
        used = jiffies;
      }))
