-- ===== src/Flower/Metadata.antt =====
-- A flow takes a statistics identifier and a mask identifier, and gives them back
-- (src/flower/metadata.c). The tables of `rhashtable` are lists, and what memory there is is a
-- parameter.
pub mod Cookie
pub mod Unwind
mod Tests
use nfp_drv_kmods.Base.{
  ℕ, ◌+◌, ◌-◌, ◌^◌, Bool, true, false, not, ◌&&◌, ◌||◌, ◌==◌, if◌then◌else◌, Option, none, some,
  List, [], ◌∷◌, update, bit_and, u8, u32, u64, Errno, enoent, enomem, eexist, Result, ok, err,
}
use nfp_drv_kmods.Flower.Mask.{Masks, Given, check_mask_add, check_mask_remove}
use nfp_drv_kmods.Flower.Stats.{Stats, Counters, release_stats_entry, get_stats_entry}

-- What `struct nfp_fl_payload` has of the metadata. The mask stands by its `jhash`.
pub record Flow : Type 0 where
  pub id : ℕ
  pub tc_flower_cookie : ℕ
  pub ingress_dev : ℕ
  pub pre_tun_rule : Bool
  pub mask_hash : ℕ
  pub host_ctx_id : ℕ
  pub host_cookie : ℕ
  pub flow_version : ℕ
  pub flags : ℕ
  pub mask_id : ℕ

-- `struct nfp_fl_stats_ctx_to_flow`, with the flow by its `id`.
pub record CtxEntry : Type 0 where
  pub stats_cxt : ℕ
  pub flow : ℕ

pub record Priv : Type 0 where
  pub stats_ids : Stats
  pub masks : Masks
  pub stats_ctx_table : List CtxEntry
  pub flow_table : List Flow
  pub flower_version : ℕ
  pub stats : ℕ → Counters

-- `nfp_flower_search_fl_table`, with `nfp_fl_obj_cmpfn`.
pub search_fl_table : List Flow → ℕ → ℕ → Option Flow
search_fl_table [] cookie netdev = none
search_fl_table (f ∷ t) cookie netdev =
    let rest = search_fl_table t cookie netdev in
    if f.ingress_dev == netdev && f.tc_flower_cookie == cookie then some f else rest

pub lookup_ctx : List CtxEntry → ℕ → Option CtxEntry
lookup_ctx [] ctx = none
lookup_ctx (e ∷ t) ctx = let rest = lookup_ctx t ctx in if e.stats_cxt == ctx then some e else rest

pub remove_ctx : List CtxEntry → ℕ → List CtxEntry
remove_ctx [] ctx = []
remove_ctx (e ∷ t) ctx = if e.stats_cxt == ctx then t else e ∷ remove_ctx t ctx

-- What the kernel gives: the memory of the entry, the insertion, the memory of the mask, the clock.
pub record Env : Type 0 where
  pub ctx_room : Bool
  pub inserted : Bool
  pub mask_room : Bool
  pub now : ℕ
  pub jiffies : ℕ

-- The result of `nfp_compile_flow_metadata`: 0 or an errno, with what it leaves.
pub record Compiled : Type 0 where
  pub code : Option Errno
  pub priv : Priv
  pub flow : Flow

-- The label `err_release_stats`.
pub release_stats : Errno → ℕ → Priv → Flow → Compiled
release_stats e ctx priv flow = record {
  code = some e;
  priv = record priv { stats_ids = (release_stats_entry priv.stats_ids ctx).1 };
  flow = flow;
}

-- The label `err_remove_rhash`.
pub remove_rhash : Errno → ℕ → Priv → Flow → Compiled
unfolding release_stats
remove_rhash e ctx priv flow =
    release_stats e ctx (record priv { stats_ctx_table = remove_ctx priv.stats_ctx_table ctx }) flow

-- The label `err_remove_mask`.
pub remove_mask : Errno → Env → ℕ → Priv → Flow → Compiled
unfolding remove_rhash
remove_mask e env ctx priv flow =
    if not flow.pre_tun_rule
    then remove_rhash e ctx
        (record priv { masks = (check_mask_remove env.now priv.masks flow.mask_hash 0).1 }) flow
    else remove_rhash e ctx priv flow

-- From the new mask identifier to the end.
pub finish_flow : Env → ℕ → ℕ → ℕ → ℕ → Priv → Flow → Compiled
unfolding remove_mask
finish_flow env ctx cookie netdev new_mask_id priv flow =
    let flow' = record flow { flow_version = priv.flower_version; mask_id = new_mask_id } in
    let priv' = record priv {
      flower_version = u64 (priv.flower_version + 1);
      stats = update priv.stats ctx (record { pkts = 0; bytes = 0; used = env.jiffies });
    } in
    elim (search_fl_table priv.flow_table cookie netdev) [
      | some check_entry ↦ remove_mask eexist env ctx priv' flow'
      | none ↦ record { code = none; priv = priv'; flow = flow' }
    ]

-- What follows `nfp_check_mask_add`.
pub with_mask : Env → ℕ → ℕ → ℕ → Priv → Flow → Option Given × Masks → Compiled
unfolding finish_flow remove_rhash
with_mask env ctx cookie netdev priv flow (none, masks) =
    remove_rhash enoent ctx (record priv { masks = masks }) flow
with_mask env ctx cookie netdev priv flow (some g, masks) =
    finish_flow env ctx cookie netdev g.mask_id (record priv { masks = masks })
      (record flow { flags = g.flags })

-- What follows the insertion into `stats_ctx_table`.
pub add_mask : Env → ℕ → ℕ → ℕ → Priv → Flow → Compiled
unfolding with_mask
add_mask env ctx cookie netdev priv flow =
    if flow.pre_tun_rule
    then finish_flow env ctx cookie netdev 0 priv flow
    else with_mask env ctx cookie netdev priv flow
        (check_mask_add env.mask_room env.now priv.masks flow.mask_hash flow.flags)

-- What follows `nfp_get_stats_entry`.
pub with_stats : Env → ℕ → ℕ → Priv → Flow → Result ℕ × Stats → Compiled
unfolding add_mask release_stats
with_stats env cookie netdev priv flow (err e, s) = record {
  code = some e;
  priv = record priv { stats_ids = s };
  flow = flow;
}
with_stats env cookie netdev priv flow (ok ctx, s) =
    let flow' = record flow { host_ctx_id = ctx; host_cookie = cookie; ingress_dev = netdev } in
    let priv' = record priv { stats_ids = s } in
    if not env.ctx_room
    then release_stats enomem ctx priv' flow'
    else if not env.inserted
    then release_stats enomem ctx priv' flow'
    else add_mask env ctx cookie netdev
        (record priv' {
          stats_ctx_table = record { stats_cxt = ctx; flow = flow.id } ∷ priv.stats_ctx_table;
        })
        flow'

-- `nfp_compile_flow_metadata`. Its parameter `cookie` has 32 bits.
pub compile_flow_metadata : Env → ℕ → ℕ → Priv → Flow → Compiled
unfolding with_stats
compile_flow_metadata env cookie netdev priv flow =
    with_stats env (u32 cookie) netdev priv flow (get_stats_entry priv.stats_ids)

-- `__nfp_modify_flow_metadata`.
pub modify_version : Priv → Flow → Priv × Flow
modify_version priv flow = (
  record priv { flower_version = u64 (priv.flower_version + 1) },
  record flow { flags = bit_and flow.flags 0x7f; flow_version = priv.flower_version },
)

-- What `nfp_check_mask_remove` leaves in the flags and in `new_mask_id`.
abbrev pub flags_after : ℕ → Option Given → ℕ
flags_after flags none = flags
flags_after flags (some g) = g.flags

abbrev pub mask_id_after : Option Given → ℕ
mask_id_after none = 0
mask_id_after (some g) = g.mask_id

-- The mask in `nfp_modify_flow_metadata`.
pub drop_mask : Env → Priv → Flow → Priv × Flow
drop_mask env priv flow =
    let removed = check_mask_remove env.now priv.masks flow.mask_hash flow.flags in
    if not flow.pre_tun_rule
    then (
      record priv { masks = removed.1 },
      record flow { flags = flags_after flow.flags removed.0; mask_id = mask_id_after removed.0 },
    )
    else (priv, record flow { mask_id = 0 })

-- The rest of `nfp_modify_flow_metadata`.
pub drop_ctx : Priv × Flow → Compiled
drop_ctx (priv, flow) = elim (lookup_ctx priv.stats_ctx_table flow.host_ctx_id) [
  | none ↦ record { code = some enoent; priv = priv; flow = flow }
  | some e ↦
      let released = release_stats_entry priv.stats_ids flow.host_ctx_id in
      record {
        code = released.0;
        priv = record priv {
          stats_ctx_table = remove_ctx priv.stats_ctx_table flow.host_ctx_id;
          stats_ids = released.1;
        };
        flow = flow;
      }
]

pub modify_flow_metadata : Env → Priv → Flow → Compiled
unfolding modify_version drop_mask drop_ctx
modify_flow_metadata env priv flow =
    let (priv', flow') = modify_version priv flow in drop_ctx (drop_mask env priv' flow')

-- `nfp_flower_get_fl_payload_from_ctx`.
pub get_fl_payload_from_ctx : Priv → ℕ → Option ℕ
get_fl_payload_from_ctx priv ctx = elim (lookup_ctx priv.stats_ctx_table ctx) [
  | none ↦ none
  | some e ↦ some e.flow
]
