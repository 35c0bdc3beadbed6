-- ===== src/Flower/Metadata/Cookie.antt =====
-- The duplicate check of `nfp_compile_flow_metadata` (src/flower/metadata.c) sees 32 bits of a
-- cookie.
use nfp_drv_kmods.Base.{
  ℕ, ◌^◌, ◌≤◌, ◌<◌, ◌≡◌, ◌≢◌, Option, none, some, List, [], ◌∷◌, u32, eexist, Result, ok, err,
  Bool-cases, inl, inr, arith, refl,
}
use nfp_drv_kmods.Flower.Mask.{Masks, Given, check_mask_add}
use nfp_drv_kmods.Flower.Stats.{Stats, get_stats_entry}
use nfp_drv_kmods.Flower.Stats.Conserved.{get_stats_code}
use nfp_drv_kmods.Flower.Metadata.{
  Flow, Priv, Env, search_fl_table, release_stats, remove_rhash, finish_flow, with_mask, add_mask,
  with_stats, compile_flow_metadata,
}

-- The cookies of all flows have more than 32 bits, as those that are addresses on 64 bits have.
abbrev pub AllWide : List Flow → Type 0
AllWide [] = Unit {0}
AllWide (f ∷ t) = (2 ^ 32 ≤ f.tc_flower_cookie) × AllWide t

search_wide :
    (t : List Flow) (cookie netdev : ℕ)
    → AllWide t
    → cookie < 2 ^ 32
    → search_fl_table t cookie netdev ≡ none
unfolding search_fl_table
search_wide [] cookie netdev wide small = refl
search_wide (f ∷ t) cookie netdev wide small =
    ground (arith, search_wide t cookie netdev wide.1 small)

finish_code :
    (env : Env) (ctx cookie netdev id : ℕ) (priv : Priv) (flow : Flow)
    → search_fl_table priv.flow_table cookie netdev ≡ none
    → (finish_flow env ctx cookie netdev id priv flow).code ≡ none
unfolding finish_flow
finish_code env ctx cookie netdev id priv flow free = rw (free, finish_flow) refl

with_mask_code :
    (env : Env) (ctx cookie netdev : ℕ) (priv : Priv) (flow : Flow) (r : Option Given × Masks)
    → search_fl_table priv.flow_table cookie netdev ≡ none
    → (with_mask env ctx cookie netdev priv flow r).code ≢ some eexist
unfolding with_mask remove_rhash release_stats
with_mask_code env ctx cookie netdev priv flow (none, masks) free h = cc
with_mask_code env ctx cookie netdev priv flow (some g, masks) free h = cc (
    finish_code env ctx cookie netdev g.mask_id (record priv { masks = masks })
      (record flow { flags = g.flags }) free)

add_mask_code :
    (env : Env) (ctx cookie netdev : ℕ) (priv : Priv) (flow : Flow)
    → search_fl_table priv.flow_table cookie netdev ≡ none
    → (add_mask env ctx cookie netdev priv flow).code ≢ some eexist
unfolding add_mask
add_mask_code env ctx cookie netdev priv flow free = elim (Bool-cases flow.pre_tun_rule) [
  | inl on ↦ simp on (λ h. cc (finish_code env ctx cookie netdev 0 priv flow free))
  | inr off ↦ simp off (
      with_mask_code env ctx cookie netdev priv flow
        (check_mask_add env.mask_room env.now priv.masks flow.mask_hash flow.flags) free)
]

with_stats_code :
    (env : Env) (cookie netdev : ℕ) (priv : Priv) (flow : Flow) (r : Result ℕ × Stats)
    → search_fl_table priv.flow_table cookie netdev ≡ none
    → r.0 ≢ err eexist
    → (with_stats env cookie netdev priv flow r).code ≢ some eexist
unfolding with_stats release_stats
with_stats_code env cookie netdev priv flow (err e, s) free other = λ h. other (cc)
with_stats_code env cookie netdev priv flow (ok ctx, s) free other =
    elim (Bool-cases env.ctx_room) [
      | inr no_room ↦ simp no_room (λ h. cc)
      | inl room ↦ simp room (elim (Bool-cases env.inserted) [
        | inr refused ↦ simp refused (λ h. cc)
        | inl entered ↦ simp entered (add_mask_code env ctx cookie netdev _ _ free)
      ])
    ]

-- Where all flows have cookies of more than 32 bits, `nfp_compile_flow_metadata` reports no flow as
-- a duplicate, whether or not the table has one with the same cookie and device.
pub compile_no_duplicate :
    (env : Env) (cookie netdev : ℕ) (priv : Priv) (flow : Flow)
    → AllWide priv.flow_table
    → (compile_flow_metadata env cookie netdev priv flow).code ≢ some eexist
unfolding compile_flow_metadata
compile_no_duplicate env cookie netdev priv flow wide =
    with_stats_code env (u32 cookie) netdev priv flow (get_stats_entry priv.stats_ids)
      (search_wide priv.flow_table (u32 cookie) netdev wide (omega arith))
      (get_stats_code priv.stats_ids)
