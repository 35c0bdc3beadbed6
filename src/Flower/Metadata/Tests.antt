-- ===== src/Flower/Metadata/Tests.antt =====
-- Runs of src/flower/metadata.c.
use nfp_drv_kmods.Base.{
  ◌+◌, ◌^◌, ◌<◌, ◌≡◌, ◌≢◌, refl, true, false, some, List, [], ◌∷◌, arith, eexist, enobufs,
}
use nfp_drv_kmods.Flower.Ring.{Ring, is_empty, put, drop_first, step, circ_space}
use nfp_drv_kmods.Flower.Ring as R
use nfp_drv_kmods.Flower.Ring.Queue.{contents, is_empty-contents}
use nfp_drv_kmods.Flower.Mask.{Masks, check_mask_add, check_mask_remove, search_mask_table}
use nfp_drv_kmods.Flower.Mask.Conserved.{count, ids, unallocated}
use nfp_drv_kmods.Flower.Mask.Counts.{
  IsTable, Began, Ended, uses, check_mask_add-Began, check_mask_remove-Ended,
}
use nfp_drv_kmods.Flower.Mask.Sequence.{Op, add, remove, run, initial, run_once}
use nfp_drv_kmods.Flower.Stats.{Stats, release_stats_entry}
use nfp_drv_kmods.Flower.Stats.Conserved as C
use nfp_drv_kmods.Flower.Metadata.{Flow, Priv, Env, compile_flow_metadata}
use nfp_drv_kmods.Flower.Metadata.Cookie.{compile_no_duplicate}
use nfp_drv_kmods.Flower.Metadata.Unwind.{Settled, compile-Settled}

abbrev masks : Masks
masks = initial (λ i. 0) (λ i. 0)

-- Two flows with one mask, one with another, and the first two again.
abbrev ops : List Op
ops = add true 0 7 0 ∷ add true 0 7 0 ∷ add true 0 8 0 ∷ remove 100 7 0 ∷ remove 200 7 0 ∷ []

run_once_example :
    count 255 (contents 256 (run masks ops).ring)
      + count 255 (ids (run masks ops).table)
      + unallocated (run masks ops).init_unallocated 255
    ≡ 1
run_once_example = run_once (λ i. 0) (λ i. 0) ops 255

no_table : IsTable []
unfolding IsTable
no_table = tt

no_uses : uses masks 7 + 1 < 2 ^ 32
unfolding search_mask_table
no_uses = omega arith

check_mask_add-Began_example : Began masks 7 0 (check_mask_add true 0 masks 7 0)
check_mask_add-Began_example = check_mask_add-Began true 0 masks 7 0 no_table no_uses

abbrev one_mask : Masks
one_mask = record masks {
  init_unallocated = 254;
  table = record { hash_key = 7; ref_cnt = 1; mask_id = 255 } ∷ [];
}

one_table : IsTable (one_mask.table)
unfolding IsTable
one_table = (refl, omega arith, omega arith, tt)

check_mask_remove-Ended_example : Ended one_mask 7 0 (check_mask_remove 5 one_mask 7 0)
check_mask_remove-Ended_example = check_mask_remove-Ended 5 one_mask 7 0 one_table

-- One entry of two memory units, and a ring of four.
abbrev stats : Stats
stats = record {
  ring = record { buf = λ i. 0; head = 0; tail = 0 };
  init_unalloc = 1;
  active_mem_unit = 0;
  total_mem_units = 2;
  ring_size = 4;
}

stats-IsValid : C.IsValid 2 1 2 stats []
unfolding is_empty
stats-IsValid =
    let ring : R.IsValid 2 (stats.ring) = record { head = omega arith; tail = omega arith } in
    let empty = is_empty-contents 2 (stats.ring) ring refl in
    record {
      ring = ring;
      ring_size = refl;
      mem_units = refl;
      active = omega arith;
      entries = omega arith;
      rest = λ h. refl;
      once = λ id. rw empty (omega arith);
      total = rw empty (omega arith);
    }

abbrev flow : Flow
flow = record {
  id = 1;
  tc_flower_cookie = 2 ^ 40 + 9;
  ingress_dev = 3;
  pre_tun_rule = false;
  mask_hash = 7;
  host_ctx_id = 0;
  host_cookie = 0;
  flow_version = 0;
  flags = 0;
  mask_id = 0;
}

abbrev priv : Priv
priv = record {
  stats_ids = stats;
  masks = masks;
  stats_ctx_table = [];
  flow_table = flow ∷ [];
  flower_version = 0;
  stats = λ i. record { pkts = 0; bytes = 0; used = 0 };
}

abbrev env : Env
env = record { ctx_room = true; inserted = true; mask_room = true; now = 0; jiffies = 0 }

compile-Settled_example :
    Settled 2 1 2 []
      (omega arith)
      (omega arith)
      priv
      flow
      (compile_flow_metadata env (2 ^ 40 + 9) 3 priv flow)
compile-Settled_example =
    compile-Settled 2 1 2 [] (omega arith) (omega arith) env (2 ^ 40 + 9) 3 priv flow (omega arith)
      stats-IsValid no_table no_uses

-- The table has the flow, and it is not found.
compile_no_duplicate_example :
    (compile_flow_metadata env (2 ^ 40 + 9) 3 priv flow).code ≢ some eexist
compile_no_duplicate_example = compile_no_duplicate env (2 ^ 40 + 9) 3 priv flow (omega arith)

-- Both identifiers given, and one back.
abbrev last_one : Stats
last_one = record {
  ring = record { buf = λ i. 0; head = 1; tail = 0 };
  init_unalloc = 0;
  active_mem_unit = 0;
  total_mem_units = 2;
  ring_size = 2;
}

last_one-IsValid : C.IsValid 1 1 2 last_one ((2 ^ 22) ∷ [])
unfolding contents
last_one-IsValid = record {
  ring = record { head = omega arith; tail = omega arith };
  ring_size = refl;
  mem_units = refl;
  active = omega arith;
  entries = omega arith;
  rest = λ h. refl;
  once = λ id. ground arith;
  total = refl;
}

release_full_example : release_stats_entry last_one (2 ^ 22) ≡ (some enobufs, last_one)
release_full_example =
    C.release_full 1 1 2 last_one (2 ^ 22) (2 ^ 22) (omega arith) refl refl last_one-IsValid
