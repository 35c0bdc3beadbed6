-- ===== src/Net/Reconfig/Stranded.antt =====
-- A request that is posted while `nfp_net_reconfig_wait_posted` (src/nfp_net_common.c) waits.
use nfp_drv_kmods.Base.{ℕ, ◌≡◌, refl, false, true, none, [], zero-bit_or, bit_or}
use nfp_drv_kmods.Net.Reconfig.{
  reconfig_post, sync_enter, run_pre_posted, wait_posted_end, absent, entered, System, post, enter,
  take_over, leave_posted, Reaches, here, then_step, fresh,
}

-- The states of the run.
posted_by : ℕ → System
unfolding sync_enter reconfig_post
posted_by update = record {
  nn = reconfig_post (sync_enter fresh.nn).0 0 update;
  caller = entered false 0 none;
  asked = bit_or 0 update;
}

last_of_run : ℕ → System
unfolding wait_posted_end run_pre_posted posted_by
last_of_run update = record {
  nn = wait_posted_end (run_pre_posted (posted_by update).nn false 0);
  caller = absent;
  asked = bit_or 0 update;
}

run_to_last : (update : ℕ) → Reaches true fresh (last_of_run update)
unfolding last_of_run posted_by sync_enter
run_to_last update =
    then_step
      (then_step
        (then_step (then_step (here fresh) (enter fresh none refl (λ e. refl))) (post _ 0 update))
        (take_over (posted_by update) false 0 none refl))
      (leave_posted _ refl)

-- Every request can be left behind: with `nfp_net_reconfig_wait_posted`, a state is reached from a
-- fresh device in which the request is kept, but no caller is there, no timer is pending, and
-- nothing has been written to NFP_NET_CFG_UPDATE.
pub wait_posted-strands :
    (update : ℕ)
    → (s : System) × Reaches true fresh s
      × (s.nn.posted ≡ update)
      × (s.caller ≡ absent)
      × (s.nn.timer ≡ false)
      × (s.nn.updates ≡ [])
unfolding last_of_run posted_by sync_enter reconfig_post wait_posted_end run_pre_posted
wait_posted-strands update =
    (last_of_run update, run_to_last update, zero-bit_or update, refl, refl, refl)
