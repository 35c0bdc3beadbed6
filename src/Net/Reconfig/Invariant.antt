-- ===== src/Net/Reconfig/Invariant.antt =====
-- What holds of the reconfiguration (src/nfp_net_common.c) after every step, where
-- `nfp_net_reconfig_wait_posted` is not called.
use mathlib.Core.Path.{subst}
use mathlib.Core.Bool.{false≢true}
use nfp_drv_kmods.Base.{ℕ, ◌≡◌, refl, ap, ◌∙◌, inl, Bool, true, false, Option, none, some}
use nfp_drv_kmods.Net.Reconfig.{
  reconfig_start, sync_enter, run_pre_posted, reconfig_end, Caller, absent, entered, ready, waiting,
  System, asked_by, Step, post, timer_runs, enter, take_over, start, leave, leave_posted, Reaches,
  here, then_step, fresh,
}
use nfp_drv_kmods.Net.Reconfig.Started.{
  is_present, Requests, Inv, reconfig_timer-Served, reconfig_post-Served, present-Served,
  reconfig_end-Served, reconfig_timer-sync, reconfig_post-sync, run_pre_posted-sync,
  run_pre_posted-active,
}

pub present_as : (s : System) (c : Caller) → Inv s → s.caller ≡ c → s.nn.sync_present ≡ is_present c
present_as s c inv is = inv.present ∙ ap is_present is

idle_as :
    (s : System) (c : Caller)
    → Inv s
    → s.caller ≡ c
    → is_present c ≡ true
    → s.nn.timer_active ≡ false
idle_as s c inv is p = inv.served.taken (present_as s c inv is ∙ p)

enter-Inv :
    (s : System) (update : Option ℕ)
    → (update ≡ none → false ≡ true)
    → Inv (record {
      nn = (sync_enter s.nn).0;
      caller = entered (sync_enter s.nn).1 (sync_enter s.nn).2 update;
      asked = asked_by s.asked update;
    })
unfolding sync_enter
enter-Inv s none waits = absurd (false≢true (waits refl))
enter-Inv s (some update) waits = record {
  served = present-Served _ refl refl;
  present = refl;
  requests = tt;
}

take_over-Inv :
    (s : System) (cancelled : Bool) (pre : ℕ) (update : Option ℕ)
    → Inv s
    → s.caller ≡ entered cancelled pre update
    → Inv (record s { nn = run_pre_posted s.nn cancelled pre; caller = ready update })
take_over-Inv s cancelled pre none inv is = absurd (subst Requests is inv.requests)
take_over-Inv s cancelled pre (some update) inv is =
    let c = entered cancelled pre (some update) in
    let here_now : (run_pre_posted s.nn cancelled pre).sync_present ≡ true =
      run_pre_posted-sync s.nn cancelled pre ∙ present_as s c inv is in
    let idle : (run_pre_posted s.nn cancelled pre).timer_active ≡ false =
      run_pre_posted-active s.nn cancelled pre ∙ idle_as s c inv is refl in
    record { served = present-Served _ here_now idle; present = here_now; requests = tt }

start-Inv :
    (s : System) (update : ℕ)
    → Inv s
    → s.caller ≡ ready (some update)
    → Inv (record s { nn = reconfig_start s.nn update; caller = waiting })
unfolding reconfig_start
start-Inv s update inv is =
    let here_now = present_as s (ready (some update)) inv is in
    record {
      served = present-Served _ here_now (idle_as s (ready (some update)) inv is refl);
      present = here_now;
      requests = tt;
    }

leave-Inv :
    (s : System)
    → Inv s
    → s.caller ≡ waiting
    → Inv (record s { nn = reconfig_end s.nn; caller = absent })
unfolding reconfig_end
leave-Inv s inv is = record {
  served = reconfig_end-Served s.nn (idle_as s waiting inv is refl);
  present = refl;
  requests = tt;
}

step-Inv : (s t : System) → Step false s t → Inv s → Inv t
step-Inv s _ (post _ reg update) inv = record {
  served = reconfig_post-Served s.nn reg update inv.served;
  present = reconfig_post-sync s.nn reg update ∙ inv.present;
  requests = inv.requests;
}
step-Inv s _ (timer_runs _ p) inv = record {
  served = reconfig_timer-Served s.nn inv.served;
  present = reconfig_timer-sync s.nn ∙ inv.present;
  requests = inv.requests;
}
step-Inv s _ (enter _ update free waits) inv = enter-Inv s update waits
step-Inv s _ (take_over _ cancelled pre update is) inv = take_over-Inv s cancelled pre update inv is
step-Inv s _ (start _ update is) inv = start-Inv s update inv is
step-Inv s _ (leave _ is) inv = leave-Inv s inv is
step-Inv s _ (leave_posted _ is) inv = absurd (subst Requests is inv.requests)

pub fresh-Inv : Inv fresh
fresh-Inv = record {
  served = record {
    pending = λ e. absurd (false≢true e);
    taken = λ e. absurd (false≢true e);
    started = λ e. inl refl;
  };
  present = refl;
  requests = tt;
}

pub Reaches-Inv : (s t : System) → Reaches false s t → Inv s → Inv t
Reaches-Inv s t (here _) inv = inv
Reaches-Inv s t (then_step {t = u} steps step) inv = step-Inv u t step (Reaches-Inv s u steps inv)
