-- ===== src/Net/Tests.antt =====
-- Runs of the reconfiguration (src/nfp_net_common.c), and the theorems about it at them.
use nfp_drv_kmods.Base.{bit, ℕ, ◌≡◌, refl, true, false, not, some, [], ◌∷◌, ltb, Result, ok}
use nfp_drv_kmods.Net.Reconfig.{
  reconfig_post, absent, System, Step, post, Reaches, here, then_step, fresh, has_update_err,
}
use nfp_drv_kmods.Net.Reconfig.Bit.{some_bit}
use nfp_drv_kmods.Net.Reconfig.Kept.{Kept, Reaches-Kept}
use nfp_drv_kmods.Net.Reconfig.Progress.{Finishes, Reaches-Finishes}
use nfp_drv_kmods.Net.Reconfig.Stranded.{wait_posted-strands}
use nfp_drv_kmods.Net.Reconfig.Wait.{reconfig_wait, reconfig_wait-Returns}

-- Two requests are posted; the firmware is busy with the first one when the second comes.
abbrev two_posted : System
two_posted = record {
  nn = record {
    posted = 8;
    timer_active = true;
    sync_present = false;
    in_progress_update = 4;
    timer = true;
    updates = 4 ∷ [];
  };
  caller = absent;
  asked = 12;
}

abbrev one_posted : System
one_posted = record {
  nn = record {
    posted = 0;
    timer_active = true;
    sync_present = false;
    in_progress_update = 4;
    timer = true;
    updates = 4 ∷ [];
  };
  caller = absent;
  asked = 4;
}

first_post : Step false fresh one_posted
unfolding reconfig_post
first_post = post fresh 0 4

second_post : Step false one_posted two_posted
unfolding reconfig_post
second_post = post one_posted 4 8

steps : Reaches false fresh two_posted
steps = then_step (then_step (here fresh) first_post) second_post

Reaches-Kept_example : Kept 3 two_posted
Reaches-Kept_example = Reaches-Kept false 3 two_posted steps

Reaches-Finishes_example :
    (f : Finishes two_posted) × ((k : ℕ) → bit k 12 ≡ some_bit k f.last.nn.updates)
Reaches-Finishes_example = Reaches-Finishes two_posted steps

wait_posted-strands_example :
    (s : System) × Reaches true fresh s
    × (s.nn.posted ≡ 8)
    × (s.caller ≡ absent)
    × (s.nn.timer ≡ false)
    × (s.nn.updates ≡ [])
wait_posted-strands_example = wait_posted-strands 8

-- The firmware never answers, and the deadline passes after the look 52.
reconfig_wait-Returns_example :
    (r : Result (Unit {0})) × (reconfig_wait 4 (λ n. 4) (λ n. not (ltb n 52)) 4 ≡ some r)
    × (r ≡ ok tt → has_update_err 4 ≡ false)
reconfig_wait-Returns_example = reconfig_wait-Returns 2 (λ n. 4) (λ n. not (ltb n 52)) 4 refl
