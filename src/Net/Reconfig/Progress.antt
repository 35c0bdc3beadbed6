-- ===== src/Net/Reconfig/Progress.antt =====
-- How a reconfiguration (src/nfp_net_common.c) ends where `nfp_net_reconfig_wait_posted` is not called:
-- the timer and the caller can go on until what was asked for is written.
use mathlib.Core.Path.{subst}
use nfp_drv_kmods.Base.{
  bit, bit-zero, ℕ, ◌≡◌, refl, ap, ◌∙◌, inl, inr, Bool, false, ◌==◌, ==_iff, Bool-cases,
  if◌then◌else◌, none, some, arith,
}
use nfp_drv_kmods.Net.Reconfig.{
  Net, reconfig_start, start_async, start_posted, reconfig_timer, reconfig_end, Caller, absent,
  entered, ready, waiting, System, Step, post, timer_runs, enter, take_over, start, leave,
  leave_posted, Reaches, here, then_step, fresh,
}
use nfp_drv_kmods.Net.Reconfig.Bit.{some_bit}
use nfp_drv_kmods.Net.Reconfig.Kept.{caller_bit, Reaches-Kept}
use nfp_drv_kmods.Net.Reconfig.Invariant.{present_as, fresh-Inv, Reaches-Inv}
use nfp_drv_kmods.Net.Reconfig.Started.{Requests, Inv}

-- A step of the timer, or of the caller that is in its reconfiguration: no request is posted, and no
-- caller enters.
abbrev pub GoesOn : {s t : System} → Step false s t → Type 0
GoesOn (post s reg update) = ⊥
GoesOn (enter s update free waits) = ⊥
GoesOn (timer_runs s p) = Unit
GoesOn (take_over s cancelled pre update is) = Unit
GoesOn (start s update is) = Unit
GoesOn (leave s is) = Unit
GoesOn (leave_posted s is) = Unit

pub data Continues : System → System → Type 0 where
  no_step : (s : System) → Continues s s
  one_step : {s t u : System} (step : Step false s t) → GoesOn step → Continues t u → Continues s u

-- The timer and the caller go on until nothing is kept or held.
pub record Finishes (s : System) : Type 0 where
  pub last : System
  pub steps : Continues s last
  pub asked : last.asked ≡ s.asked
  pub posted : last.nn.posted ≡ 0
  pub caller : last.caller ≡ absent

Reaches-first : (s t u : System) → Step false s t → Reaches false t u → Reaches false s u
Reaches-first s t _ step (here _) = then_step (here s) step
Reaches-first s t u step (then_step {t = v} steps last) =
    then_step (Reaches-first s t v step steps) last

Continues-Reaches : (s t : System) → Continues s t → Reaches false s t
Continues-Reaches s _ (no_step _) = here s
Continues-Reaches s u (one_step {t = t} step on rest) =
    Reaches-first s t u step (Continues-Reaches t u rest)

Reaches-trans : (s t u : System) → Reaches false s t → Reaches false t u → Reaches false s u
Reaches-trans s t _ steps (here _) = steps
Reaches-trans s t u steps (then_step {t = v} more last) =
    then_step (Reaches-trans s t v steps more) last

first_step :
    (s t : System) (step : Step false s t)
    → GoesOn step
    → t.asked ≡ s.asked
    → Finishes t
    → Finishes s
first_step s t step on asked f = record {
  last = f.last;
  steps = one_step step on f.steps;
  asked = f.asked ∙ asked;
  posted = f.posted;
  caller = f.caller;
}

start_posted-posted : (nn : Net) → (start_posted nn).posted ≡ 0
unfolding start_async reconfig_start
start_posted-posted nn = elim (Bool-cases (nn.posted == 0)) [
  | inl e ↦ rw e ((==_iff nn.posted 0).0 e)
  | inr e ↦ rw e refl
]

waiting-Finishes : (s : System) → s.caller ≡ waiting → Finishes s
unfolding reconfig_end
waiting-Finishes s is = record {
  last = record s { nn = reconfig_end s.nn; caller = absent };
  steps = one_step (leave s is) tt (no_step _);
  asked = refl;
  posted = start_posted-posted s.nn;
  caller = refl;
}

ready-Finishes : (s : System) (update : ℕ) → s.caller ≡ ready (some update) → Finishes s
ready-Finishes s update is = first_step s _ (start s update is) tt refl (waiting-Finishes _ refl)

entered-Finishes :
    (s : System) (cancelled : Bool) (pre update : ℕ)
    → s.caller ≡ entered cancelled pre (some update)
    → Finishes s
entered-Finishes s cancelled pre update is =
    first_step s _ (take_over s cancelled pre (some update) is) tt refl
      (ready-Finishes _ update refl)

timer-posted : (nn : Net) → nn.sync_present ≡ false → (reconfig_timer nn).posted ≡ 0
unfolding reconfig_timer
timer-posted nn free =
    let nn' : Net = record nn { timer = false; timer_active = false } in
    ap (λ b. (if b then nn' else start_posted nn').posted) free ∙ start_posted-posted nn'

absent-Finishes : (s : System) → Inv s → s.caller ≡ absent → Finishes s
absent-Finishes s inv is =
    let free = present_as s absent inv is in
    elim (inv.served.started free) [
      | inl none_kept ↦ record {
        last = s;
        steps = no_step s;
        asked = refl;
        posted = none_kept;
        caller = is;
      }
      | inr active ↦ record {
        last = record s { nn = reconfig_timer s.nn };
        steps = one_step (timer_runs s (inv.served.pending active)) tt (no_step _);
        asked = refl;
        posted = timer-posted s.nn free;
        caller = is;
      }
    ]

Inv-Finishes : (s : System) (c : Caller) → Inv s → s.caller ≡ c → Finishes s
Inv-Finishes s absent inv is = absent-Finishes s inv is
Inv-Finishes s (entered cancelled pre (some update)) inv is =
    entered-Finishes s cancelled pre update is
Inv-Finishes s (ready (some update)) inv is = ready-Finishes s update is
Inv-Finishes s waiting inv is = waiting-Finishes s is
Inv-Finishes s (entered cancelled pre none) inv is = absurd (subst Requests is inv.requests)
Inv-Finishes s (ready none) inv is = absurd (subst Requests is inv.requests)

-- From every state that is reached from a fresh device without `nfp_net_reconfig_wait_posted`, there
-- are steps of the timer and of the synchronous caller, in which no request is posted and no caller
-- enters, to a state in which nothing is kept or held, and in which each bit of the update word that was asked for, and no
-- other, has been written to NFP_NET_CFG_UPDATE.
pub Reaches-Finishes :
    (s : System)
    → Reaches false fresh s
    → (f : Finishes s) × ((k : ℕ) → bit k s.asked ≡ some_bit k f.last.nn.updates)
Reaches-Finishes s steps =
    let f = Inv-Finishes s s.caller (Reaches-Inv fresh s steps fresh-Inv) refl in
    (
      f,
      λ k.
          let kept =
            Reaches-Kept false k f.last
              (Reaches-trans fresh s f.last steps (Continues-Reaches s f.last f.steps)) in
          let none_held = ap (caller_bit k) f.caller in
          let none_kept : bit k f.last.nn.posted ≡ 0 = ap (bit k) f.posted ∙ bit-zero k in
          let same = ap (bit k) f.asked in omega (arith, kept.same, none_held, none_kept, same),
    )
