-- ===== src/Net/Reconfig/Kept.antt =====
-- No request for a reconfiguration is lost (src/nfp_net_common.c): each is written to the register,
-- kept for later, or held by the synchronous caller.
use nfp_drv_kmods.Base.{
  bit, bit-zero, bit-bit_or, ℕ, ◌≡◌, refl, ap, ◌∙◌, inl, inr, Bool, true, false, not, ◌||◌, ◌==◌,
  ==_iff, Bool-cases, if◌then◌else◌, Option, none, some, max, bit_or, arith,
}
use nfp_drv_kmods.Net.Reconfig.{
  Net, check_done, reconfig_start, start_async, start_posted, reconfig_timer, reconfig_post,
  sync_enter, run_pre_posted, wait_posted_end, reconfig_end, Caller, absent, entered, ready,
  waiting, System, asked_by, Step, post, timer_runs, enter, take_over, start, leave, leave_posted,
  Reaches, here, then_step, fresh,
}
use nfp_drv_kmods.Net.Reconfig.Bit.{some_bit, some_bit-cons, some_bit-nil}

-- A request among those of the caller and of the device.
abbrev pub wanted_bit : ℕ → Option ℕ → ℕ
wanted_bit k none = 0
wanted_bit k (some update) = bit k update

abbrev pub caller_bit : ℕ → Caller → ℕ
caller_bit k absent = 0
caller_bit k (entered cancelled pre update) = max (bit k pre) (wanted_bit k update)
caller_bit k (ready update) = wanted_bit k update
caller_bit k waiting = 0

abbrev pub net_bit : ℕ → Net → ℕ
net_bit k nn = max (bit k nn.posted) (some_bit k nn.updates)

-- What was asked is what is written, kept or held, and no more.
pub record Kept (k : ℕ) (s : System) : Type 0 where
  pub same : bit k s.asked ≡ max (net_bit k s.nn) (caller_bit k s.caller)

-- A test between two states with the same requests.
if-bit :
    (k v : ℕ) (b : Bool) (x y : Net)
    → net_bit k x ≡ v
    → net_bit k y ≡ v
    → net_bit k (if b then x else y) ≡ v
if-bit k v true x y e e' = e
if-bit k v false x y e e' = e'

reconfig_start-bit :
    (k : ℕ) (nn : Net) (update : ℕ)
    → net_bit k (reconfig_start nn update) ≡ max (net_bit k nn) (bit k update)
unfolding reconfig_start
reconfig_start-bit k nn update = omega (arith, some_bit-cons k update nn.updates)

start_async-bit :
    (k : ℕ) (nn : Net) (update : ℕ)
    → net_bit k (start_async nn update) ≡ max (net_bit k nn) (bit k update)
unfolding start_async reconfig_start
start_async-bit k nn update = omega (
  arith,
  some_bit-cons k (bit_or update nn.posted) nn.updates,
  bit-bit_or k update nn.posted,
  bit-zero k,
)

start_posted-bit : (k : ℕ) (nn : Net) → net_bit k (start_posted nn) ≡ net_bit k nn
start_posted-bit k nn = elim (Bool-cases (nn.posted == 0)) [
  | inl e ↦ rw e refl
  | inr e ↦ rw e (omega (arith, start_async-bit k nn 0, bit-zero k))
]

reconfig_timer-bit : (k : ℕ) (nn : Net) → net_bit k (reconfig_timer nn) ≡ net_bit k nn
unfolding reconfig_timer
reconfig_timer-bit k nn =
    let nn' : Net = record nn { timer = false; timer_active = false } in
    if-bit k (net_bit k nn) nn.sync_present nn' (start_posted nn') refl (start_posted-bit k nn')

reconfig_post-bit :
    (k : ℕ) (nn : Net) (reg update : ℕ)
    → net_bit k (reconfig_post nn reg update) ≡ max (net_bit k nn) (bit k update)
unfolding reconfig_post
reconfig_post-bit k nn reg update =
    let later : Net = record nn { posted = bit_or nn.posted update } in
    let kept : net_bit k later ≡ max (net_bit k nn) (bit k update) =
      omega (arith, bit-bit_or k nn.posted update) in
    if-bit k _ nn.sync_present later _ kept (
      if-bit k _ (not nn.timer_active || check_done reg false) (start_async nn update) later
        (start_async-bit k nn update) kept)

pre-bit :
    (k : ℕ) (nn : Net) (pre : ℕ)
    → net_bit k (if pre == 0 then nn else reconfig_start nn pre) ≡ max (net_bit k nn) (bit k pre)
pre-bit k nn pre = elim (Bool-cases (pre == 0)) [
  | inl e ↦
      let none_kept : bit k pre ≡ 0 = ap (bit k) ((==_iff pre 0).0 e) ∙ bit-zero k in
      rw e (omega (arith, none_kept))
  | inr e ↦ rw e (reconfig_start-bit k nn pre)
]

run_pre_posted-bit :
    (k : ℕ) (nn : Net) (cancelled : Bool) (pre : ℕ)
    → net_bit k (run_pre_posted nn cancelled pre) ≡ max (net_bit k nn) (bit k pre)
unfolding run_pre_posted
run_pre_posted-bit k nn true pre = pre-bit k (record nn { timer = false }) pre
run_pre_posted-bit k nn false pre = pre-bit k nn pre

sync_enter-bit :
    (k : ℕ) (nn : Net) → max (net_bit k (sync_enter nn).0) (bit k (sync_enter nn).2) ≡ net_bit k nn
unfolding sync_enter
sync_enter-bit k nn = omega (arith, bit-zero k)

asked_by-bit :
    (k asked : ℕ) (update : Option ℕ)
    → bit k (asked_by asked update) ≡ max (bit k asked) (wanted_bit k update)
asked_by-bit k asked none = omega arith
asked_by-bit k asked (some update) = bit-bit_or k asked update

step-Kept : (waits : Bool) (k : ℕ) (s t : System) → Step waits s t → Kept k s → Kept k t
unfolding reconfig_end wait_posted_end
step-Kept waits k s _ (post _ reg update) kept = record {
  same = omega (arith, kept.same, bit-bit_or k s.asked update, reconfig_post-bit k s.nn reg update);
}
step-Kept waits k s _ (timer_runs _ p) kept = record {
  same = omega (arith, kept.same, reconfig_timer-bit k s.nn);
}
step-Kept waits k s _ (enter _ update free p) kept =
    let none_held = ap (caller_bit k) free in
    record {
      same =
          omega (arith, kept.same, none_held, asked_by-bit k s.asked update, sync_enter-bit k s.nn);
    }
step-Kept waits k s _ (take_over _ cancelled pre update is) kept = record {
  same = omega (arith, kept.same, ap (caller_bit k) is, run_pre_posted-bit k s.nn cancelled pre);
}
step-Kept waits k s _ (start _ update is) kept = record {
  same = omega (arith, kept.same, ap (caller_bit k) is, reconfig_start-bit k s.nn update);
}
step-Kept waits k s _ (leave _ is) kept = record {
  same = omega (arith, kept.same, ap (caller_bit k) is, start_posted-bit k s.nn);
}
step-Kept waits k s _ (leave_posted _ is) kept = record {
  same = omega (arith, kept.same, ap (caller_bit k) is);
}

steps-Kept : (waits : Bool) (k : ℕ) (s t : System) → Reaches waits s t → Kept k s → Kept k t
steps-Kept waits k s t (here _) kept = kept
steps-Kept waits k s t (then_step {t = u} steps step) kept =
    step-Kept waits k u t step (steps-Kept waits k s u steps kept)

-- In every state that is reached from a fresh device, a bit of the update word was asked for, by a
-- post or by a synchronous caller, if and only if it was written to NFP_NET_CFG_UPDATE, is kept in
-- `reconfig_posted`, or is held by the synchronous caller.
pub Reaches-Kept : (waits : Bool) (k : ℕ) (s : System) → Reaches waits fresh s → Kept k s
Reaches-Kept waits k s steps =
    steps-Kept waits k fresh s steps (record { same = omega (arith, bit-zero k, some_bit-nil k) })
