-- ===== src/Net/Reconfig.antt =====
-- Requests to the firmware to take the configuration of a vNIC (src/nfp_net_common.c), posted or
-- waited for: the state under `reconfig_lock`, and each part of a function that holds it.
pub mod Wait
pub mod Bit
pub mod Kept
pub mod Started
pub mod Invariant
pub mod Progress
pub mod Stranded
use nfp_drv_kmods.Base.{
  ℕ, zero, suc, ◌+◌, ◌/◌, ◌%◌, ◌^◌, ◌≡◌, Bool, true, false, not, ◌||◌, ◌==◌, if◌then◌else◌, Option,
  none, some, List, [], ◌∷◌, Result, ok, err, Errno, eio, bit_or,
}

-- The fields of `struct nfp_net` behind `reconfig_lock`. `timer` says whether the timer is pending,
-- and `updates` has the values that were written to NFP_NET_CFG_UPDATE, the last one first.
pub record Net : Type 0 where
  pub posted : ℕ
  pub timer_active : Bool
  pub sync_present : Bool
  pub in_progress_update : ℕ
  pub timer : Bool
  pub updates : List ℕ

-- NFP_NET_CFG_UPDATE_ERR.
abbrev pub has_update_err : ℕ → Bool
has_update_err reg = reg / 2 ^ 31 % 2 == 1

-- `nfp_net_reconfig_start`.
unfoldable pub reconfig_start : Net → ℕ → Net
reconfig_start nn update = record nn { updates = update ∷ nn.updates; in_progress_update = update }

-- `nfp_net_reconfig_start_async`.
unfoldable pub start_async : Net → ℕ → Net
unfolding reconfig_start
start_async nn update =
    let nn' = reconfig_start (record nn { posted = 0 }) (bit_or update nn.posted) in
    record nn' { timer_active = true; timer = true }

-- `nfp_net_reconfig_check_done`, from the register NFP_NET_CFG_UPDATE.
abbrev pub check_done : ℕ → Bool → Bool
check_done reg last_check = reg == 0 || has_update_err reg || last_check

-- What waits in `reconfig_posted` is started, if anything.
abbrev pub start_posted : Net → Net
start_posted nn = if nn.posted == 0 then nn else start_async nn 0

-- `nfp_net_reconfig_timer`. The timer is not pending when it runs.
unfoldable pub reconfig_timer : Net → Net
unfolding start_async
reconfig_timer nn =
    let nn' = record nn { timer = false; timer_active = false } in
    if nn.sync_present then nn' else start_posted nn'

-- `nfp_net_reconfig_post`, from the register.
unfoldable pub reconfig_post : Net → ℕ → ℕ → Net
unfolding start_async
reconfig_post nn reg update =
    let later = record nn { posted = bit_or nn.posted update } in
    if nn.sync_present
    then later
    else if not nn.timer_active || check_done reg false
    then start_async nn update
    else later

-- The locked part of `nfp_net_reconfig_sync_enter`: the state, whether the timer is cancelled, and
-- the requests from before.
unfoldable pub sync_enter : Net → Net × Bool × ℕ
sync_enter nn = (
  record nn { sync_present = true; timer_active = false; posted = 0 },
  nn.timer_active,
  nn.posted,
)

-- The rest of it, less the waits.
unfoldable pub run_pre_posted : Net → Bool → ℕ → Net
unfolding reconfig_start
run_pre_posted nn cancelled_timer pre_posted_requests =
    let nn' = if cancelled_timer then record nn { timer = false } else nn in
    if pre_posted_requests == 0 then nn' else reconfig_start nn' pre_posted_requests

-- The end of `nfp_net_reconfig_wait_posted` and of `__nfp_net_reconfig`.
unfoldable pub wait_posted_end : Net → Net
wait_posted_end nn = record nn { sync_present = false }

unfoldable pub reconfig_end : Net → Net
unfolding start_async
reconfig_end nn = record (start_posted nn) { sync_present = false }

-- The synchronous caller, of which the lock of the control BAR lets one in at a time: none, one with
-- what `nfp_net_reconfig_sync_enter` holds, and one behind it. The request is that of
-- `__nfp_net_reconfig`, or none in `nfp_net_reconfig_wait_posted`.
pub data Caller : Type 0 where
  absent : Caller
  entered : Bool → ℕ → Option ℕ → Caller
  ready : Option ℕ → Caller
  waiting : Caller

-- With the requests that were made so far, all as one word.
pub record System : Type 0 where
  pub nn : Net
  pub caller : Caller
  pub asked : ℕ

abbrev pub asked_by : ℕ → Option ℕ → ℕ
asked_by asked none = asked
asked_by asked (some update) = bit_or asked update

-- A request is posted, the timer runs, or the caller goes on. `waits` says whether
-- `nfp_net_reconfig_wait_posted` is called.
pub data Step (waits : Bool) : System → System → Type 0 where
  post :
      (s : System) (reg update : ℕ)
      → Step waits s
          (record s { nn = reconfig_post s.nn reg update; asked = bit_or s.asked update })
  timer_runs :
      (s : System) → s.nn.timer ≡ true → Step waits s (record s { nn = reconfig_timer s.nn })
  enter :
      (s : System) (update : Option ℕ)
      → s.caller ≡ absent
      → (update ≡ none → waits ≡ true)
      → Step waits s (record {
        nn = (sync_enter s.nn).0;
        caller = entered (sync_enter s.nn).1 (sync_enter s.nn).2 update;
        asked = asked_by s.asked update;
      })
  take_over :
      (s : System) (cancelled : Bool) (pre : ℕ) (update : Option ℕ)
      → s.caller ≡ entered cancelled pre update
      → Step waits s (record s { nn = run_pre_posted s.nn cancelled pre; caller = ready update })
  start :
      (s : System) (update : ℕ)
      → s.caller ≡ ready (some update)
      → Step waits s (record s { nn = reconfig_start s.nn update; caller = waiting })
  leave :
      (s : System)
      → s.caller ≡ waiting
      → Step waits s (record s { nn = reconfig_end s.nn; caller = absent })
  leave_posted :
      (s : System)
      → s.caller ≡ ready none
      → Step waits s (record s { nn = wait_posted_end s.nn; caller = absent })

pub data Reaches (waits : Bool) : System → System → Type 0 where
  here : (s : System) → Reaches waits s s
  then_step : {s t u : System} → Reaches waits s t → Step waits t u → Reaches waits s u

-- A device before its first request.
abbrev pub fresh : System
fresh = record {
  nn = record {
    posted = 0;
    timer_active = false;
    sync_present = false;
    in_progress_update = 0;
    timer = false;
    updates = [];
  };
  caller = absent;
  asked = 0;
}
