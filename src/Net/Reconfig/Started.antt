-- ===== src/Net/Reconfig/Started.antt =====
-- What is kept in `reconfig_posted` (src/nfp_net_common.c) is started, but behind
-- `nfp_net_reconfig_wait_posted`.
use mathlib.Core.Bool.{false≢true}
use nfp_drv_kmods.Base.{
  ℕ, ◌≡◌, refl, sym, ◌∙◌, ◌⊎◌, inl, inr, Bool, true, false, not, ◌||◌, ◌==◌, ==_iff, Bool-cases,
  if◌then◌else◌, none, some, bit_or, arith,
}
use nfp_drv_kmods.Net.Reconfig.{
  Net, check_done, reconfig_start, start_async, start_posted, reconfig_timer, reconfig_post,
  run_pre_posted, reconfig_end, Caller, absent, entered, ready, waiting, System,
}

-- Whether the caller is between the two locked parts.
abbrev pub is_present : Caller → Bool
is_present absent = false
is_present (entered cancelled pre update) = true
is_present (ready update) = true
is_present waiting = true

-- The caller has a request of its own.
abbrev pub Requests : Caller → Type 0
Requests absent = Unit
Requests (entered cancelled pre none) = ⊥
Requests (entered cancelled pre (some update)) = Unit
Requests (ready none) = ⊥
Requests (ready (some update)) = Unit
Requests waiting = Unit

-- A timer that is active is pending, and where nobody is to take over, what is kept has the timer.
pub record Served (nn : Net) : Type 0 where
  pub pending : nn.timer_active ≡ true → nn.timer ≡ true
  pub taken : nn.sync_present ≡ true → nn.timer_active ≡ false
  pub started : nn.sync_present ≡ false → (nn.posted ≡ 0) ⊎ (nn.timer_active ≡ true)

pub record Inv (s : System) : Type 0 where
  pub served : Served s.nn
  pub present : s.nn.sync_present ≡ is_present s.caller
  pub requests : Requests s.caller

if-Served :
    (b : Bool) (x y : Net)
    → (b ≡ true → Served x)
    → (b ≡ false → Served y)
    → Served (if b then x else y)
if-Served true x y p q = p refl
if-Served false x y p q = q refl

if-sync :
    (b v : Bool) (x y : Net)
    → x.sync_present ≡ v
    → y.sync_present ≡ v
    → (if b then x else y).sync_present ≡ v
if-sync true v x y p q = p
if-sync false v x y p q = q

start_async-Served :
    (nn : Net) (update : ℕ) → nn.sync_present ≡ false → Served (start_async nn update)
unfolding start_async reconfig_start
start_async-Served nn update free = record {
  pending = λ e. refl;
  taken = λ e. absurd (false≢true (sym free ∙ e));
  started = λ e. inl refl;
}

-- No timer is active, and the caller is out, or goes.
start_posted-Served :
    (nn : Net) → nn.timer_active ≡ false → nn.sync_present ≡ false → Served (start_posted nn)
start_posted-Served nn idle free =
    if-Served (nn.posted == 0) nn (start_async nn 0)
      (λ e. record {
        pending = λ e'. absurd (false≢true (sym idle ∙ e'));
        taken = λ e'. idle;
        started = λ e'. inl ((==_iff nn.posted 0).0 e);
      })
      (λ e. start_async-Served nn 0 free)

pub reconfig_timer-Served : (nn : Net) → Served nn → Served (reconfig_timer nn)
unfolding reconfig_timer
reconfig_timer-Served nn served =
    let nn' : Net = record nn { timer = false; timer_active = false } in
    if-Served nn.sync_present nn' (start_posted nn')
      (λ e. record {
        pending = λ e'. absurd (false≢true e');
        taken = λ e'. refl;
        started = λ e'. absurd (false≢true (sym e' ∙ e));
      })
      (λ e. start_posted-Served nn' refl e)

start_posted-sync : (nn : Net) → (start_posted nn).sync_present ≡ nn.sync_present
unfolding start_async reconfig_start
start_posted-sync nn = if-sync (nn.posted == 0) nn.sync_present nn (start_async nn 0) refl refl

pub reconfig_timer-sync : (nn : Net) → (reconfig_timer nn).sync_present ≡ nn.sync_present
unfolding reconfig_timer
reconfig_timer-sync nn =
    let nn' : Net = record nn { timer = false; timer_active = false } in
    if-sync nn.sync_present nn.sync_present nn' (start_posted nn') refl (start_posted-sync nn')

not_or : (a b : Bool) → (not a || b) ≡ false → a ≡ true
not_or true b e = refl
not_or false b e = absurd (false≢true (sym e))

pub reconfig_post-Served :
    (nn : Net) (reg update : ℕ) → Served nn → Served (reconfig_post nn reg update)
unfolding reconfig_post
reconfig_post-Served nn reg update served =
    let later : Net = record nn { posted = bit_or nn.posted update } in
    if-Served nn.sync_present later _
      (λ e. record {
        pending = served.pending;
        taken = served.taken;
        started = λ e'. absurd (false≢true (sym e' ∙ e));
      })
      (λ free.
        if-Served (not nn.timer_active || check_done reg false) (start_async nn update) later
          (λ e. start_async-Served nn update free)
          (λ e. record {
            pending = served.pending;
            taken = served.taken;
            started = λ e'. inr (not_or nn.timer_active (check_done reg false) e);
          }))

pub reconfig_post-sync :
    (nn : Net) (reg update : ℕ) → (reconfig_post nn reg update).sync_present ≡ nn.sync_present
unfolding reconfig_post start_async reconfig_start
reconfig_post-sync nn reg update =
    let later : Net = record nn { posted = bit_or nn.posted update } in
    if-sync nn.sync_present nn.sync_present later _ refl (
      if-sync (not nn.timer_active || check_done reg false) nn.sync_present (start_async nn update)
        later refl refl)

-- The caller is in, with no timer active.
pub present-Served : (nn : Net) → nn.sync_present ≡ true → nn.timer_active ≡ false → Served nn
present-Served nn is idle = record {
  pending = λ e. absurd (false≢true (sym idle ∙ e));
  taken = λ e. idle;
  started = λ e. absurd (false≢true (sym e ∙ is));
}

pub run_pre_posted-sync :
    (nn : Net) (cancelled : Bool) (pre : ℕ)
    → (run_pre_posted nn cancelled pre).sync_present ≡ nn.sync_present
unfolding run_pre_posted reconfig_start
run_pre_posted-sync nn cancelled pre = ground arith

pub run_pre_posted-active :
    (nn : Net) (cancelled : Bool) (pre : ℕ)
    → (run_pre_posted nn cancelled pre).timer_active ≡ nn.timer_active
unfolding run_pre_posted reconfig_start
run_pre_posted-active nn cancelled pre = ground arith

pub reconfig_end-Served : (nn : Net) → nn.timer_active ≡ false → Served (reconfig_end nn)
unfolding reconfig_end start_async reconfig_start
reconfig_end-Served nn idle = elim (Bool-cases (nn.posted == 0)) [
  | inl e ↦ rw e (record {
    pending = λ e'. absurd (false≢true (sym idle ∙ e'));
    taken = λ e'. idle;
    started = λ e'. inl ((==_iff nn.posted 0).0 e);
  })
  | inr e ↦ rw e (record {
    pending = λ e'. refl;
    taken = λ e'. absurd (false≢true e');
    started = λ e'. inl refl;
  })
]
