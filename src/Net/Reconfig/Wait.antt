-- ===== src/Net/Reconfig/Wait.antt =====
-- The waits for the firmware to take an update (src/nfp_net_common.c).
use nfp_drv_kmods.Base.{
  ℕ, zero, suc, ◌+◌, ◌≡◌, refl, ap, ◌∙◌, inl, inr, Bool, true, false, Bool-cases, if◌then◌else◌,
  Option, none, some, Result, ok, err, eio, arith,
}
use nfp_drv_kmods.Net.Reconfig.{check_done, has_update_err}

-- The busy loop over `cnt` looks at the register; `reads n` is what the look `n` finds.
unfoldable pub busy_loop : ℕ → (ℕ → ℕ) → ℕ → Bool
busy_loop zero reads n = false
busy_loop (suc cnt) reads n =
    let more = busy_loop cnt reads (n + 1) in if check_done (reads n) false then true else more

-- The loop with sleeps, with fuel; `late n` says whether the deadline has passed after the look `n`.
-- The result is whether it timed out.
unfoldable pub sleep_loop : ℕ → (ℕ → ℕ) → (ℕ → Bool) → ℕ → Bool → Option Bool
sleep_loop zero reads late n timed_out = none
sleep_loop (suc fuel) reads late n timed_out =
    let more = sleep_loop fuel reads late (n + 1) (late n) in
    if check_done (reads n) timed_out then some timed_out else more

-- `__nfp_net_reconfig_wait`.
unfoldable pub poll_update : ℕ → (ℕ → ℕ) → (ℕ → Bool) → Option Bool
unfolding busy_loop sleep_loop
poll_update fuel reads late =
    if busy_loop 50 reads 0 then some false else sleep_loop fuel reads late 50 false

-- `nfp_net_reconfig_wait`, with what the last look finds.
abbrev pub judge : ℕ → Option Bool → Option (Result (Unit {0}))
judge last_reg none = none
judge last_reg (some true) = some (err eio)
judge last_reg (some false) = if has_update_err last_reg then some (err eio) else some (ok tt)

unfoldable pub reconfig_wait : ℕ → (ℕ → ℕ) → (ℕ → Bool) → ℕ → Option (Result (Unit {0}))
unfolding poll_update
reconfig_wait fuel reads late last_reg = judge last_reg (poll_update fuel reads late)

late-done : (reg : ℕ) → check_done reg true ≡ true
late-done reg = ground arith

sleep_loop-Returns :
    (j n : ℕ) (reads : ℕ → ℕ) (late : ℕ → Bool) (timed_out : Bool)
    → late (n + j) ≡ true
    → (r : Bool) × (sleep_loop (suc (suc j)) reads late n timed_out ≡ some r)
unfolding sleep_loop
sleep_loop-Returns zero n reads late timed_out e =
    elim (Bool-cases (check_done (reads n) timed_out)) [
      | inl d ↦ (timed_out, rw d refl)
      | inr d ↦
          let passed : late n ≡ true = ap late (omega arith) ∙ e in
          let over = late-done (reads (n + 1)) in (true, rw (d, passed, over) refl)
    ]
sleep_loop-Returns (suc j) n reads late timed_out e =
    elim (Bool-cases (check_done (reads n) timed_out)) [
      | inl d ↦ (timed_out, rw d refl)
      | inr d ↦
          let (r, is) =
            sleep_loop-Returns j (n + 1) reads late (late n) (ap late (omega arith) ∙ e) in
          (r, rw d is)
    ]

judge-Returns :
    (last_reg : ℕ) (timed_out : Bool)
    → (r : Result (Unit {0})) × (judge last_reg (some timed_out) ≡ some r)
      × (r ≡ ok tt → has_update_err last_reg ≡ false)
judge-Returns last_reg true = (err eio, refl, (λ e. cc))
judge-Returns last_reg false = elim (Bool-cases (has_update_err last_reg)) [
  | inl e ↦ (err eio, (rw e refl), (λ e'. cc))
  | inr e ↦ (ok tt, (rw e refl), (λ e'. e))
]

-- Where the deadline passes after some look of the loop with sleeps, `nfp_net_reconfig_wait` returns,
-- with two looks more at the most; and it returns 0 only if the last look finds no error.
pub reconfig_wait-Returns :
    (j : ℕ) (reads : ℕ → ℕ) (late : ℕ → Bool) (last_reg : ℕ)
    → late (50 + j) ≡ true
    → (r : Result (Unit {0})) × (reconfig_wait (suc (suc j)) reads late last_reg ≡ some r)
      × (r ≡ ok tt → has_update_err last_reg ≡ false)
unfolding reconfig_wait poll_update
reconfig_wait-Returns j reads late last_reg e = elim (Bool-cases (busy_loop 50 reads 0)) [
  | inl d ↦ let (r, is, good) = judge-Returns last_reg false in (r, (rw d is), good)
  | inr d ↦
      let (timed_out, slept) = sleep_loop-Returns j 50 reads late false e in
      let (r, is, good) = judge-Returns last_reg timed_out in (r, (rw (d, slept) is), good)
]
