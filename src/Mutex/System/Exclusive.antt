-- ===== src/Mutex/System/Exclusive.antt =====
-- No two hosts hold one mutex of src/nfpcore/nfp_mutex.c.
use nfp_drv_kmods.Base.{
  ℕ, ◌<◌, ◌≡◌, refl, inl, inr, if◌then◌else◌, Option, some, Errno, update, ok, err, arith,
}
use nfp_drv_kmods.Cpp.{target_mu}
use nfp_drv_kmods.Mutex.{
  Mutex, Access, readl, writel, Prog, ret, call, muw, mus, locked, unlocked, is_unlocked, Done,
  trylock, unlock, lock,
}
use nfp_drv_kmods.Mutex.Safe.{
  Free, locked_lem, set_lem, Phase, outside, inside, outside≢inside, Handle, Move, read, sleep,
  clock, set, claim, release, Safe, Leaves, LeavesSome, bind-Safe, trylock-Safe, unlock-Safe,
  lock-Safe,
}
use nfp_drv_kmods.Mutex.System.{
  Engine, IsAtomic, Host, idle, running, lift, Step, start_trylock, start_lock, start_unlock,
  answer, failure, return, Reaches, here, next, Start,
}
use nfp_drv_kmods.Mutex.System.Invariant.{
  HostSafe, at_host, Inv, moved, Effect, same-Effect, set_only,
}

module _ {S : Type 0} (engine : Engine S) (at : ℕ) (atomic : IsAtomic engine at) where
  set-Effect :
      (s : S) (v : ℕ) (p : Phase)
      → (engine.serve (readl (mus target_mu) at) s).0 ≡ ok v
      → Effect p
          (if is_unlocked v then inside else p)
          (engine.word s at)
          (engine.word (engine.serve (readl (mus target_mu) at) s).1 at)
  set-Effect s v p r = record {
    own = λ _ _. rw (atomic.sets s v r) (set_lem (engine.word s at));
    others = λ _ _. rw (atomic.sets s v r) (set_lem (engine.word s at));
    only = rw⁻¹ (atomic.found s v r) (set_only p v);
  }

  claim-Effect :
      (s : S) (v i : ℕ)
      → (engine.serve (writel (muw target_mu) at (locked i)) s).0 ≡ ok v
      → Effect inside inside
          (engine.word s at)
          (engine.word (engine.serve (writel (muw target_mu) at (locked i)) s).1 at)
  claim-Effect s v i r = record {
    own = λ _ _. rw (atomic.writes s (locked i) v r) (locked_lem i);
    others = λ _ h. absurd (h refl);
    only = λ h. inl h;
  }

  release-Effect :
      (s : S) (v i : ℕ)
      → (engine.serve (writel (muw target_mu) at (unlocked i)) s).0 ≡ ok v
      → Effect inside outside
          (engine.word s at)
          (engine.word (engine.serve (writel (muw target_mu) at (unlocked i)) s).1 at)
  release-Effect s v i r = record {
    own = λ h. absurd (outside≢inside h);
    others = λ _ h. absurd (h refl);
    only = λ h. absurd (outside≢inside h);
  }

  move-Effect :
      (s : S) (v : ℕ) (p : Phase) (a : Access) (after : ℕ → Phase)
      → Move at p a after
      → (engine.serve a s).0 ≡ ok v
      → Effect p (after v) (engine.word s at) (engine.word (engine.serve a s).1 at)
  move-Effect s v p _ _ (read _ t a ht) = rw ht (λ r. same-Effect p _ _ (atomic.reads a s))
  move-Effect s v p _ _ (sleep _ ms) = λ r. same-Effect p _ _ (atomic.sleeps ms s)
  move-Effect s v p _ _ (clock _) = λ r. same-Effect p _ _ (atomic.clocks s)
  move-Effect s v p _ _ (set _ t a ht ha) = rw (ht, ha) (set-Effect s v p)
  move-Effect s v _ _ _ (claim i t a ht ha) = rw (ht, ha) (claim-Effect s v i)
  move-Effect s v _ _ _ (release i t a ht ha) = rw (ht, ha) (release-Effect s v i)

  -- A host whose program takes a step that does not reach the device.
  local-Inv :
      (s : S) (hosts : ℕ → Host) (i : ℕ) (h host : Host)
      → (inv : Inv at (engine.word s at) hosts) → hosts i ≡ h
      → ((p : Phase) → HostSafe at p h → HostSafe at p host)
      → Inv at (engine.word s at) (update hosts i host)
  local-Inv s hosts i h host inv is k =
      moved at _ _ hosts i (inv.phases i) host inv (k (inv.phases i) (rw⁻¹ is (inv.safe i)))
        (inv.busy i) (λ j _. inv.busy j) (λ j hi other hj. other (inv.alone i j hi hj))

  answer-Inv :
      (s : S) (hosts : ℕ → Host) (i : ℕ) (a : Access) (e : Errno → Prog (Option Done))
      (k : ℕ → Prog (Option Done)) (v : ℕ)
      → (inv : Inv at (engine.word s at) hosts)
      → Safe at (LeavesSome at) (inv.phases i) (call a e k)
      → (engine.serve a s).0 ≡ ok v
      → Inv at (engine.word (engine.serve a s).1 at) (update hosts i (running (k v)))
  unfolding Safe
  answer-Inv s hosts i a e k v inv (after, move, on_err, on_ok) r =
      let effect = move-Effect s v (inv.phases i) a after move r in
      moved at _ _ hosts i (after v) (running (k v)) inv (on_ok v) (λ h. effect.own h (inv.busy i))
        (λ j other hj. effect.others (inv.busy j hj) (λ hi. other (inv.alone i j hi hj)))
        (λ j h other hj. elim (effect.only h) [
          | inl hi ↦ other (inv.alone i j hi hj)
          | inr free ↦ inv.busy j hj free
        ])

  failure-Inv :
      (s : S) (hosts : ℕ → Host) (i : ℕ) (a : Access) (e : Errno → Prog (Option Done))
      (k : ℕ → Prog (Option Done)) (x : Errno)
      → (inv : Inv at (engine.word s at) hosts)
      → Safe at (LeavesSome at) (inv.phases i) (call a e k)
      → (engine.serve a s).0 ≡ err x
      → Inv at (engine.word (engine.serve a s).1 at) (update hosts i (running (e x)))
  unfolding Safe
  failure-Inv s hosts i a e k x inv (after, move, on_err, on_ok) r =
      moved at _ _ hosts i (inv.phases i) (running (e x)) inv (on_err x)
        (λ h. rw (atomic.failed a s x r) (inv.busy i h))
        (λ j _ hj. rw (atomic.failed a s x r) (inv.busy j hj))
        (λ j hi other hj. other (inv.alone i j hi hj))

  step-Inv :
      (s t : S) (hosts then_hosts : ℕ → Host)
      → Step engine s hosts t then_hosts
      → Inv at (engine.word s at) hosts
      → Inv at (engine.word t at) then_hosts
  unfolding Safe
  step-Inv s t hosts then_hosts (start_trylock _ _ i m is) inv =
      local-Inv s hosts i (idle m) (running (lift (trylock m))) inv is (λ p h.
        bind-Safe at (Leaves at) (LeavesSome at) p (trylock m) _ (trylock-Safe at p m h)
          (λ d q left. left))
  step-Inv s t hosts then_hosts (start_lock _ _ i m fuel hz is) inv =
      local-Inv s hosts i (idle m) (running (lock fuel hz m)) inv is
        (λ p h. lock-Safe at fuel hz p m h)
  step-Inv s t hosts then_hosts (start_unlock _ _ i m is deep) inv =
      local-Inv s hosts i (idle m) (running (lift (unlock m))) inv is (λ p h.
        bind-Safe at (Leaves at) (LeavesSome at) p (unlock m) _ (unlock-Safe at p m h deep)
          (λ d q left. left))
  step-Inv s t hosts then_hosts (answer _ _ i a e k v is r) inv =
      answer-Inv s hosts i a e k v inv (at_host at _ _ _ is (inv.safe i)) r
  step-Inv s t hosts then_hosts (failure _ _ i a e k x is r) inv =
      failure-Inv s hosts i a e k x inv (at_host at _ _ _ is (inv.safe i)) r
  step-Inv s t hosts then_hosts (return _ _ i done is) inv =
      local-Inv s hosts i (running (ret (some done))) (idle (done.1)) inv is (λ p h. h)

  Reaches-Inv :
      (s t : S) (hosts last : ℕ → Host)
      → Reaches engine s hosts t last
      → Inv at (engine.word s at) hosts
      → Inv at (engine.word t at) last
  Reaches-Inv s t hosts last (here _ _) inv = inv
  Reaches-Inv s t hosts last (next {t = u} {mid = mid} steps step) inv =
      step-Inv u t mid last step (Reaches-Inv s u hosts mid steps inv)

Start-Inv : (at word : ℕ) (hosts : ℕ → Host) → Start at hosts → Inv at word hosts
Start-Inv at word hosts start = record {
  phases = λ i. outside;
  safe = λ i.
      let (m, is, target, address, depth) = start i in
      rw is (record { target = target; address = address; held = λ d. absurd (omega arith) });
  busy = λ i h. absurd (outside≢inside h);
  alone = λ i j h. absurd (outside≢inside h);
}

-- Hosts that use one mutex of an engine with the laws of `IsAtomic`, each with calls of
-- `nfp_cpp_mutex_trylock`, `nfp_cpp_mutex_lock` and, while its handle is locked,
-- `nfp_cpp_mutex_unlock`, from handles that are not locked: whatever the order of their accesses,
-- and whichever of them fail, no two hosts between calls have locked handles, and while one has,
-- the lock word is not free.
pub Reaches-Exclusive :
    {S : Type 0} (engine : Engine S) (at : ℕ) (atomic : IsAtomic engine at) (s t : S)
    (hosts last : ℕ → Host)
    → Start at hosts
    → Reaches engine s hosts t last
    → (i : ℕ) (m : Mutex) → last i ≡ idle m
    → 0 < m.depth
    → (¬ Free (engine.word t at)) × ((j : ℕ) (n : Mutex) → last j ≡ idle n → 0 < n.depth → i ≡ j)
Reaches-Exclusive engine at atomic s t hosts last start steps i m is deep =
    let inv =
      Reaches-Inv engine at atomic s t hosts last steps
        (Start-Inv at (engine.word s at) hosts start) in
    let inside_of : (j : ℕ) (n : Mutex) → last j ≡ idle n → 0 < n.depth → inv.phases j ≡ inside =
      λ j n js d.
        let h : Handle at n (inv.phases j) = at_host at _ _ _ js (inv.safe j) in h.held d in
    (
      inv.busy i (inside_of i m is deep),
      λ j n js d. inv.alone i j (inside_of i m is deep) (inside_of j n js d),
    )
