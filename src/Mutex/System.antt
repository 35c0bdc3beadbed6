-- ===== src/Mutex/System.antt =====
-- Several hosts that use one mutex of src/nfpcore/nfp_mutex.c, with their accesses interleaved.
pub mod Invariant
pub mod Exclusive
use nfp_drv_kmods.Base.{
  ℕ, ◌<◌, ◌≡◌, ◌≢◌, ◌∙◌, sym, refl, false, inl, inr, ◌==◌, if◌then◌else◌, Option, some, Errno,
  bit_or, update, Bool-cases, ==_iff, Result, ok, err, arith, ◌⊎◌,
}
use nfp_drv_kmods.Cpp.{target_mu}
use nfp_drv_kmods.Mutex.{
  Mutex, Access, readl, writel, msleep, jiffies, Prog, ret, call, muw, mus, mur, locked, unlocked,
  is_unlocked, Done, trylock, unlock, bind, lock,
}
use nfp_drv_kmods.Mutex.Safe.{
  Free, is_unlocked-Free, locked_lem, set_lem, Phase, outside, inside, outside≢inside, Handle, Move,
  read, sleep, clock, set, claim, release, Safe, Leaves, LeavesSome, bind-Safe, trylock-Safe,
  unlock-Safe, lock-Safe,
}

-- The device and the kernel: the word at an address of the MU, and what an access does.
pub record Engine (S : Type 0) : Type 0 where
  pub word : S → ℕ → ℕ
  pub serve : Access → S → Result ℕ × S

-- What the MU atomic engine promises of the lock word at `at`.
pub record IsAtomic {S : Type 0} (engine : Engine S) (at : ℕ) : Type 0 where
  -- A failed access changes nothing.
  pub failed :
      (a : Access) (s : S) (e : Errno)
      → (engine.serve a s).0 ≡ err e
      → engine.word (engine.serve a s).1 at ≡ engine.word s at
  pub reads :
      (a : ℕ) (s : S)
      → engine.word (engine.serve (readl (mur target_mu) a) s).1 at ≡ engine.word s at
  pub sleeps : (ms : ℕ) (s : S) → engine.word (engine.serve (msleep ms) s).1 at ≡ engine.word s at
  pub clocks : (s : S) → engine.word (engine.serve jiffies s).1 at ≡ engine.word s at
  -- test_set_imm gives the word and sets its four low bits.
  pub found :
      (s : S) (v : ℕ) → (engine.serve (readl (mus target_mu) at) s).0 ≡ ok v → v ≡ engine.word s at
  pub sets :
      (s : S) (v : ℕ)
      → (engine.serve (readl (mus target_mu) at) s).0 ≡ ok v
      → engine.word (engine.serve (readl (mus target_mu) at) s).1 at ≡ bit_or (engine.word s at) 0xf
  pub writes :
      (s : S) (w v : ℕ)
      → (engine.serve (writel (muw target_mu) at w) s).0 ≡ ok v
      → engine.word (engine.serve (writel (muw target_mu) at w) s).1 at ≡ w

-- A host between two calls, with its handle, or in a call.
pub data Host : Type 0 where
  idle : Mutex → Host
  running : Prog (Option Done) → Host

abbrev pub lift : Prog Done → Prog (Option Done)
lift p = bind p (λ d. ret (some d))

-- A host starts a call, makes its next access, or returns from a call.
pub data Step {S : Type 0} (engine : Engine S) : S → (ℕ → Host) → S → (ℕ → Host) → Type 0 where
  start_trylock :
      (s : S) (hosts : ℕ → Host) (i : ℕ) (m : Mutex)
      → hosts i ≡ idle m
      → Step engine s hosts s (update hosts i (running (lift (trylock m))))
  start_lock :
      (s : S) (hosts : ℕ → Host) (i : ℕ) (m : Mutex) (fuel hz : ℕ)
      → hosts i ≡ idle m
      → Step engine s hosts s (update hosts i (running (lock fuel hz m)))
  start_unlock :
      (s : S) (hosts : ℕ → Host) (i : ℕ) (m : Mutex)
      → hosts i ≡ idle m
      → 0 < m.depth
      → Step engine s hosts s (update hosts i (running (lift (unlock m))))
  answer :
      (s : S) (hosts : ℕ → Host) (i : ℕ) (a : Access) (e : Errno → Prog (Option Done))
      (k : ℕ → Prog (Option Done)) (v : ℕ)
      → hosts i ≡ running (call a e k)
      → (engine.serve a s).0 ≡ ok v
      → Step engine s hosts (engine.serve a s).1 (update hosts i (running (k v)))
  failure :
      (s : S) (hosts : ℕ → Host) (i : ℕ) (a : Access) (e : Errno → Prog (Option Done))
      (k : ℕ → Prog (Option Done)) (x : Errno)
      → hosts i ≡ running (call a e k)
      → (engine.serve a s).0 ≡ err x
      → Step engine s hosts (engine.serve a s).1 (update hosts i (running (e x)))
  return :
      (s : S) (hosts : ℕ → Host) (i : ℕ) (done : Done)
      → hosts i ≡ running (ret (some done))
      → Step engine s hosts s (update hosts i (idle (done.1)))

pub data Reaches {S : Type 0} (engine : Engine S) : S → (ℕ → Host) → S → (ℕ → Host) → Type 0 where
  here : (s : S) (hosts : ℕ → Host) → Reaches engine s hosts s hosts
  next :
      {s t u : S} {hosts mid last : ℕ → Host}
      → Reaches engine s hosts t mid
      → Step engine t mid u last
      → Reaches engine s hosts u last

-- Every host has a handle of the mutex at `at` that is not locked.
abbrev pub Start : ℕ → (ℕ → Host) → Type 0
Start at hosts =
    (i : ℕ) → (m : Mutex) × (hosts i ≡ idle m) × m.target ≡ target_mu × m.address ≡ at × m.depth ≡ 0
