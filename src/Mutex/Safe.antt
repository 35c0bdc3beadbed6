-- ===== src/Mutex/Safe.antt =====
-- The accesses to the lock word that the programs of src/nfpcore/nfp_mutex.c make, in the order in
-- which they may make them.
use nfp_drv_kmods.Base.{
  ℕ, zero, suc, ◌+◌, ◌*◌, ◌%◌, ◌^◌, ◌<◌, ◌≡◌, ◌≢◌, sym, refl, ◌∙◌, Bool, true, false, not, inl, inr,
  ◌==◌, if◌then◌else◌, Option, none, some, Errno, bit_and, bit_or, bit_or_below, bit_or-odd,
  bit_and_mask, Bool-cases, ==_iff, lt→ltb, ltb-no, arith, leb,
}
use native.Mathlib.Decide.{dec_lt}
use nfp_drv_kmods.Cpp.{target_mu}
use nfp_drv_kmods.Mutex.{
  Mutex, Access, readl, writel, msleep, jiffies, Prog, ret, call, muw, mus, mur, locked, unlocked,
  is_unlocked, Done, depth_max, give_up, take_if_free, trylock, unlock, bind, is_busy, wait_round,
  lock_from, lock,
}

-- The lock word is free.
abbrev pub Free : ℕ → Type 0
Free word = word % 2 ^ 16 ≡ 0

pub is_unlocked-Free : (word : ℕ) → is_unlocked word ≡ true → Free word
unfolding is_unlocked
is_unlocked-Free word h = sym (bit_and_mask 16 word) ∙ (==_iff (bit_and word 0xffff) 0).0 h

pub locked_lem : (interface : ℕ) → ¬ Free (locked interface)
unfolding locked
locked_lem interface free =
    let e : bit_or (interface * 2 ^ 16 % 2 ^ 32) 15 ≡ interface * 2 ^ 16 % 2 ^ 32 + 15 =
      bit_or_below 16 (interface % 2 ^ 16) (interface * 2 ^ 16 % 2 ^ 32) 15 (omega arith)
        (omega arith) in
    absurd (omega arith)

-- test_set_imm leaves an odd word.
pub set_lem : (word : ℕ) → ¬ Free (bit_or word 0xf)
set_lem word free = absurd (omega (arith, bit_or-odd word 7))

pub data Phase : Type 0 where
  outside inside : Phase

pub outside≢inside : outside ≢ inside
outside≢inside h = cc

-- A handle of the mutex at `at`. The one that is locked is inside.
pub record Handle (at : ℕ) (mutex : Mutex) (phase : Phase) : Type 0 where
  pub target : mutex.target ≡ target_mu
  pub address : mutex.address ≡ at
  pub held : 0 < mutex.depth → phase ≡ inside

-- The accesses a phase may make, with the phase after each answer.
pub data Move (at : ℕ) : Phase → Access → (ℕ → Phase) → Type 0 where
  read : (p : Phase) (t a : ℕ) → t ≡ target_mu → Move at p (readl (mur t) a) (λ v. p)
  sleep : (p : Phase) (ms : ℕ) → Move at p (msleep ms) (λ v. p)
  clock : (p : Phase) → Move at p jiffies (λ v. p)
  set :
      (p : Phase) (t a : ℕ)
      → t ≡ target_mu
      → a ≡ at
      → Move at p (readl (mus t) a) (λ v. if is_unlocked v then inside else p)
  claim :
      (i t a : ℕ)
      → t ≡ target_mu
      → a ≡ at
      → Move at inside (writel (muw t) a (locked i)) (λ v. inside)
  release :
      (i t a : ℕ)
      → t ≡ target_mu
      → a ≡ at
      → Move at inside (writel (muw t) a (unlocked i)) (λ v. outside)

-- A program keeps to the moves, and what it returns is as `post` says of the phase it ends in.
unfoldable pub Safe : {A : Type 0} → ℕ → (A → Phase → Type 0) → Phase → Prog A → Type 0
Safe at post p (ret x) = post x p
Safe at post p (call a e k) =
    (next : ℕ → Phase) × Move at p a next
    × ((x : Errno) → Safe at post p (e x))
    × ((v : ℕ) → Safe at post (next v) (k v))

abbrev pub Leaves : ℕ → Done → Phase → Type 0
Leaves at done phase = Handle at done.1 phase

abbrev pub LeavesSome : ℕ → Option Done → Phase → Type 0
LeavesSome at none phase = Unit
LeavesSome at (some done) phase = Handle at done.1 phase

pub bind-Safe :
    {A B : Type 0} (at : ℕ) (post : A → Phase → Type 0) (goal : B → Phase → Type 0) (p : Phase)
    (m : Prog A) (f : A → Prog B)
    → Safe at post p m
    → ((a : A) (q : Phase) → post a q → Safe at goal q (f a))
    → Safe at goal p (bind m f)
unfolding Safe bind
bind-Safe at post goal p (ret a) f h k = k a p h
bind-Safe at post goal p (call a e c) f (next, move, on_err, on_ok) k = (
  next,
  move,
  (λ x. bind-Safe at post goal p (e x) f (on_err x) k),
  (λ v. bind-Safe at post goal (next v) (c v) f (on_ok v) k),
)

-- A test, on either branch.
if-Safe :
    {A : Type 0} (at : ℕ) (post : A → Phase → Type 0) (p : Phase) (b : Bool) (m n : Prog A)
    → Safe at post p m
    → Safe at post p n
    → Safe at post p (if b then m else n)
if-Safe at post p true m n h k = h
if-Safe at post p false m n h k = k

-- An access that leaves the phase, with its two continuations.
stay :
    {A : Type 0} (at : ℕ) (post : A → Phase → Type 0) (p : Phase) (a : Access) (e : Errno → Prog A)
    (k : ℕ → Prog A)
    → Move at p a (λ v. p)
    → ((x : Errno) → Safe at post p (e x))
    → ((v : ℕ) → Safe at post p (k v))
    → Safe at post p (call a e k)
unfolding Safe
stay at post p a e k move on_err on_ok = ((λ v. p), move, on_err, on_ok)

pub in-Handle :
    (at depth : ℕ) (p : Phase) (mutex : Mutex)
    → Handle at mutex p
    → Handle at (record mutex { depth = depth }) inside
in-Handle at depth p mutex h = record { target = h.target; address = h.address; held = λ _. refl }

take-Safe :
    (at : ℕ) (p : Phase) (mutex : Mutex) (tmp : ℕ)
    → Handle at mutex p
    → Safe at (Leaves at) (if is_unlocked tmp then inside else p) (take_if_free mutex tmp)
unfolding take_if_free Safe
take-Safe at p mutex tmp h = elim (Bool-cases (is_unlocked tmp)) [
  | inl free ↦ rw free (
    (λ v. inside),
    claim mutex.interface mutex.target mutex.address h.target h.address,
    (λ x. in-Handle at mutex.depth p mutex h),
    λ v. in-Handle at 1 p mutex h,
  )
  | inr busy ↦ rw busy h
]

pub trylock-Safe :
    (at : ℕ) (p : Phase) (mutex : Mutex) → Handle at mutex p → Safe at (Leaves at) p (trylock mutex)
unfolding trylock Safe
trylock-Safe at p mutex h = elim (dec_lt 0 mutex.depth) [
  | yes deep ↦ rw (lt→ltb _ _ deep) (
      if-Safe at (Leaves at) p (mutex.depth == depth_max) _ _ h
        (record { target = h.target; address = h.address; held = λ _. h.held deep }))
  | no flat ↦ rw (ltb-no _ _ flat) (
    (λ v. p),
    read p mutex.target (mutex.address + 4) h.target,
    (λ x. h),
    λ key. if-Safe at (Leaves at) p (not (key == mutex.key)) _ _ h (
      (λ v. if is_unlocked v then inside else p),
      set p mutex.target mutex.address h.target h.address,
      (λ x. h),
      λ v. take-Safe at p mutex v h,
    ),
  )
]

-- The last access of `nfp_cpp_mutex_unlock`.
free-Safe :
    (at : ℕ) (p : Phase) (mutex : Mutex)
    → Handle at mutex p
    → p ≡ inside
    → Safe at (Leaves at) p (
        call
          (writel (muw (mutex.target)) mutex.address (unlocked (mutex.interface)))
          (give_up mutex)
          (λ _. ret (none, record mutex { depth = 0 })))
unfolding Safe
free-Safe at outside mutex h held = absurd (outside≢inside held)
free-Safe at inside mutex h held = (
  (λ v. outside),
  release mutex.interface mutex.target mutex.address h.target h.address,
  (λ x. h),
  λ v. record { target = h.target; address = h.address; held = λ d. absurd (omega arith) },
)

pub unlock-Safe :
    (at : ℕ) (p : Phase) (mutex : Mutex)
    → Handle at mutex p
    → 0 < mutex.depth
    → Safe at (Leaves at) p (unlock mutex)
unfolding unlock Safe
unlock-Safe at p mutex h deep = elim (dec_lt 1 mutex.depth) [
  | yes more ↦
      rw (lt→ltb _ _ more)
        (record { target = h.target; address = h.address; held = λ _. h.held deep })
  | no last ↦ rw (ltb-no _ _ last) (
    (λ v. p),
    read p mutex.target (mutex.address + 4) h.target,
    (λ x. h),
    λ key. if-Safe at (Leaves at) p (not (key == mutex.key)) _ _ h (
      (λ v. p),
      read p mutex.target mutex.address h.target,
      (λ x. h),
      λ value.
          if-Safe at (Leaves at) p (not (value == locked mutex.interface)) _ _ h
            (free-Safe at p mutex h (h.held deep)),
    ),
  )
]

round-Safe :
    (at err_at : ℕ) (p : Phase) (rest : Mutex → Prog (Option Done))
    → ((mutex : Mutex) → Handle at mutex p → Safe at (LeavesSome at) p (rest mutex))
    → (done : Done) → Handle at done.1 p
    → Safe at (LeavesSome at) p (wait_round err_at rest done)
unfolding wait_round Safe
round-Safe at err_at p rest k (none, mutex) h = h
round-Safe at err_at p rest k (some e, mutex) h =
    if-Safe at (LeavesSome at) p (not (is_busy e)) _ _ h (
      (λ v. p),
      sleep p 1,
      (λ x. h),
      λ _. (
        (λ v. p),
        clock p,
        (λ x. tt),
        λ now. if-Safe at (LeavesSome at) p (leb err_at now) _ _ h (k mutex h),
      ),
    )

pub lock_from-Safe :
    (fuel at err_at : ℕ) (p : Phase) (mutex : Mutex)
    → Handle at mutex p
    → Safe at (LeavesSome at) p (lock_from fuel err_at mutex)
unfolding lock_from Safe
lock_from-Safe zero at err_at p mutex h = tt
lock_from-Safe (suc fuel) at err_at p mutex h =
    bind-Safe at (Leaves at) (LeavesSome at) p (trylock mutex)
      (wait_round err_at (lock_from fuel err_at)) (trylock-Safe at p mutex h)
      (λ done q left.
        round-Safe at err_at q (lock_from fuel err_at) (λ m g. lock_from-Safe fuel at err_at q m g)
          done left)

pub lock-Safe :
    (at fuel hz : ℕ) (p : Phase) (mutex : Mutex)
    → Handle at mutex p
    → Safe at (LeavesSome at) p (lock fuel hz mutex)
unfolding lock Safe
lock-Safe at fuel hz p mutex h =
    ((λ v. p), clock p, (λ x. tt), λ now. lock_from-Safe fuel at (now + 60 * hz) p mutex h)
