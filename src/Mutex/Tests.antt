-- ===== src/Mutex/Tests.antt =====
-- Runs of src/nfpcore/nfp_mutex.c on an engine with one mutex at the address 8.
use nfp_drv_kmods.Base.{
  ℕ, ◌<◌, ◌≡◌, sym, refl, ◌==◌, ◌&&◌, if◌then◌else◌, none, bit_or, update, Result, ok-injective, ok,
  err, Errno, arith, Bool-cases, inl, inr,
}
use nfp_drv_kmods.Cpp.{target_mu, cpp_id}
use nfp_drv_kmods.Mutex.{
  Mutex, Access, readl, writel, msleep, jiffies, mus, trylock, bind, locked, take_if_free,
  is_unlocked,
}
use nfp_drv_kmods.Mutex.Safe.{Free}
use nfp_drv_kmods.Mutex.System.Exclusive.{Reaches-Exclusive}
use nfp_drv_kmods.Mutex.System.{
  Engine, IsAtomic, Host, idle, running, lift, start_trylock, answer, return, Reaches, here, next,
  Start,
}

-- The state is the lock word; the key is 5.
abbrev serve : Access → ℕ → Result ℕ × ℕ
serve (readl id a) w =
    if id == mus target_mu && a == 8
    then (ok w, bit_or w 0xf)
    else (ok (if a == 8 then w else 5), w)
serve (writel id a v) w = if a == 8 then (ok 0, v) else (ok 0, w)
serve (msleep ms) w = (ok 0, w)
serve jiffies w = (ok 0, w)

abbrev engine : Engine ℕ
engine = record { word = λ w a. w; serve = serve }

never_fails : (a : Access) (w : ℕ) (e : Errno) → ¬ ((serve a w).0 ≡ err e)
never_fails (readl id a) w e = elim (Bool-cases (id == mus target_mu && a == 8)) [
  | inl h ↦ rw h (λ f. cc)
  | inr h ↦ rw h (λ f. cc)
]
never_fails (writel id a v) w e = elim (Bool-cases (a == 8)) [
  | inl h ↦ rw h (λ f. cc)
  | inr h ↦ rw h (λ f. cc)
]
never_fails (msleep ms) w e = λ f. cc
never_fails jiffies w e = λ f. cc

found_lem : (v w : ℕ) → (serve (readl (mus target_mu) 8) w).0 ≡ ok v → v ≡ w
unfolding cpp_id
found_lem v w r = sym (ok-injective r)

engine-IsAtomic : IsAtomic engine 8
unfolding cpp_id
engine-IsAtomic = record {
  failed = λ a s e r. absurd (never_fails a s e r);
  reads = λ a s. refl;
  sleeps = λ ms s. refl;
  clocks = λ s. refl;
  found = λ s v r. found_lem v s r;
  sets = λ s v r. refl;
  writes = λ s w v r. refl;
}

abbrev handle : ℕ → Mutex
handle i = record { interface = i; target = target_mu; depth = 0; address = 8; key = 5 }

abbrev hosts : ℕ → Host
hosts i = idle (handle i)

hosts-Start : Start 8 hosts
hosts-Start i = (handle i, refl, refl, refl, refl)

abbrev held : Mutex
held = record (handle 0) { depth = 1 }

-- Host 0 takes the mutex.
abbrev trying : ℕ → Host
trying = update hosts 0 (running (lift (trylock (handle 0))))

abbrev Taken : Type 0
Taken = (l : ℕ → Host) × Reaches engine 0 hosts (locked 0) l × l 0 ≡ idle held

taken : Taken
unfolding trylock bind take_if_free is_unlocked locked cpp_id
taken = (
  _,
  next
      (next
        (next
          (next (next (here 0 hosts) (start_trylock _ _ 0 (handle 0) refl))
            (answer _ _ 0 _ _ _ 5 refl refl))
          (answer _ _ 0 _ _ _ 0 refl refl))
        (answer _ _ 0 _ _ _ 0 refl refl))
      (return _ _ 0 (none, held) refl),
  refl,
)

Reaches-Exclusive_example :
    (¬ Free (locked 0)) × ((j : ℕ) (n : Mutex) → taken.0 j ≡ idle n → 0 < n.depth → 0 ≡ j)
Reaches-Exclusive_example =
    Reaches-Exclusive engine 8 engine-IsAtomic 0 (locked 0) hosts taken.0 hosts-Start taken.1 0 held
      taken.2 (omega arith)
