-- ===== src/Mutex.antt =====
-- The mutexes in the memory of the device (src/nfpcore/nfp_mutex.c). An operation is a program: it
-- asks for an access to the device or to the clock, and goes on from the answer. `msleep` and
-- `jiffies` belong to the kernel, and the accesses to the MU atomic engine.
pub mod Safe
pub mod System
mod Tests
use nfp_drv_kmods.Base.{
  ℕ, zero, suc, ◌+◌, ◌-◌, ◌*◌, ◌/◌, ◌%◌, ◌^◌, Bool, true, false, not, ◌||◌, ltb, leb, ◌==◌,
  if◌then◌else◌, Option, none, some, Errno, eperm, e2big, ebusy, eacces, einval, erestartsys,
  enomem, Result, ok, err, bit_and, bit_or, ◌<<<◌, ◌>>>◌, u32,
}
use nfp_drv_kmods.Cpp.{cpp_id, interface_type_of, target_mu}

-- `struct nfp_cpp_mutex`, with `interface` for `nfp_cpp_interface(cpp)`.
pub record Mutex : Type 0 where
  pub interface : ℕ
  pub target : ℕ
  pub depth : ℕ
  pub address : ℕ
  pub key : ℕ

-- `nfp_cpp_readl` and `nfp_cpp_writel` with the identifier and the address, the sleep and the clock.
pub data Access : Type 0 where
  readl : ℕ → ℕ → Access
  writel : ℕ → ℕ → ℕ → Access
  msleep : ℕ → Access
  jiffies : Access

-- An access goes on from an error or from the value that is read.
pub data Prog {ℓ} (A : Type ℓ) : Type ℓ where
  ret : A → Prog A
  call : Access → (Errno → Prog A) → (ℕ → Prog A) → Prog A

abbrev pub muw : ℕ → ℕ
muw target = cpp_id target 4 0

abbrev pub mus : ℕ → ℕ
mus target = cpp_id target 5 3

abbrev pub mur : ℕ → ℕ
mur target = cpp_id target 3 0

unfoldable pub locked : ℕ → ℕ
locked interface = bit_or (u32 (interface <<< 16)) 0x000f

unfoldable pub unlocked : ℕ → ℕ
unlocked interface = bit_or (u32 (interface <<< 16)) 0x0000

unfoldable pub owner : ℕ → ℕ
owner val = val >>> 16

unfoldable pub is_locked : ℕ → Bool
is_locked val = bit_and val 0xffff == 0x000f

unfoldable pub is_unlocked : ℕ → Bool
is_unlocked val = bit_and val 0xffff == 0

abbrev pub depth_max : ℕ
depth_max = 0xffff

-- `nfp_cpp_mutex_validate`.
unfoldable pub validate : ℕ → ℕ → ℕ → Option Errno
validate interface target address =
    if interface_type_of interface == 0
    then some einval
    else if not (bit_and address 7 == 0)
    then some einval
    else if not (target == target_mu)
    then some einval
    else none

-- The result of an operation that changes no handle: 0 or a negative errno.
abbrev pub fail : Errno → Prog (Option Errno)
fail e = ret (some e)

pub init : ℕ → ℕ → ℕ → ℕ → Prog (Option Errno)
init interface target address key = elim (validate interface target address) [
  | some e ↦ fail e
  | none ↦
      call (writel (muw target) (address + 4) key) fail
        λ _. call (writel (muw target) address (locked interface)) fail λ _. ret none
]

-- `nfp_cpp_mutex_alloc`; `room` says that `kzalloc` gives memory.
pub alloc : Bool → ℕ → ℕ → ℕ → ℕ → Prog (Option Mutex)
alloc room interface target address key = elim (validate interface target address) [
  | some e ↦ ret none
  | none ↦
      call (readl (mur target) (address + 4)) (λ e. ret none)
        (λ tmp.
          if not (tmp == key)
          then ret none
          else if not room
          then ret none
          else ret (
              some (record {
                interface = interface;
                target = target;
                depth = 0;
                address = address;
                key = key;
              })))
]

abbrev pub Done : Type 0
Done = Option Errno × Mutex

abbrev pub give_up : Mutex → Errno → Prog Done
give_up mutex e = ret (some e, mutex)

-- The end of `nfp_cpp_mutex_trylock`, with the word that test_set_imm found.
unfoldable pub take_if_free : Mutex → ℕ → Prog Done
take_if_free mutex tmp =
    if is_unlocked tmp
    then call (writel (muw (mutex.target)) mutex.address (locked (mutex.interface))) (give_up mutex)
        (λ _. ret (none, record mutex { depth = 1 }))
    else give_up mutex (if is_locked tmp then ebusy else einval)

unfoldable pub trylock : Mutex → Prog Done
trylock mutex =
    if ltb 0 mutex.depth
    then (if mutex.depth == depth_max
        then give_up mutex e2big
        else ret (none, record mutex { depth = mutex.depth + 1 }))
    else call (readl (mur (mutex.target)) (mutex.address + 4)) (give_up mutex) (λ key.
      if not (key == mutex.key)
      then give_up mutex eperm
      else call (readl (mus (mutex.target)) mutex.address) (give_up mutex) (take_if_free mutex))

unfoldable pub unlock : Mutex → Prog Done
unlock mutex =
    if ltb 1 mutex.depth
    then ret (none, record mutex { depth = mutex.depth - 1 })
    else call (readl (mur (mutex.target)) (mutex.address + 4)) (give_up mutex) (λ key.
      if not (key == mutex.key)
      then give_up mutex eperm
      else call (readl (mur (mutex.target)) mutex.address) (give_up mutex) (λ value.
        if not (value == locked (mutex.interface))
        then give_up mutex eacces
        else call (writel (muw (mutex.target)) mutex.address (unlocked (mutex.interface)))
            (give_up mutex) (λ _. ret (none, record mutex { depth = 0 }))))

pub bind : {A B : Type 0} → Prog A → (A → Prog B) → Prog B
bind (ret a) f = f a
bind (call access e k) f = call access (λ x. bind (e x) f) (λ x. bind (k x) f)

abbrev pub is_busy : Errno → Bool
is_busy ebusy = true
is_busy e = false

-- A round of `nfp_cpp_mutex_lock` after `nfp_cpp_mutex_trylock`, with the rest of the loop. The
-- warnings are left out.
unfoldable pub wait_round : ℕ → (Mutex → Prog (Option Done)) → Done → Prog (Option Done)
wait_round err_at rest (none, mutex) = ret (some (none, mutex))
wait_round err_at rest (some e, mutex) =
    if not (is_busy e)
    then ret (some (some e, mutex))
    else call (msleep 1) (λ x. ret (some (some erestartsys, mutex)))
        (λ _.
          call jiffies (λ x. ret none)
            (λ now.
              let r = rest mutex in if leb err_at now then ret (some (some ebusy, mutex)) else r))

-- The loop of `nfp_cpp_mutex_lock`. The fuel counts rounds, and `none` says that it ran out.
pub lock_from : ℕ → ℕ → Mutex → Prog (Option Done)
lock_from zero err_at mutex = ret none
lock_from (suc fuel) err_at mutex = bind (trylock mutex) (wait_round err_at (lock_from fuel err_at))

-- `nfp_cpp_mutex_lock`, with `NFP_MUTEX_WAIT_ERROR` and the `HZ` of the kernel.
unfoldable pub lock : ℕ → ℕ → Mutex → Prog (Option Done)
lock fuel hz mutex = call jiffies (λ e. ret none) (λ now. lock_from fuel (now + 60 * hz) mutex)

-- `nfp_cpp_mutex_reclaim`: 1 if the lock was taken from this interface.
unfoldable pub reclaim : ℕ → ℕ → ℕ → Prog (Result ℕ)
reclaim interface target address = elim (validate interface target address) [
  | some e ↦ ret (err e)
  | none ↦
      call (readl (mur target) address) (λ e. ret (err e))
        (λ tmp.
          if is_unlocked tmp || not (owner tmp == interface)
          then ret (ok 0)
          else call (writel (muw target) address (unlocked interface)) (λ e. ret (err e))
              (λ _. ret (ok 1)))
]
