-- ===== src/Base/Failure.antt =====
use mathlib.Core.Path.{◌≡◌}

-- The errno values that the drivers return, negated in the source, by their kernel names.
pub data Errno : Type 0 where
  eperm enoent eio e2big eagain enomem eacces ebusy eexist enodev einval : Errno
  efbig enospc erange enobufs etimedout erestartsys eopnotsupp efault emsgsize : Errno

-- 0 or a value, or a negative errno.
pub data Result {ℓ} (A : Type ℓ) : Type ℓ where
  ok : A → Result A
  err : Errno → Result A

pub ok-injective {ℓ} : {A : Type ℓ} {a b : A} → ok a ≡ ok b → a ≡ b
ok-injective h = cc
