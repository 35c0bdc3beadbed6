-- ===== src/Ccm/Request.antt =====
-- A request and its reply (src/ccm.c, `nfp_ccm_wait_reply` and `nfp_ccm_communicate`), with the
-- steps of the other contexts, and what the wait queue answers, as an argument.
pub mod Release
pub mod Answer
use nfp_drv_kmods.Base.{
  ℕ, zero, suc, ◌+◌, ◌/◌, ◌%◌, ◌^◌, Bool, true, false, not, ◌&&◌, Option, none, some, ◌∷◌, drop,
  length, u8, ◌==◌, if◌then◌else◌, Result, ok, err, Errno, etimedout, eio,
}
use nfp_drv_kmods.Ccm.{
  Skb, Ccm, get_type, get_tag, abi_version, reply_of, Alloc, alloc_tag, reply, reply_drop_tag,
}

-- What happens around one request. `before i` is what the other contexts do, `nfp_ccm_rx`
-- included, before the i-th time that this one takes the lock to look for its reply. The macro
-- `wait_event_interruptible_timeout` looks `checks` times, and stops at once when it finds the
-- reply; else `interrupted` holds the negative value that it returns, if it does not return 0.
pub record Env : Type 0 where
  pub before : ℕ → Ccm → Ccm
  pub checks : ℕ
  pub interrupted : Option Errno

-- A look, and the next ones if it finds nothing.
pub or_else : Option Skb × Ccm → (Ccm → Option Skb × Ccm) → Option Skb × Ccm
or_else (some skb, c) next = (some skb, c)
or_else (none, c) next = next c

-- Up to `n` looks for a reply, the first of them with number `i`.
unfoldable pub poll : Env → ℕ → ℕ → Ccm → ℕ → Option Skb × Ccm
unfolding or_else reply
poll env zero i ccm tag = (none, ccm)
poll env (suc n) i ccm tag = or_else (reply (env.before i ccm) tag) (λ c. poll env n (i + 1) c tag)

-- What `nfp_ccm_wait_reply` returns; `lost` is a buffer taken off the queue that it neither
-- returns nor frees.
pub record Waited : Type 0 where
  pub result : Result Skb
  pub lost : Option Skb
  pub ccm : Ccm

-- After the last look, which drops the tag.
pub conclude : Option Errno → Option Skb × Ccm → Waited
conclude (some e) (found, c) = record { result = err e; lost = found; ccm = c }
conclude none (some skb, c) = record { result = ok skb; lost = none; ccm = c }
conclude none (none, c) = record { result = err etimedout; lost = none; ccm = c }

-- After `wait_event_interruptible_timeout`, which has looked up to the number `i`.
pub after_wait : Env → ℕ → ℕ → Option Skb × Ccm → Waited
unfolding conclude
after_wait env i tag (some skb, c) = record { result = ok skb; lost = none; ccm = c }
after_wait env i tag (none, c) = conclude env.interrupted (reply_drop_tag (env.before i c) tag)

-- After the 50 looks of the busy loop.
pub after_spin : Env → ℕ → Option Skb × Ccm → Waited
unfolding after_wait poll
after_spin env tag (some skb, c) = record { result = ok skb; lost = none; ccm = c }
after_spin env tag (none, c) = after_wait env (50 + env.checks) tag (poll env env.checks 50 c tag)

pub wait_reply : Env → Ccm → ℕ → Waited
unfolding after_spin
wait_reply env ccm tag = after_spin env tag (poll env 50 0 ccm tag)

-- The request with its header filled in.
pub request : ℕ → ℕ → Skb → Skb
request type tag skb = u8 type ∷ abi_version ∷ u8 (tag / 256) ∷ u8 tag ∷ drop 4 skb

-- What `nfp_ccm_communicate` does: the message that it hands to `__nfp_app_ctrl_tx`, if any, and
-- what it returns. `lost` is as in `Waited`.
pub record Communicated : Type 0 where
  pub sent : Option Skb
  pub result : Result Skb
  pub lost : Option Skb
  pub ccm : Ccm

-- The checks on the type and the size of the reply; a buffer that fails them is freed.
pub check_reply : ℕ → ℕ → Result Skb → Result Skb
check_reply type reply_size (err e) = err e
check_reply type reply_size (ok skb) =
    if not (get_type skb == reply_of type)
    then err eio
    else if not (reply_size == 0) && not (length skb == reply_size)
    then err eio
    else ok skb

pub transmit : Env → Skb → ℕ → ℕ → Ccm → Result ℕ → Communicated
unfolding request check_reply wait_reply
transmit env skb type reply_size c (err e) = record {
  sent = none;
  result = err e;
  lost = none;
  ccm = c;
}
transmit env skb type reply_size c (ok tag) =
    let waited = wait_reply env c tag in
    record {
      sent = some (request type tag skb);
      result = check_reply type reply_size waited.result;
      lost = waited.lost;
      ccm = waited.ccm;
    }

pub communicate : Env → Ccm → Skb → ℕ → ℕ → Communicated
unfolding transmit alloc_tag
communicate env ccm skb type reply_size =
    let r = alloc_tag ccm in transmit env skb type reply_size r.ccm r.tag
