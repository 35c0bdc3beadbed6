-- ===== src/Ccm.antt =====
-- Common control messages (src/ccm.c, src/ccm.h): request and reply with the firmware over 16-bit
-- tags. The lock `nfp_ctrl_lock` makes each function here one step.
pub mod Tags
pub mod Request
pub mod Sequence
mod Tests
use nfp_drv_kmods.Base.{
  ℕ, zero, suc, ◌+◌, ◌-◌, ◌*◌, ◌/◌, ◌%◌, ◌^◌, Bool, true, false, not, ◌&&◌, Option, none, some,
  List, [], ◌∷◌, ◌++◌, length, get_or, update, u16, ltb, ◌==◌, if◌then◌else◌, Result, ok, err,
  Errno, eagain, etimedout, eio, bit_or,
}

-- A socket buffer is its bytes.
abbrev pub Skb : Type 0
Skb = List ℕ

-- `struct nfp_ccm_hdr`: the type, the version, and the tag in big-endian order.
abbrev pub hdr_size : ℕ
hdr_size = 4

abbrev pub get_type : Skb → ℕ
get_type skb = get_or skb 0 0

abbrev pub get_tag : Skb → ℕ
get_tag skb = get_or skb 2 0 * 256 + get_or skb 3 0

abbrev pub abi_version : ℕ
abi_version = 1

abbrev pub reply_of : ℕ → ℕ
reply_of type = bit_or (2 ^ 7) type

-- `struct nfp_ccm`, the bitmap as a function.
pub record Ccm : Type 0 where
  pub tag_allocator : ℕ → Bool
  pub tag_alloc_next : ℕ
  pub tag_alloc_last : ℕ
  pub replies : List Skb

abbrev pub tag_alloc_span : ℕ
tag_alloc_span = 0xffff / 4

-- The difference of two `u16`.
abbrev pub used_tags : Ccm → ℕ
used_tags ccm = u16 (ccm.tag_alloc_next + 2 ^ 16 - ccm.tag_alloc_last)

pub all_tags_busy : Ccm → Bool
all_tags_busy ccm = ltb tag_alloc_span (used_tags ccm)

-- Beside the new state, whether the WARN_ON fires.
pub record Alloc : Type 0 where
  pub tag : Result ℕ
  pub warned : Bool
  pub ccm : Ccm

pub alloc_tag : Ccm → Alloc
unfolding all_tags_busy
alloc_tag ccm =
    let next = ccm.tag_alloc_next in
    if all_tags_busy ccm then record { tag = err eagain; warned = false; ccm = ccm } else record {
      tag = ok next;
      warned = ccm.tag_allocator next;
      ccm = record ccm {
        tag_allocator = update ccm.tag_allocator next true;
        tag_alloc_next = u16 (next + 1);
      };
    }

-- The `while` loop of `nfp_ccm_free_tag`.
pub advance : ℕ → Ccm → Ccm
advance zero ccm = ccm
advance (suc fuel) ccm =
    elim (not (ccm.tag_allocator ccm.tag_alloc_last)
      && not (ccm.tag_alloc_last == ccm.tag_alloc_next)) [
        | true ↦ advance fuel (record ccm { tag_alloc_last = u16 (ccm.tag_alloc_last + 1) })
        | false ↦ ccm
      ]

-- The loop stops at `tag_alloc_next` at the latest, which is `used_tags` rounds away.
pub free_tag : Ccm → ℕ → Ccm
unfolding advance
free_tag ccm tag =
    advance (used_tags ccm) (record ccm { tag_allocator = update ccm.tag_allocator tag false })

-- The walk over the queue: the first buffer with the tag, and the queue without it.
pub unlink_reply : ℕ → List Skb → Option (Skb × List Skb)
unlink_reply tag [] = none
unlink_reply tag (skb ∷ rest) =
    if get_tag skb == tag then some (skb, rest) else elim (unlink_reply tag rest) [
      | none ↦ none
      | some (found, others) ↦ some (found, skb ∷ others)
    ]

pub reply : Ccm → ℕ → Option Skb × Ccm
unfolding unlink_reply free_tag
reply ccm tag = elim (unlink_reply tag ccm.replies) [
  | none ↦ (none, ccm)
  | some (skb, others) ↦ (some skb, record (free_tag ccm tag) { replies = others })
]

pub drop_unless_found : ℕ → Option Skb × Ccm → Option Skb × Ccm
drop_unless_found tag (some skb, ccm) = (some skb, ccm)
drop_unless_found tag (none, ccm) = (none, free_tag ccm tag)

pub reply_drop_tag : Ccm → ℕ → Option Skb × Ccm
unfolding reply drop_unless_found
reply_drop_tag ccm tag = drop_unless_found tag (reply ccm tag)

-- `nfp_ccm_rx`: what becomes of the buffer is told by whether it joined the queue.
pub rx : Ccm → Skb → Bool × Ccm
rx ccm skb =
    if ltb (length skb) hdr_size
    then (false, ccm)
    else if not (ccm.tag_allocator (get_tag skb))
    then (false, ccm)
    else (true, record ccm { replies = ccm.replies ++ (skb ∷ []) })

pub init : Ccm
init = record { tag_allocator = λ _. false; tag_alloc_next = 0; tag_alloc_last = 0; replies = [] }
