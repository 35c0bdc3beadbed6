-- ===== src/Mailbox.antt =====
-- Control messages through the mailbox of a vNIC (src/ccm_mbox.c): a message and its control buffer
-- here, what is written to the mailbox in Mailbox/CopyIn, what is read from it in Mailbox/CopyOut,
-- the queue and its runners in Mailbox/Queue, and the threads in Mailbox/System.
pub mod CopyIn
pub mod CopyOut
pub mod Queue
pub mod System
mod Tests
use nfp_drv_kmods.Base.{
  ℕ, ◌+◌, ◌-◌, ◌*◌, ◌/◌, ◌%◌, ◌^◌, Bool, true, false, not, ◌||◌, ◌==◌, ltb, if◌then◌else◌, Option,
  none, some, Errno, einval, enomem, emsgsize, Result, ok, err, update, max, u32, bit_or,
}

-- `enum nfp_net_mbox_cmsg_state`.
pub data CmsgState : Type 0 where
  queued next busy reply_found finished : CmsgState

-- A socket buffer with its `struct nfp_ccm_mbox_cmsg_cb`. `id` is its address, `words` its data as
-- 32-bit words in big-endian order, and `room` the bytes from its data to its end. The field `failure`
-- is `err`.
pub record Skb : Type 0 where
  pub id : ℕ
  pub len : ℕ
  pub words : ℕ → ℕ
  pub room : ℕ
  pub state : CmsgState
  pub failure : Option Errno
  pub max_len : ℕ
  pub exp_reply : ℕ
  pub posted : Bool

-- `struct nfp_ccm_hdr` in the first word: the type, the version and the tag.
abbrev pub hdr_type : ℕ → ℕ
hdr_type raw = raw / 2 ^ 24 % 2 ^ 8

abbrev pub hdr_tag : ℕ → ℕ
hdr_tag raw = raw % 2 ^ 16

abbrev pub get_type : Skb → ℕ
get_type skb = hdr_type (skb.words 0)

abbrev pub get_tag : Skb → ℕ
get_tag skb = hdr_tag (skb.words 0)

abbrev pub reply_of : ℕ → ℕ
reply_of type = bit_or 128 type

-- NFP_NET_CFG_MBOX_SIMPLE_VAL.
abbrev pub simple_val : ℕ
simple_val = 8

abbrev pub round_up4 : ℕ → ℕ
round_up4 n = (n + 3) / 4 * 4

abbrev pub round_down4 : ℕ → ℕ
round_down4 n = n / 4 * 4

-- The part of `struct nfp_net_tlv_caps` that says where the mailbox is.
pub record Caps : Type 0 where
  pub mbox_off : ℕ
  pub mbox_len : ℕ
  pub mbox_cmsg_types : ℕ

-- `nfp_ccm_mbox_max_msg`, in the arithmetic of u32.
unfoldable pub max_msg : Caps → ℕ
max_msg caps = u32 (round_down4 caps.mbox_len + 2 ^ 32 - simple_val - 8)

-- `nfp_ccm_mbox_msg_init`.
unfoldable pub msg_init : Skb → ℕ → ℕ → Skb
msg_init skb exp_reply max_len = record skb {
  state = queued;
  failure = none;
  max_len = max_len;
  exp_reply = exp_reply;
  posted = false;
}

-- `nfp_ccm_mbox_done`, `nfp_ccm_mbox_in_progress`, `nfp_ccm_mbox_should_run`, and whether a reply
-- was found.
abbrev pub is_done : CmsgState → Bool
is_done finished = true
is_done other = false

abbrev pub in_progress : CmsgState → Bool
in_progress queued = false
in_progress next = false
in_progress other = true

abbrev pub should_run : CmsgState → Bool
should_run next = true
should_run other = false

abbrev pub is_found : CmsgState → Bool
is_found reply_found = true
is_found other = false

-- The end of `nfp_ccm_mbox_msg_prepare`: the lengths of the request and of the reply.
unfoldable pub prepare_len : Caps → Skb → ℕ → ℕ → Result Skb
unfolding max_msg msg_init
prepare_len caps skb reply_size max_reply_size =
    let max_len = max max_reply_size (round_up4 skb.len) in
    if ltb (max_msg caps) max_len then err emsgsize else ok (msg_init skb reply_size max_len)

-- `nfp_ccm_mbox_msg_prepare`, where `memory` says whether the buffer can be expanded.
unfoldable pub msg_prepare : Caps → Skb → ℕ → ℕ → ℕ → Bool → Result Skb
unfolding prepare_len
msg_prepare caps skb type reply_size max_reply_size memory =
    let wanted = round_up4 (if max_reply_size == 0 then max_msg caps else max_reply_size) in
    let bigger = record skb { room = max skb.room wanted } in
    if caps.mbox_cmsg_types / 2 ^ type % 2 == 0
    then err einval
    else if ltb skb.room wanted
    then (if memory then prepare_len caps bigger reply_size wanted else err enomem)
    else prepare_len caps skb reply_size wanted

-- `nfp_ccm_mbox_fits`.
unfoldable pub fits : Caps → ℕ → Bool
unfolding max_msg
fits caps size = not (ltb (max_msg caps) size)

-- The length of the buffer of `nfp_ccm_mbox_msg_alloc`.
unfoldable pub alloc_len : Caps → ℕ → ℕ → ℕ
unfolding max_msg
alloc_len caps req_size reply_size =
    round_up4 (if reply_size == 0 then max_msg caps else max req_size reply_size)
