-- ===== src/Mailbox/CopyOut.antt =====
-- What `nfp_ccm_mbox_copy_out` (src/ccm_mbox.c) reads from the mailbox: the loop over the TLVs.
pub mod Refused
use nfp_drv_kmods.Base.{
  ℕ, zero, suc, ◌+◌, ◌-◌, ◌*◌, ◌/◌, ◌%◌, ◌^◌, Bool, true, false, not, ◌&&◌, ◌||◌, ◌==◌, ltb,
  if◌then◌else◌, Option, none, some, List, [], ◌∷◌, Errno, eio, update,
}
use nfp_drv_kmods.Mailbox.{
  Skb, Caps, CmsgState, reply_found, simple_val, round_up4, hdr_type, hdr_tag, get_type, get_tag,
  reply_of,
}
use nfp_drv_kmods.Mailbox.CopyIn.{tlv_end, tlv_msg, tlv_msg_nosup, tlv_resv}

-- The words of a reply after the copy: the header, and the words behind it in the mailbox.
abbrev pub copied : (ℕ → ℕ) → ℕ → ℕ → (ℕ → ℕ) → ℕ → ℕ
copied bar at length old i = if ltb i ((length + 3) / 4) || i == 0 then bar (at + 4 * i) else old i

-- A request whose reply is at `at`, with the type of its TLV and its length: it is refused, or the
-- reply takes the place of the request in the buffer.
unfoldable pub refuse : Skb → Skb
refuse skb = record skb { failure = some eio }

unfoldable pub accept : (ℕ → ℕ) → ℕ → ℕ → Skb → Skb
accept bar at length skb =
    if skb.posted
    then record skb { state = reply_found }
    else record skb { len = length; words = copied bar at length skb.words; state = reply_found }

unfoldable pub on_reply : (ℕ → ℕ) → ℕ → ℕ → ℕ → Skb → Skb
unfolding refuse accept
on_reply bar type at length skb =
    if type == tlv_msg_nosup
    then refuse skb
    else if not (hdr_type (bar at) == reply_of (get_type skb))
    then refuse skb
    else if not (skb.exp_reply == 0) && not (length == skb.exp_reply)
    then refuse skb
    else if ltb skb.max_len length
    then refuse skb
    else accept bar at length skb

abbrev pub behind : Skb → Option (List Skb) → Option (List Skb)
behind skb none = none
behind skb (some found) = some (skb ∷ found)

-- `nfp_ccm_mbox_find_req`, and what is done with the request that it finds, if it finds one. It
-- stays in the queue, which holds `last`.
unfoldable pub on_req : ℕ → ℕ → (Skb → Skb) → List Skb → Option (List Skb)
on_req tag last f [] = none
on_req tag last f (skb ∷ queue) =
    let rest = behind skb (on_req tag last f queue) in
    if get_tag skb == tag then some (f skb ∷ queue) else if skb.id == last then none else rest

-- What a round of the loop leaves: the loop ends, or it goes on behind the TLV.
pub data Round : Type 0 where
  stop : List Skb → Round
  goto_next : List Skb → Round

abbrev pub from_req : List Skb → Option (List Skb) → Round
from_req queue none = stop queue
from_req queue (some found) = goto_next found

-- A TLV of a type and a length whose value is at `at`.
unfoldable pub on_tlv : (ℕ → ℕ) → ℕ → ℕ → ℕ → ℕ → ℕ → List Skb → Round
unfolding on_req on_reply
on_tlv bar end last type length at queue =
    let tag = hdr_tag (bar at) in
    if ltb end (at + length)
    then stop queue
    else if type == tlv_end
    then stop queue
    else if type == tlv_resv
    then goto_next queue
    else if not (type == tlv_msg) && not (type == tlv_msg_nosup)
    then stop queue
    else if ltb length 4
    then stop queue
    else from_req queue (on_req tag last (on_reply bar type at length) queue)

-- The label `next_tlv`.
unfoldable pub next_tlv : ℕ → ℕ → Round → (ℕ → List Skb → Option (List Skb)) → Option (List Skb)
next_tlv end at' (stop queue) loop = some queue
next_tlv end at' (goto_next queue) loop = if ltb end (at' + 4) then some queue else loop at' queue

-- The loop, with fuel; `off` is the offset of the TLV in the BAR, whose words `bar` gives.
unfoldable pub read_tlvs : ℕ → (ℕ → ℕ) → ℕ → ℕ → ℕ → List Skb → Option (List Skb)
unfolding on_tlv next_tlv
read_tlvs zero bar end last off queue = none
read_tlvs (suc fuel) bar end last off queue =
    let tlv_hdr = bar off in
    let type = tlv_hdr / 2 ^ 16 % 2 ^ 16 in
    let length = tlv_hdr % 2 ^ 16 in
    let at = off + 4 in
    next_tlv end (at + round_up4 length) (on_tlv bar end last type length at queue)
      (read_tlvs fuel bar end last)

-- The loop of `nfp_ccm_mbox_copy_out`. A round takes four bytes at least.
unfoldable pub read_replies : (ℕ → ℕ) → Caps → ℕ → List Skb → Option (List Skb)
unfolding read_tlvs
read_replies bar caps last queue =
    let start = caps.mbox_off + simple_val in
    read_tlvs (caps.mbox_len / 4 + 1) bar (start + caps.mbox_len) last start queue
