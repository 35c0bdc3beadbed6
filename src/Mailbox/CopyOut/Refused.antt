-- ===== src/Mailbox/CopyOut/Refused.antt =====
-- The error of a message whose reply is refused (src/ccm_mbox.c).
use nfp_drv_kmods.Base.{ℕ, Bool, not, ◌&&◌, ◌||◌, ◌==◌, ltb}
use nfp_drv_kmods.Mailbox.{Skb, hdr_type, get_type, reply_of}
use nfp_drv_kmods.Mailbox.CopyIn.{tlv_msg_nosup}

-- Whether a reply is taken, by the conditions that the source tests.
unfoldable pub takes : (ℕ → ℕ) → ℕ → ℕ → ℕ → Skb → Bool
takes bar type at length skb =
    not (type == tlv_msg_nosup)
    && (hdr_type (bar at) == reply_of (get_type skb))
    && (skb.exp_reply == 0 || length == skb.exp_reply)
    && not (ltb skb.max_len length)
