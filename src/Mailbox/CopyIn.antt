-- ===== src/Mailbox/CopyIn.antt =====
-- What `nfp_ccm_mbox_copy_in` (src/ccm_mbox.c) writes to the mailbox.
pub mod Bounds
use nfp_drv_kmods.Base.{
  ℕ, zero, suc, ◌+◌, ◌-◌, ◌*◌, ◌/◌, ◌%◌, ◌^◌, ◌==◌, ltb, if◌then◌else◌, List, [], ◌∷◌, ◌++◌,
}
use nfp_drv_kmods.Mailbox.{Skb, Caps, simple_val, round_up4}

-- `enum nfp_ccm_mbox_tlv_type`.
abbrev pub tlv_end : ℕ
tlv_end = 1

abbrev pub tlv_msg : ℕ
tlv_msg = 2

abbrev pub tlv_msg_nosup : ℕ
tlv_msg_nosup = 3

abbrev pub tlv_resv : ℕ
tlv_resv = 4

-- A write is the offset in the BAR and the word. `FIELD_PREP` of the two halves.
abbrev pub Write : Type 0
Write = ℕ × ℕ

abbrev pub write_tlv : ℕ → ℕ → ℕ → Write
write_tlv off type len = (off, type % 2 ^ 16 * 2 ^ 16 + len % 2 ^ 16)

-- The loop over the whole words, from the word `i`.
unfoldable pub write_words : ℕ → (ℕ → ℕ) → ℕ → ℕ → List Write
write_words off words i zero = []
write_words off words i (suc cnt) = (off, words i) ∷ write_words (off + 4) words (i + 1) cnt

-- The first `n` bytes of a word, 0 after them.
abbrev pub first_bytes : ℕ → ℕ → ℕ
first_bytes n word = word / 2 ^ (8 * (4 - n)) * 2 ^ (8 * (4 - n))

-- The request with its TLV.
unfoldable pub write_request : ℕ → Skb → List Write
unfolding write_words
write_request off skb =
    let cnt = skb.len / 4 in
    let tail =
      if skb.len % 4 == 0
      then []
      else (off + 4 + 4 * cnt, first_bytes (skb.len % 4) (skb.words cnt)) ∷ [] in
    write_tlv off tlv_msg skb.len ∷ (write_words (off + 4) skb.words 0 cnt ++ tail)

-- What one message writes at `off`, and the offset after it. `reserve` is an int.
unfoldable pub write_skb : ℕ → Skb → List Write × ℕ
unfolding write_request
write_skb off skb =
    let len = round_up4 skb.len in
    let reserve = skb.max_len - len in
    let body = write_request off skb in
    if ltb len skb.max_len
    then (body ++ (write_tlv (off + 4 + len) tlv_resv reserve ∷ []), off + 4 + len + (4 + reserve))
    else (body, off + 4 + len)

-- The loop from the head of the queue to `last`, and the TLV at the end. It stays in the queue,
-- which holds `last`.
unfoldable pub write_until : ℕ → ℕ → List Skb → List Write
unfolding write_skb
write_until off last [] = write_tlv off tlv_end 0 ∷ []
write_until off last (skb ∷ queue) =
    let (writes, off') = write_skb off skb in
    let more = write_until off' last queue in
    if skb.id == last then writes ++ (write_tlv off' tlv_end 0 ∷ []) else writes ++ more

unfoldable pub copy_in : Caps → ℕ → List Skb → List Write
unfolding write_until
copy_in caps last queue = write_until (caps.mbox_off + simple_val) last queue
