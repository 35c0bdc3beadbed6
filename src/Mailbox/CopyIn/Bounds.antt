-- ===== src/Mailbox/CopyIn/Bounds.antt =====
-- Where `nfp_ccm_mbox_copy_in` (src/ccm_mbox.c) writes, for the batch that
-- `nfp_ccm_mbox_run_queue_unlock` chooses.
use native.Mathlib.Decide.{dec_lt}
use nfp_drv_kmods.Base.{
  ℕ, zero, suc, ◌+◌, ◌*◌, ◌/◌, ◌%◌, ◌^◌, ◌<◌, ◌≤◌, ◌≡◌, refl, inl, inr, Bool-cases, ◌==◌, ==-yes,
  ltb, lt→ltb, ltb-no, List, [], ◌∷◌, ◌++◌, arith, differ, if◌then◌else◌,
}
use nfp_drv_kmods.Mailbox.{Skb, Caps, busy, simple_val, round_up4, max_msg}
use nfp_drv_kmods.Mailbox.CopyIn.{
  Write, write_tlv, tlv_end, write_words, write_request, write_skb, write_until, copy_in,
}
use nfp_drv_kmods.Mailbox.Queue.{set_state, batch_limit, extend_batch, choose_batch}

-- Every word that is written ends at `hi` or before.
abbrev pub Below : ℕ → List Write → Type 0
Below hi [] = Unit
Below hi (w ∷ writes) = (w.0 + 4 ≤ hi) × Below hi writes

append-Below : (hi : ℕ) (ws vs : List Write) → Below hi ws → Below hi vs → Below hi (ws ++ vs)
append-Below hi [] vs b c = c
append-Below hi (w ∷ ws) vs (l, b) c = (l, append-Below hi ws vs b c)

write_words-Below :
    (hi off : ℕ) (words : ℕ → ℕ) (i cnt : ℕ)
    → off + 4 * cnt ≤ hi
    → Below hi (write_words off words i cnt)
unfolding write_words
write_words-Below hi off words i zero l = tt
write_words-Below hi off words i (suc cnt) l =
    (omega arith, write_words-Below hi (off + 4) words (i + 1) cnt (omega arith))

-- A TLV of four bytes more where the reply is larger than the request.
pub reserved : Skb → ℕ
reserved skb = if ltb (round_up4 skb.len) skb.max_len then 4 else 0

-- What the request is and what its reply may be: at least the request, in whole words.
pub record IsPrepared (skb : Skb) : Type 0 where
  pub holds : round_up4 skb.len ≤ skb.max_len

write_request-Below :
    (hi off : ℕ) (skb : Skb) → off + 4 + round_up4 skb.len ≤ hi → Below hi (write_request off skb)
unfolding write_request
write_request-Below hi off skb l =
    let words = write_words-Below hi (off + 4) skb.words 0 (skb.len / 4) (omega arith) in
    (
      omega arith,
      append-Below hi _ _ words (elim (Bool-cases (skb.len % 4 == 0)) [
        | inl even ↦ rw even tt
        | inr odd ↦ let ne = differ (skb.len % 4) 0 odd in rw odd ((omega arith), tt)
      ]),
    )

write_skb-end :
    (off : ℕ) (skb : Skb)
    → IsPrepared skb
    → (write_skb off skb).1 ≡ off + (4 + skb.max_len) + reserved skb
unfolding write_skb reserved
write_skb-end off skb p =
    let l = p.holds in
    elim (dec_lt (round_up4 skb.len) skb.max_len) [
      | yes more ↦ rw (lt→ltb _ _ more) (omega arith)
      | no same ↦ rw (ltb-no _ _ same) (omega arith)
    ]

write_skb-Below :
    (hi off : ℕ) (skb : Skb)
    → IsPrepared skb
    → off + (4 + skb.max_len) + reserved skb ≤ hi
    → Below hi (write_skb off skb).0
unfolding write_skb reserved
write_skb-Below hi off skb p = elim (dec_lt (round_up4 skb.len) skb.max_len) [
  | yes more ↦ rw (lt→ltb _ _ more) (λ l.
      append-Below hi (write_request off skb) _ (write_request-Below hi off skb (omega arith))
        ((omega arith), tt))
  | no same ↦ rw (ltb-no _ _ same) (λ l. write_request-Below hi off skb (omega arith))
]

-- The bytes of those TLVs in the batch up to `last`.
pub batch_reserved : ℕ → List Skb → ℕ
unfolding reserved
batch_reserved last [] = 0
batch_reserved last (skb ∷ queue) =
    let rest = batch_reserved last queue in
    if skb.id == last then reserved skb else reserved skb + rest

abbrev pub AllPrepared : List Skb → Type 0
AllPrepared [] = Unit
AllPrepared (skb ∷ queue) = IsPrepared skb × AllPrepared queue

-- What a batch takes of the mailbox, in the count of the source.
batch_used : ℕ → List Skb → ℕ
batch_used last [] = 0
batch_used last (skb ∷ queue) =
    let rest = batch_used last queue in
    if skb.id == last then 4 + skb.max_len else 4 + skb.max_len + rest

write_until-Below :
    (hi off last : ℕ) (queue : List Skb)
    → AllPrepared queue
    → off + batch_used last queue + batch_reserved last queue + 4 ≤ hi
    → Below hi (write_until off last queue)
unfolding write_until batch_used batch_reserved
write_until-Below hi off last [] p = λ l. ((omega arith), tt)
write_until-Below hi off last (skb ∷ queue) (p, ps) = elim (Bool-cases (skb.id == last)) [
  | inl is ↦ rw is (λ l.
      append-Below hi (write_skb off skb).0 _ (write_skb-Below hi off skb p (omega arith))
        ((omega (arith, write_skb-end off skb p)), tt))
  | inr other ↦ rw other (λ l.
      append-Below hi (write_skb off skb).0 _ (write_skb-Below hi off skb p (omega arith)) (
        write_until-Below hi (write_skb off skb).1 last queue ps
          (omega (arith, write_skb-end off skb p))))
]

batch_used-cons :
    (last : ℕ) (skb : Skb) (queue : List Skb)
    → batch_used last (skb ∷ queue) ≤ 4 + skb.max_len + batch_used last queue
unfolding batch_used
batch_used-cons last skb queue = ground arith

batch_used-last : (skb : Skb) (queue : List Skb) → batch_used skb.id (skb ∷ queue) ≡ 4 + skb.max_len
unfolding batch_used
batch_used-last skb queue = rw (==-yes skb.id skb.id refl) refl

-- A first message with the batch behind it takes no more than `total`, with `c` before it.
unfoldable Within : ℕ → ℕ → Skb → List Skb × ℕ → Type 0
Within c total first chosen = c + batch_used chosen.1 (first ∷ chosen.0) ≤ total

used-Within :
    (c total : ℕ) (first : Skb) (queue : List Skb) (last : ℕ)
    → c + batch_used last (first ∷ queue) ≤ total
    → Within c total first (queue, last)
unfolding Within
used-Within c total first queue last l = l

Within-used :
    (c total : ℕ) (first : Skb) (chosen : List Skb × ℕ)
    → Within c total first chosen
    → c + batch_used chosen.1 (first ∷ chosen.0) ≤ total
unfolding Within
Within-used c total first chosen l = l

extend_batch-Within :
    (c total cnt : ℕ) (first : Skb) (queue : List Skb)
    → c + (4 + first.max_len) ≤ total
    → Within c total first (extend_batch total (c + (4 + first.max_len)) cnt first.id queue)
unfolding extend_batch
extend_batch-Within c total cnt first [] l =
    used-Within c total first [] first.id (omega (arith, batch_used-last first []))
extend_batch-Within c total cnt first (skb ∷ queue) l =
    let used = c + (4 + first.max_len) in
    let skb' = set_state busy skb in
    let more = extend_batch total (used + (4 + skb.max_len)) (cnt + 1) skb.id queue in
    elim (dec_lt total (c + (4 + first.max_len) + (4 + skb.max_len))) [
      | yes over ↦ rw (lt→ltb _ _ over) (
          used-Within c total first (skb ∷ queue) first.id
            (omega (arith, batch_used-last first (skb ∷ queue))))
      | no room ↦ rw (ltb-no _ _ room) (elim (Bool-cases (cnt + 1 == batch_limit)) [
        | inl e' ↦ rw e' (
            used-Within c total first (skb' ∷ queue) skb.id (
              omega
                (arith, batch_used-cons skb.id first (skb' ∷ queue), batch_used-last skb' queue)))
        | inr e' ↦
            let rest = extend_batch-Within used total (cnt + 1) skb' queue (omega arith) in
            let fits = Within-used used total skb' more rest in
            rw e' (
              used-Within c total first (skb' ∷ more.0) more.1
                (omega (arith, fits, batch_used-cons more.1 first (skb' ∷ more.0))))
      ])
    ]

extend_batch-AllPrepared :
    (total used cnt last : ℕ) (queue : List Skb)
    → AllPrepared queue
    → AllPrepared (extend_batch total used cnt last queue).0
unfolding extend_batch
extend_batch-AllPrepared total used cnt last [] p = tt
extend_batch-AllPrepared total used cnt last (skb ∷ queue) (p, ps) =
    let rest =
      extend_batch-AllPrepared total (used + (4 + skb.max_len)) (cnt + 1) skb.id queue ps in
    let p' : IsPrepared (set_state busy skb) = record { holds = p.holds } in
    elim (Bool-cases (ltb total (used + (4 + skb.max_len)))) [
      | inl e ↦ rw e (p, ps)
      | inr e ↦ rw e (elim (Bool-cases (cnt + 1 == batch_limit)) [
        | inl e' ↦ rw e' (p', ps)
        | inr e' ↦ rw e' (p', rest)
      ])
    ]

-- For the batch that a runner chooses from a queue of prepared messages, whose first one is at most
-- the largest that is prepared, all words that are written to the mailbox end in it or behind its
-- end by at most four bytes for each message of the batch whose reply may be larger than its request.
pub copy_in-Below :
    (caps : Caps) (first : Skb) (queue : List Skb)
    → AllPrepared (first ∷ queue)
    → first.max_len + simple_val + 8 ≤ caps.mbox_len
    → let (queue', last) = choose_batch caps (first ∷ queue) in
      Below (caps.mbox_off + caps.mbox_len + batch_reserved last queue') (copy_in caps last queue')
unfolding choose_batch copy_in
copy_in-Below caps first queue (p, ps) fits =
    let cnt = simple_val + 4 + (4 + first.max_len) in
    let (more, last) = extend_batch caps.mbox_len cnt 1 first.id queue in
    let within =
      Within-used 12 caps.mbox_len first (more, last)
        (extend_batch-Within 12 caps.mbox_len 1 first queue (omega arith)) in
    let prepared = extend_batch-AllPrepared caps.mbox_len cnt 1 first.id queue ps in
    write_until-Below _ (caps.mbox_off + simple_val) last (first ∷ more) (p, prepared)
      (omega (arith, within))

-- A message whose request is smaller than the largest reply, and that is prepared for that reply,
-- alone in its batch, in a mailbox of 16 bytes or more: the last word that is written, the END TLV,
-- ends behind the mailbox.
pub copy_in-past_end :
    (caps : Caps) (skb : Skb)
    → skb.max_len ≡ max_msg caps
    → round_up4 skb.len < skb.max_len
    → 16 ≤ caps.mbox_len
    → caps.mbox_len < 2 ^ 32
    → (writes : List Write) × (off : ℕ) × (copy_in caps skb.id (skb ∷ [])
        ≡ writes ++ (write_tlv off tlv_end 0 ∷ []))
      × (caps.mbox_off + caps.mbox_len < off + 4)
unfolding copy_in write_until max_msg reserved
copy_in-past_end caps skb more room small long =
    let start = caps.mbox_off + simple_val in
    let p : IsPrepared skb = record { holds = omega arith } in
    let four : reserved skb ≡ 4 = rw (lt→ltb _ _ room) refl in
    (
      (write_skb start skb).0,
      (write_skb start skb).1,
      (rw (==-yes skb.id skb.id refl) refl),
      (omega (arith, more, write_skb-end start skb p, four)),
    )
