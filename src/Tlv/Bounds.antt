-- ===== src/Tlv/Bounds.antt =====
-- `nfp_net_tlv_caps_parse` (src/nfp_net_ctrl.c) always returns, stays in the BAR, and reports areas
-- that lie in it.
use native.Mathlib.Decide.{dec_lt}
use nfp_drv_kmods.Base.{
  ℕ, zero, suc, ◌+◌, ◌*◌, ◌/◌, ◌%◌, ◌≤◌, ◌<◌, ◌≡◌, refl, Bool, true, false, Option, none, some,
  Bool-cases, ltb-no, lt→ltb, inl, inr, ◌==◌, arith,
}
use nfp_drv_kmods.Tlv.{
  bar_sz, tlv_base, TlvCaps, reset, length_of, type_of, required_of, Outcome, go_on, finish,
  invalid, parse_crypto_ops, parse_value, parse_tlv, Parsed, next_round, parse_from, parse_with,
  caps_parse,
}

-- The areas that the capabilities name lie in the BAR.
pub record Fits (caps : TlvCaps) : Type 0 where
  pub mbox : caps.mbox_off + caps.mbox_len ≤ bar_sz
  pub crypto : caps.crypto_enable_off + 16 ≤ bar_sz
  pub stats : caps.vnic_stats_off + 10 * caps.vnic_stats_cnt ≤ bar_sz

abbrev caps_of : Outcome → TlvCaps
caps_of (go_on c) = c
caps_of (finish c) = c
caps_of (invalid c) = c

crypto-Fits :
    (readl : ℕ → ℕ) (caps : TlvCaps) (at length : ℕ) (scan : Bool)
    → Fits caps
    → at + length ≤ bar_sz
    → Fits (caps_of (parse_crypto_ops readl caps at length scan))
unfolding parse_crypto_ops
crypto-Fits readl caps at length scan f room = ground arith

value-Fits :
    (readl : ℕ → ℕ) (caps : TlvCaps) (at length type : ℕ) (required : Bool)
    → Fits caps
    → at + length ≤ bar_sz
    → Fits (caps_of (parse_value readl caps at length type required))
unfolding parse_value
value-Fits readl caps at length type required f room = ground (
  arith,
  crypto-Fits readl caps at length false f room,
  crypto-Fits readl caps at length true f room,
)

tlv-Fits :
    (readl : ℕ → ℕ) (caps : TlvCaps) (at : ℕ) → Fits caps → Fits (caps_of (parse_tlv readl caps at))
unfolding parse_tlv
tlv-Fits readl caps at f = elim (Bool-cases (length_of (readl at) % 4 == 0)) [
  | inr odd ↦ rw odd f
  | inl even ↦ rw even (elim (dec_lt bar_sz (at + 4 + length_of (readl at))) [
    | yes over ↦ rw (lt→ltb _ _ over) f
    | no room ↦ rw (ltb-no _ _ room) (
        value-Fits readl caps (at + 4) (length_of (readl at)) (type_of (readl at))
          (required_of (readl at)) f (omega arith))
  ])
]

reset-Fits : Fits reset
reset-Fits = record { mbox = omega arith; crypto = omega arith; stats = omega arith }

-- The function returns, and what it leaves fits.
abbrev pub Returns : Option Parsed → Type 0
Returns none = ⊥
Returns (some p) = Fits p.caps

-- One round, from what it did with its TLV.
round-Returns :
    (o : Outcome) (next : ℕ) (rest : TlvCaps → Option Parsed)
    → Fits (caps_of o)
    → ((c : TlvCaps) → Fits c → next + 4 ≤ bar_sz → Returns (rest c))
    → Returns (next_round o next rest)
unfolding next_round
round-Returns (invalid c) next rest f k = f
round-Returns (finish c) next rest f k = f
round-Returns (go_on c) next rest f k = elim (dec_lt bar_sz (next + 4)) [
  | yes over ↦ rw (lt→ltb _ _ over) f
  | no room ↦ rw (ltb-no _ _ room) (k c f (omega arith))
]

-- Each round takes at least the four bytes of a header.
from-Returns :
    (fuel : ℕ) (readl : ℕ → ℕ) (caps : TlvCaps) (at : ℕ)
    → Fits caps
    → at + 4 ≤ bar_sz
    → bar_sz < at + 4 * fuel
    → Returns (parse_from fuel readl caps at)
unfolding parse_from
from-Returns zero readl caps at f inside enough = absurd (omega arith)
from-Returns (suc fuel) readl caps at f inside enough =
    round-Returns (parse_tlv readl caps at) (at + 4 + length_of (readl at)) _
      (tlv-Fits readl caps at f)
      λ c g room. from-Returns fuel readl c (at + 4 + length_of (readl at)) g room (omega arith)

with-Returns : (fuel : ℕ) (readl : ℕ → ℕ) → bar_sz ≤ 4 * fuel → Returns (parse_with fuel readl)
unfolding parse_with
with-Returns fuel readl enough = elim (Bool-cases (readl tlv_base == 0)) [
  | inl absent ↦ rw absent reset-Fits
  | inr present ↦
      rw present (from-Returns fuel readl reset tlv_base reset-Fits (omega arith) (omega arith))
]

-- Whatever the BAR holds, `nfp_net_tlv_caps_parse` returns, and the mailbox, the crypto enable area
-- and the statistics that the capabilities name lie in the BAR.
pub caps_parse-Returns : (readl : ℕ → ℕ) → Returns (caps_parse readl)
unfolding caps_parse
caps_parse-Returns readl = with-Returns (bar_sz / 4) readl (omega arith)

-- Two BARs with the same words.
abbrev pub SameBar : (ℕ → ℕ) → (ℕ → ℕ) → Type 0
SameBar m n = (at : ℕ) → at + 4 ≤ bar_sz → m at ≡ n at

round_same :
    (o : Outcome) (next : ℕ) (r s : TlvCaps → Option Parsed)
    → ((c : TlvCaps) → next + 4 ≤ bar_sz → r c ≡ s c)
    → next_round o next r ≡ next_round o next s
unfolding next_round
round_same (invalid c) next r s h = refl
round_same (finish c) next r s h = refl
round_same (go_on c) next r s h = elim (dec_lt bar_sz (next + 4)) [
  | yes over ↦ rw (lt→ltb _ _ over) refl
  | no room ↦ rw (ltb-no _ _ room) (h c (omega arith))
]

module _ (m n : ℕ → ℕ) (same : SameBar m n) where
  crypto_same :
      (caps : TlvCaps) (at length : ℕ) (scan : Bool)
      → at + length ≤ bar_sz
      → parse_crypto_ops m caps at length scan ≡ parse_crypto_ops n caps at length scan
  unfolding parse_crypto_ops
  crypto_same caps at length scan room = ground (arith, same at)

  value_same :
      (caps : TlvCaps) (at length type : ℕ) (required : Bool)
      → at + length ≤ bar_sz
      → parse_value m caps at length type required ≡ parse_value n caps at length type required
  unfolding parse_value
  value_same caps at length type required room =
      ground (
        arith,
        same at,
        crypto_same caps at length false room,
        crypto_same caps at length true room,
      )

  tlv_same : (caps : TlvCaps) (at : ℕ) → at + 4 ≤ bar_sz → parse_tlv m caps at ≡ parse_tlv n caps at
  unfolding parse_tlv
  tlv_same caps at inside = rw (same at inside) (elim (dec_lt bar_sz (at + 4 + length_of (n at))) [
    | yes over ↦ rw (lt→ltb _ _ over) refl
    | no room ↦
        rw
          (value_same caps (at + 4) (length_of (n at)) (type_of (n at)) (required_of (n at))
            (omega arith))
          refl
  ])

  from_same :
      (fuel : ℕ) (caps : TlvCaps) (at : ℕ)
      → at + 4 ≤ bar_sz
      → parse_from fuel m caps at ≡ parse_from fuel n caps at
  unfolding parse_from
  from_same zero caps at inside = refl
  from_same (suc fuel) caps at inside =
      rw (tlv_same caps at inside, same at inside)
        (round_same (parse_tlv n caps at) (at + 4 + length_of (n at)) _ _
          (λ c room. from_same fuel c (at + 4 + length_of (n at)) room))

with_same : (fuel : ℕ) (m n : ℕ → ℕ) → SameBar m n → parse_with fuel m ≡ parse_with fuel n
unfolding parse_with
with_same fuel m n same =
    rw (same tlv_base (omega arith), from_same m n same fuel reset tlv_base (omega arith)) refl

-- `nfp_net_tlv_caps_parse` reads no word that is not whole in the BAR: two memories that agree in
-- the BAR give the same result.
pub caps_parse_same : (m n : ℕ → ℕ) → SameBar m n → caps_parse m ≡ caps_parse n
unfolding caps_parse
caps_parse_same m n same = with_same (bar_sz / 4) m n same
