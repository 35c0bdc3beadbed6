-- ===== src/Tlv.antt =====
-- The TLV capabilities of the control BAR (src/nfp_net_ctrl.c). The BAR is a function from an
-- offset to the 32-bit word that `readl` gives there.
pub mod Bounds
mod Tests
use nfp_drv_kmods.Base.{
  ℕ, zero, suc, ◌+◌, ◌*◌, ◌/◌, ◌%◌, ◌^◌, Bool, true, false, not, ◌&&◌, ◌||◌, Option, none, some,
  ltb, ◌==◌, if◌then◌else◌, Errno, einval, bit_and, ◌>>>◌,
}

abbrev pub bar_sz : ℕ
bar_sz = 32 * 1024

abbrev pub tlv_base : ℕ
tlv_base = 0x58

-- `struct nfp_net_tlv_caps`.
pub record TlvCaps : Type 0 where
  pub me_freq_mhz : ℕ
  pub mbox_off : ℕ
  pub mbox_len : ℕ
  pub repr_cap : ℕ
  pub mbox_cmsg_types : ℕ
  pub crypto_ops : ℕ
  pub crypto_enable_off : ℕ
  pub vnic_stats_off : ℕ
  pub vnic_stats_cnt : ℕ
  pub tls_resync_ss : Bool

abbrev pub reset : TlvCaps
reset = record {
  me_freq_mhz = 1200;
  mbox_off = 0x1800;
  mbox_len = 0x1f8;
  repr_cap = 0;
  mbox_cmsg_types = 0;
  crypto_ops = 0;
  crypto_enable_off = 0;
  vnic_stats_off = 0;
  vnic_stats_cnt = 0;
  tls_resync_ss = false;
}

-- The fields of a TLV's header.
abbrev pub length_of : ℕ → ℕ
length_of hdr = bit_and hdr 0xffff

abbrev pub type_of : ℕ → ℕ
type_of hdr = bit_and hdr 0x7fff0000 >>> 16

abbrev pub required_of : ℕ → Bool
required_of hdr = not (bit_and hdr 0x80000000 >>> 31 == 0)

-- What one TLV does: the next one follows, or the function returns 0 or -EINVAL.
pub data Outcome : Type 0 where
  go_on finish : TlvCaps → Outcome
  invalid : TlvCaps → Outcome

-- `nfp_net_tls_parse_crypto_ops`.
pub parse_crypto_ops : (ℕ → ℕ) → TlvCaps → ℕ → ℕ → Bool → Outcome
parse_crypto_ops readl caps at length rx_stream_scan =
    if caps.tls_resync_ss && not rx_stream_scan
    then go_on caps
    else if ltb length 32
    then invalid caps
    else go_on (record caps {
      crypto_ops = readl at;
      crypto_enable_off = at + 16;
      tls_resync_ss = rx_stream_scan;
    })

-- The `switch` over the type, with the value at the offset `at`.
pub parse_value : (ℕ → ℕ) → TlvCaps → ℕ → ℕ → ℕ → Bool → Outcome
unfolding parse_crypto_ops
parse_value readl caps at length type required =
    if type == 0
    then invalid caps
    else if type == 1
    then go_on caps
    else if type == 2
    then (if length == 0 then finish caps else invalid caps)
    else if type == 3
    then (if not (length == 4)
        then invalid caps
        else go_on (record caps { me_freq_mhz = readl at }))
    else if type == 4
    then (if length == 0
        then go_on (record caps { mbox_off = 0; mbox_len = 0 })
        else go_on (record caps { mbox_off = at; mbox_len = length }))
    else if type == 5 || type == 6
    then go_on caps
    else if type == 7
    then (if ltb length 4 then invalid caps else go_on (record caps { repr_cap = readl at }))
    else if type == 10
    then (if ltb length 4 then go_on caps else go_on (record caps { mbox_cmsg_types = readl at }))
    else if type == 11
    then parse_crypto_ops readl caps at length false
    else if type == 12
    then (if not (at % 8 == 0)
        then go_on caps
        else go_on (record caps { vnic_stats_off = at; vnic_stats_cnt = length / 10 }))
    else if type == 13
    then parse_crypto_ops readl caps at length true
    else if not required
    then go_on caps
    else invalid caps

-- The TLV at the offset `at` of its header.
pub parse_tlv : (ℕ → ℕ) → TlvCaps → ℕ → Outcome
unfolding parse_value
parse_tlv readl caps at =
    let hdr = readl at in
    if not (length_of hdr % 4 == 0)
    then invalid caps
    else if ltb bar_sz (at + 4 + length_of hdr)
    then invalid caps
    else parse_value readl caps (at + 4) (length_of hdr) (type_of hdr) (required_of hdr)

-- The return value, `none` for 0, and the capabilities as they are left.
pub record Parsed : Type 0 where
  pub code : Option Errno
  pub caps : TlvCaps

abbrev pub failed : TlvCaps → Parsed
failed caps = record { code = some einval; caps = caps }

-- The end of a round: return, or go on with the next header, if it lies in the BAR.
pub next_round : Outcome → ℕ → (TlvCaps → Option Parsed) → Option Parsed
next_round (invalid c) next rest = some (failed c)
next_round (finish c) next rest = some (record { code = none; caps = c })
next_round (go_on c) next rest =
    let r = rest c in if ltb bar_sz (next + 4) then some (failed c) else r

-- The `while` loop with the header at `at`; `none` says that the fuel ran out.
pub parse_from : ℕ → (ℕ → ℕ) → TlvCaps → ℕ → Option Parsed
unfolding parse_tlv next_round
parse_from zero readl caps at = none
parse_from (suc fuel) readl caps at =
    let next = at + 4 + length_of (readl at) in
    next_round (parse_tlv readl caps at) next (λ c. parse_from fuel readl c next)

-- The body of `nfp_net_tlv_caps_parse`, with the fuel of its loop.
unfoldable pub parse_with : ℕ → (ℕ → ℕ) → Option Parsed
unfolding parse_from
parse_with fuel readl =
    if readl tlv_base == 0
    then some (record { code = none; caps = reset })
    else parse_from fuel readl reset tlv_base

-- A header takes four bytes, so that the BAR holds `bar_sz / 4` at most.
unfoldable pub caps_parse : (ℕ → ℕ) → Option Parsed
caps_parse readl = parse_with (bar_sz / 4) readl
