-- ===== src/Tlv/Tests.antt =====
-- Runs of src/nfp_net_ctrl.c.
use nfp_drv_kmods.Base.{ℕ, ◌+◌, ◌*◌, ◌^◌, ◌≡◌, refl, some, none, ◌==◌, ==-no, arith, if◌then◌else◌}
use nfp_drv_kmods.Tlv.{reset, failed, parse_with, caps_parse}
use nfp_drv_kmods.Tlv.Bounds.{SameBar, caps_parse_same, Returns, caps_parse-Returns}

-- A mailbox of 0x20 bytes, the frequency, and the end.
abbrev bar : ℕ → ℕ
bar at =
    if at == 0x58
    then 4 * 2 ^ 16 + 0x20
    else if at == 0x7c
    then 3 * 2 ^ 16 + 4
    else if at == 0x80
    then 900
    else if at == 0x84
    then 2 * 2 ^ 16
    else 0

bar_parsed :
    caps_parse bar
    ≡ some (record {
      code = none;
      caps = record reset { me_freq_mhz = 900; mbox_off = 0x5c; mbox_len = 0x20 };
    })
unfolding caps_parse parse_with
bar_parsed = refl

-- A frequency of eight bytes.
bad_parsed : caps_parse (λ at. 3 * 2 ^ 16 + 8) ≡ some (failed reset)
unfolding caps_parse parse_with
bad_parsed = refl

bar_same : SameBar bar (λ at. if at == 2 ^ 15 then 7 else bar at)
bar_same at h = rw (==-no at (2 ^ 15) (omega arith)) refl

caps_parse_same_example : caps_parse bar ≡ caps_parse (λ at. if at == 2 ^ 15 then 7 else bar at)
caps_parse_same_example = caps_parse_same bar (λ at. if at == 2 ^ 15 then 7 else bar at) bar_same

caps_parse-Returns_example : Returns (caps_parse bar)
caps_parse-Returns_example = caps_parse-Returns bar
