-- ===== src/Abm/Tests.antt =====
-- Runs of the u32 offload (src/abm/cls.c), and the theorems about it at them.
use nfp_drv_kmods.Base.{
  bit, u8, arith, ℕ, ◌^◌, ◌≡◌, refl, inl, true, false, none, [], ◌∷◌, ◌*◌, ◌==◌, if◌then◌else◌,
}
use nfp_drv_kmods.Abm.Cls.{
  U32Match, Abm, Link, Knode, find_band, update_band_map, new_match, knode_replace, eth_p_ip,
  u32_terminal,
}
use nfp_drv_kmods.Abm.Cls.Map.{update_band_map-field}
use nfp_drv_kmods.Abm.Cls.Compatible.{Valid, find_band-In}
use nfp_drv_kmods.Abm.Cls.Replace.{Replaced, knode_replace-Replaced}

-- A device with eight classes and four bands.
abbrev device : Abm
device = record { num_prios = 8; num_bands = 4; dscp_mask = 0xe0 }

-- `order_base_2` and `roundup_pow_of_two` at 4 and 8.
abbrev order : ℕ → ℕ
order n = if n == 4 then 2 else 3

abbrev power : ℕ → ℕ
power n = n

-- The two highest classes lead to band 3.
abbrev high : U32Match
high = record { handle = 1; band = 3; mask = 0xc0; val = 0xc0 }

abbrev link : Link
link = record { prio_map = λ i. 0; has_prio = true; def_band = 0; dscp_map = high ∷ [] }

-- A filter of IPv4 for the class 1 that leads to band 2.
abbrev filter : Knode
filter = record {
  handle = 2;
  has_actions = false;
  link_handle = 0;
  flags = u32_terminal;
  off = 0;
  offshift = 0;
  offmask = 0;
  offoff = 0;
  fshift = 0;
  hoff = 0;
  hmask = 0;
  val = 0;
  mask = 0;
  res_class = 0;
  classid = 2;
  nkeys = 1;
  key = record { offmask = 0; off = 0; val = 0x20 * 2 ^ 16; mask = 0xe0 * 2 ^ 16 };
}

link-Valid : Valid link.dscp_map
link-Valid = (tt, tt, tt)

find_band-In_example : find_band (high ∷ []) 0 0xe0 ≡ 3
find_band-In_example = find_band-In (high ∷ []) 0 0xe0 high link-Valid (inl refl) refl

knode_replace-Replaced_example :
    Replaced link
      (new_match filter eth_p_ip)
      (knode_replace order power device link filter eth_p_ip true none)
knode_replace-Replaced_example =
    knode_replace-Replaced order power device link filter eth_p_ip true none link-Valid

-- The filter is offloaded, and the first word of the map has two bits for each class.
offloaded : (knode_replace order power device link filter eth_p_ip true none).1.prio_map 0 ≡ 0xf008
unfolding knode_replace
offloaded = refl

-- The lowest bit of the field of the class 7, which has the band 3.
update_band_map-field_example :
    bit 14 ((update_band_map order power device link).prio_map 0)
    ≡ bit 0 (u8 (find_band link.dscp_map link.def_band (7 * 2 ^ 5)))
update_band_map-field_example =
    update_band_map-field order power device link 7 0 (omega arith) (omega arith) (omega arith)
      (omega arith) (omega arith) (omega arith)
