-- ===== src/Abm/Cls.antt =====
-- The offload of u32 filters to the map from priorities to bands (src/abm/cls.c).
pub mod Compatible
pub mod Replace
pub mod Map
use nfp_drv_kmods.Base.{
  ℕ, zero, suc, ◌+◌, ◌-◌, ◌*◌, ◌/◌, ◌%◌, ◌^◌, Bool, true, false, not, ◌&&◌, ◌||◌, ◌==◌, ltb, leb,
  if◌then◌else◌, Option, none, some, List, [], ◌∷◌, Result, ok, err, Errno, enomem, eopnotsupp,
  update, u8, u32, bit_and, bit_or,
}

-- `struct nfp_abm_u32_match`.
pub record U32Match : Type 0 where
  pub handle : ℕ
  pub band : ℕ
  pub mask : ℕ
  pub val : ℕ

-- The part of `struct nfp_abm` that is used here.
pub record Abm : Type 0 where
  pub num_prios : ℕ
  pub num_bands : ℕ
  pub dscp_mask : ℕ

-- The part of `struct nfp_abm_link`. `prio_map` gives the words.
pub record Link : Type 0 where
  pub prio_map : ℕ → ℕ
  pub has_prio : Bool
  pub def_band : ℕ
  pub dscp_map : List U32Match

-- `struct tc_u32_key`, in the order of the bytes of the CPU.
pub record Key : Type 0 where
  pub offmask : ℕ
  pub off : ℕ
  pub val : ℕ
  pub mask : ℕ

-- `struct tc_cls_u32_knode` with its `sel`, `exts` and `res`. `res` is set.
pub record Knode : Type 0 where
  pub handle : ℕ
  pub has_actions : Bool
  pub link_handle : ℕ
  pub flags : ℕ
  pub off : ℕ
  pub offshift : ℕ
  pub offmask : ℕ
  pub offoff : ℕ
  pub fshift : ℕ
  pub hoff : ℕ
  pub hmask : ℕ
  pub val : ℕ
  pub mask : ℕ
  pub res_class : ℕ
  pub classid : ℕ
  pub nkeys : ℕ
  pub key : Key

-- ETH_P_IP, ETH_P_IPV6 and TC_U32_TERMINAL.
abbrev pub eth_p_ip : ℕ
eth_p_ip = 0x800

abbrev pub eth_p_ipv6 : ℕ
eth_p_ipv6 = 0x86dd

abbrev pub u32_terminal : ℕ
u32_terminal = 1

-- `~` on 32 bits.
abbrev pub inv32 : ℕ → ℕ
inv32 x = 2 ^ 32 - 1 - x % 2 ^ 32

abbrev pub tos_off : ℕ → ℕ
tos_off proto = if proto == eth_p_ip then 16 else 20

-- The part of `nfp_abm_u32_check_knode` before the protocol.
unfoldable pub check_sel : Abm → Knode → Bool
check_sel abm knode =
    not knode.has_actions
    && (knode.link_handle == 0)
    && (knode.flags == u32_terminal)
    && (knode.off == 0)
    && (knode.offshift == 0)
    && (knode.offmask == 0)
    && (knode.offoff == 0)
    && (knode.fshift == 0)
    && (knode.hoff == 0)
    && (knode.hmask == 0)
    && (knode.val == 0)
    && (knode.mask == 0)
    && (knode.res_class == 0)
    && not (leb abm.num_bands knode.classid)
    && (knode.nkeys == 1)

-- The part for the key.
unfoldable pub check_key : Abm → Key → ℕ → Bool
check_key abm k proto =
    (k.offmask == 0)
    && (k.off == 0)
    && (bit_and k.val (inv32 k.mask) == 0)
    && (bit_and (k.mask / 2 ^ tos_off proto) (inv32 abm.dscp_mask) == 0)

-- `nfp_abm_u32_check_knode`.
unfoldable pub check_knode : Abm → Knode → ℕ → Bool
unfolding check_sel check_key
check_knode abm knode proto =
    check_sel abm knode
    && (proto == eth_p_ip || proto == eth_p_ipv6)
    && check_key abm knode.key proto

-- `nfp_abm_find_band_for_prio`.
unfoldable pub find_band : List U32Match → ℕ → ℕ → ℕ
find_band [] def_band prio = def_band
find_band (iter ∷ dscp_map) def_band prio =
    let rest = find_band dscp_map def_band prio in
    if bit_and prio iter.mask == iter.val then iter.band else rest

-- The first match with the handle is taken off the list.
unfoldable pub remove : ℕ → List U32Match → List U32Match
remove handle [] = []
remove handle (iter ∷ dscp_map) =
    let rest = remove handle dscp_map in if iter.handle == handle then dscp_map else iter ∷ rest

unfoldable pub has_handle : ℕ → List U32Match → Bool
has_handle handle [] = false
has_handle handle (iter ∷ dscp_map) =
    let rest = has_handle handle dscp_map in if iter.handle == handle then true else rest

-- The test of the loop over the other matches.
unfoldable pub conflicts : U32Match → List U32Match → Bool
conflicts new [] = false
conflicts new (iter ∷ dscp_map) =
    let rest = conflicts new dscp_map in
    let cmask = bit_and iter.mask new.mask in
    if iter.handle == new.handle
    then rest
    else if (bit_and iter.val cmask == bit_and new.val cmask) && not (iter.band == new.band)
    then true
    else rest

-- The match with the handle of the new one is written over. The loop of the source keeps the last
-- one; there is one at most.
unfoldable pub overwrite : U32Match → List U32Match → List U32Match
overwrite new [] = []
overwrite new (iter ∷ dscp_map) =
    let rest = overwrite new dscp_map in
    if iter.handle == new.handle then new ∷ rest else iter ∷ rest

-- The match of a filter.
abbrev pub new_match : Knode → ℕ → U32Match
new_match knode proto = record {
  handle = knode.handle;
  band = knode.classid;
  mask = knode.key.mask / 2 ^ tos_off proto % 2 ^ 8;
  val = knode.key.val / 2 ^ tos_off proto % 2 ^ 8;
}

abbrev pub no_matches : List U32Match → Bool
no_matches [] = true
no_matches (iter ∷ dscp_map) = false

-- A word of the map with the field at `offset` replaced by the band. The bits of the band that a
-- shift takes out of the 32 are lost. The source's mask is undefined for fields of more than 30 bits.
unfoldable pub set_band : ℕ → ℕ → ℕ → ℕ → ℕ
set_band bits offset word band =
    bit_or (bit_and word (inv32 ((2 ^ bits - 1) * 2 ^ offset))) (u32 (band * 2 ^ offset))

-- The constants of `nfp_abm_update_band_map`, from the kernel's `order_base_2` and
-- `roundup_pow_of_two`.
module _ (order_base_2 roundup_pow_of_two : ℕ → ℕ) where
  abbrev pub bits_per_prio : Abm → ℕ
  bits_per_prio abm = roundup_pow_of_two (order_base_2 abm.num_bands)

  -- `base_shift`, which is unsigned and wraps. A shift by 32 or more is undefined in C; the one of
  -- the loop below leaves 0 there.
  abbrev pub base_shift : Abm → ℕ
  base_shift abm = u32 (8 + 2 ^ 32 - order_base_2 abm.num_prios)

  -- The loop over the priorities from `i`, `cnt` of them.
  unfoldable pub fill_map : Abm → Link → ℕ → ℕ → (ℕ → ℕ) → (ℕ → ℕ)
  unfolding find_band set_band
  fill_map abm alink i zero prio_map = prio_map
  fill_map abm alink i (suc cnt) prio_map =
      let bits = bits_per_prio abm in
      let per_word = 32 / bits in
      let offset = i % per_word * bits in
      let band = u8 (find_band alink.dscp_map alink.def_band (u32 (i * 2 ^ base_shift abm))) in
      let word = set_band bits offset (prio_map (i / per_word)) band in
      fill_map abm alink (i + 1) cnt (update prio_map (i / per_word) word)

  -- `nfp_abm_update_band_map` up to its last call.
  unfoldable pub update_band_map : Abm → Link → Link
  unfolding fill_map
  update_band_map abm alink = record alink {
    has_prio = not (no_matches alink.dscp_map);
    prio_map = fill_map abm alink 0 abm.num_prios alink.prio_map;
  }

  -- `nfp_abm_u32_knode_delete`.
  unfoldable pub knode_delete : Abm → Link → ℕ → Link
  unfolding remove has_handle update_band_map
  knode_delete abm alink handle =
      if has_handle handle alink.dscp_map
      then update_band_map abm (record alink { dscp_map = remove handle alink.dscp_map })
      else alink

  -- The list is changed and the map sent to the firmware, which gives an error or none.
  unfoldable pub store_map :
      Abm → Link → ℕ → Option Errno → List U32Match → Result (Unit {0}) × Link
  unfolding knode_delete update_band_map
  store_map abm alink handle none dscp_map =
      (ok tt, update_band_map abm (record alink { dscp_map = dscp_map }))
  store_map abm alink handle (some e) dscp_map = (
    err eopnotsupp,
    knode_delete abm (update_band_map abm (record alink { dscp_map = dscp_map })) handle,
  )

  -- `nfp_abm_u32_knode_replace`. `memory` says whether a match can be allocated, and `failure` is
  -- what `nfp_abm_ctrl_prio_map_update` returns.
  unfoldable pub knode_replace :
      Abm → Link → Knode → ℕ → Bool → Option Errno → Result (Unit {0}) × Link
  unfolding check_knode conflicts has_handle overwrite store_map knode_delete
  knode_replace abm alink knode proto memory failure =
      let new = new_match knode proto in
      if not (check_knode abm knode proto)
      then (err eopnotsupp, knode_delete abm alink knode.handle)
      else if conflicts new alink.dscp_map
      then (err eopnotsupp, knode_delete abm alink knode.handle)
      else if has_handle knode.handle alink.dscp_map
      then store_map abm alink knode.handle failure (overwrite new alink.dscp_map)
      else if memory
      then store_map abm alink knode.handle failure (new ∷ alink.dscp_map)
      else (err enomem, alink)
