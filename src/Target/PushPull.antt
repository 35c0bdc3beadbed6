-- ===== src/Target/PushPull.antt =====
-- `nfp_target_pushpull` (src/nfpcore/nfp_target.c): the widths of a command's data, as the number
-- `PUSHPULL(pull, push)`.
pub mod Coherent
use nfp_drv_kmods.Base.{
  ℕ, ◌+◌, ◌*◌, ◌^◌, Bool, true, false, List, [], ◌∷◌, ltb, ◌==◌, if◌then◌else◌, Result, ok, err,
  einval, bit_and, bit_or, ◌<<<◌, ◌>>>◌,
}
use nfp_drv_kmods.Target.Tables.{
  p32, p64, pushpull_of, Row, mu_common_rows, mu_ctm_rows, mu_emu_rows, ila_rows, pci_rows,
  crypto_rows, cap_xpb_rows, cls_rows,
}
use nfp_drv_kmods.Cpp.{
  cpp_id, target_of, action_rw, target_nbi, target_qdr, target_ila, target_mu, target_pcie,
  target_arm, target_crypto, target_ct_xpb, target_cls,
}

-- A `switch` over the action and the token of an identifier, with its default.
pub select : ℕ → List Row → Result ℕ → Result ℕ
select key [] default = default
select key ((action, token, pull, push) ∷ rows) default =
    let rest = select key rows default in
    if key == cpp_id 0 action token then ok (pushpull_of pull push) else rest

-- `cpp_id & NFP_CPP_ID(0, ~0, ~0)`.
abbrev pub command_of : ℕ → ℕ
command_of id = bit_and id 0x00ffff00

pub target_rw : ℕ → ℕ → Result ℕ
unfolding select cpp_id
target_rw id pp =
    select (command_of id) ((0, 0, 0, pp) ∷ (1, 0, pp, 0) ∷ (action_rw, 0, pp, pp) ∷ [])
      (err einval)

pub nbi_dma : ℕ → Result ℕ
unfolding select cpp_id
nbi_dma id =
    select (command_of id) ((0, 0, 0, p64) ∷ (1, 0, p64, 0) ∷ (action_rw, 0, p64, p64) ∷ [])
      (err einval)

pub nbi_stats : ℕ → Result ℕ
unfolding select cpp_id
nbi_stats id =
    select (command_of id) ((0, 0, 0, p32) ∷ (1, 0, p32, 0) ∷ (action_rw, 0, p32, p32) ∷ [])
      (err einval)

pub nbi_tm : ℕ → Result ℕ
unfolding select cpp_id
nbi_tm id =
    select (command_of id) ((0, 0, 0, p64) ∷ (1, 0, p64, 0) ∷ (action_rw, 0, p64, p64) ∷ [])
      (err einval)

pub nbi_ppc : ℕ → Result ℕ
unfolding select cpp_id
nbi_ppc id =
    select (command_of id) ((0, 0, 0, p64) ∷ (1, 0, p64, 0) ∷ (action_rw, 0, p64, p64) ∷ [])
      (err einval)

pub nbi : ℕ → ℕ → Result ℕ
unfolding nbi_dma nbi_stats nbi_tm nbi_ppc
nbi id address =
    let rel_addr = bit_and address 0x3fffff in
    if ltb rel_addr (1 <<< 20)
    then nbi_dma id
    else if ltb rel_addr (2 <<< 20)
    then nbi_stats id
    else if ltb rel_addr (3 <<< 20)
    then nbi_tm id
    else nbi_ppc id

pub mu_common : ℕ → Result ℕ
unfolding select cpp_id
mu_common id = select (command_of id) mu_common_rows (err einval)

pub mu_ctm : ℕ → Result ℕ
unfolding select cpp_id mu_common
mu_ctm id = select (command_of id) mu_ctm_rows (mu_common id)

pub mu_emu : ℕ → Result ℕ
unfolding select cpp_id mu_common
mu_emu id = select (command_of id) mu_emu_rows (mu_common id)

pub mu_imu : ℕ → Result ℕ
unfolding mu_common
mu_imu id = mu_common id

pub mu : ℕ → ℕ → Result ℕ
unfolding mu_ctm mu_emu mu_imu
mu id address =
    if ltb address 0x2000000000
    then mu_ctm id
    else if ltb address 0x8000000000
    then mu_emu id
    else if ltb address 0x9800000000
    then mu_ctm id
    else if ltb address 0x9C00000000
    then mu_emu id
    else if ltb address 0xA000000000
    then mu_imu id
    else mu_ctm id

pub ila : ℕ → Result ℕ
unfolding select cpp_id target_rw
ila id = select (command_of id) ila_rows (target_rw id p32)

pub pci : ℕ → Result ℕ
unfolding select cpp_id target_rw
pci id = select (command_of id) pci_rows (target_rw id p32)

pub crypto : ℕ → Result ℕ
unfolding select cpp_id target_rw
crypto id = select (command_of id) crypto_rows (target_rw id p64)

pub cap_xpb : ℕ → Result ℕ
unfolding select cpp_id target_rw
cap_xpb id = select (command_of id) cap_xpb_rows (target_rw id p32)

pub cls : ℕ → Result ℕ
unfolding select cpp_id target_rw
cls id = select (command_of id) cls_rows (target_rw id p32)

pub for_target : ℕ → ℕ → ℕ → Result ℕ
unfolding nbi target_rw ila mu pci crypto cap_xpb cls
for_target target id address =
    if target == target_nbi
    then nbi id address
    else if target == target_qdr
    then target_rw id p32
    else if target == target_ila
    then ila id
    else if target == target_mu
    then mu id address
    else if target == target_pcie
    then pci id
    else if target == target_arm
    then (if ltb address 0x10000 then target_rw id p64 else target_rw id p32)
    else if target == target_crypto
    then crypto id
    else if target == target_ct_xpb
    then cap_xpb id
    else if target == target_cls
    then cls id
    else if target == 0
    then target_rw id p32
    else err einval

unfoldable pub pushpull : ℕ → ℕ → Result ℕ
unfolding for_target target_of
pushpull id address = for_target (target_of id) id address
