-- ===== src/Cpp.antt =====
-- The CPP identifiers of src/nfpcore/nfp_cpp.h and src/nfpcore/nfp6000/nfp6000.h, and the targets.

pub mod Fields
use nfp_drv_kmods.Base.{ℕ, ◌+◌, ◌-◌, ◌*◌, ◌/◌, ◌^◌, bit_and, bit_or, ◌<<<◌, ◌>>>◌}

-- `NFP_CPP_ID` and `NFP_CPP_ISLAND_ID`.
unfoldable pub cpp_id : ℕ → ℕ → ℕ → ℕ
cpp_id target action token =
    bit_or (bit_or (bit_and target 0x7f <<< 24) (bit_and token 0xff <<< 16))
      (bit_and action 0xff <<< 8)

unfoldable pub target_of : ℕ → ℕ
target_of id = bit_and (id >>> 24) 0x1f

unfoldable pub token_of : ℕ → ℕ
token_of id = bit_and (id >>> 16) 0xff

unfoldable pub action_of : ℕ → ℕ
action_of id = bit_and (id >>> 8) 0xff

unfoldable pub island_of : ℕ → ℕ
island_of id = bit_and (id >>> 0) 0xff

abbrev pub action_rw : ℕ
action_rw = 32

-- The targets.
abbrev pub target_nbi : ℕ
target_nbi = 1

abbrev pub target_qdr : ℕ
target_qdr = 2

abbrev pub target_ila : ℕ
target_ila = 6

abbrev pub target_mu : ℕ
target_mu = 7

abbrev pub target_pcie : ℕ
target_pcie = 9

abbrev pub target_arm : ℕ
target_arm = 10

abbrev pub target_crypto : ℕ
target_crypto = 12

abbrev pub target_ct_xpb : ℕ
target_ct_xpb = 14

abbrev pub target_cls : ℕ
target_cls = 15

-- `NFP_CPP_INTERFACE_TYPE_of`.
unfoldable pub interface_type_of : ℕ → ℕ
interface_type_of interface = bit_and (interface >>> 12) 0xf
