-- ===== src/Asm/Fields.antt =====
-- The offset of a branch, the value of an immediate and the ECC of an instruction (src/nfp_asm.c).
use nfp_drv_kmods.Base.{
  ℕ, zero, suc, ◌+◌, ◌*◌, ◌/◌, ◌%◌, ◌^◌, ◌-◌, Bool, not, ◌||◌, ◌==◌, if◌then◌else◌, Option, none,
  some, List, [], ◌∷◌, bit_and, bit_or, ◌<<<◌, ◌>>>◌, u16, u64, Errno, einval,
}

-- `FIELD_GET` and `FIELD_PREP`, with the mask and its lowest bit.
abbrev pub field_get : ℕ → ℕ → ℕ → ℕ
field_get mask low x = bit_and x mask >>> low

abbrev pub field_prep : ℕ → ℕ → ℕ → ℕ
field_prep mask low x = bit_and (x <<< low) mask

-- `~` on 64 bits.
abbrev pub complement : ℕ → ℕ
complement x = 0xffffffffffffffff - x

abbrev pub op_br_addr_lo : ℕ
op_br_addr_lo = 0x007ffc00000

abbrev pub op_br_addr_hi : ℕ
op_br_addr_hi = 0x10000000000

unfoldable pub br_get_offset : ℕ → ℕ
br_get_offset instr =
    let addr_lo = field_get op_br_addr_lo 22 instr in
    let addr_hi = field_get op_br_addr_hi 40 instr in
    u16 (bit_or (addr_hi * ((op_br_addr_lo >>> 22) + 1)) addr_lo)

unfoldable pub br_set_offset : ℕ → ℕ → ℕ
br_set_offset instr offset =
    let addr_lo = bit_and offset (op_br_addr_lo >>> 22) in
    let addr_hi = if offset == addr_lo then 0 else 1 in
    bit_or
      (bit_or (bit_and instr (complement (bit_or op_br_addr_hi op_br_addr_lo)))
        (field_prep op_br_addr_hi 40 addr_hi))
      (field_prep op_br_addr_lo 22 addr_lo)

unfoldable pub br_add_offset : ℕ → ℕ → ℕ
br_add_offset instr offset = br_set_offset instr (u16 (br_get_offset instr + offset))

-- `immed_can_modify`.
unfoldable pub immed_can_modify : ℕ → Bool
immed_can_modify instr = not (
    not (field_get 0x00080000000 31 instr == 0)
    || not (field_get 0x00600000000 33 instr == 0)
    || not (field_get 0x00060000000 29 instr == 0))

unfoldable pub unreg_is_imm : ℕ → Bool
unreg_is_imm reg = bit_and reg 0x300 == 0x300

unfoldable pub immed_get_value : ℕ → ℕ
immed_get_value instr =
    let a = field_get 0x3ff 0 instr in
    let reg = if unreg_is_imm a then a else field_get 0xffc00 10 instr in
    if not (immed_can_modify instr)
    then 0
    else u16 (bit_or (bit_and reg 0xff) (field_get 0xff00000 20 instr <<< 8))

unfoldable pub immed_set_value : ℕ → ℕ → ℕ
immed_set_value instr immed =
    let low =
      if unreg_is_imm (field_get 0x3ff 0 instr)
      then bit_or (bit_and instr (complement (field_prep 0x3ff 0 0xff)))
          (field_prep 0x3ff 0 (bit_and immed 0xff))
      else bit_or (bit_and instr (complement (field_prep 0xffc00 10 0xff)))
          (field_prep 0xffc00 10 (bit_and immed 0xff)) in
    if not (immed_can_modify instr)
    then instr
    else bit_or (bit_and low (complement 0xff00000)) (field_prep 0xff00000 20 (immed >>> 8))

unfoldable pub immed_add_value : ℕ → ℕ → ℕ
immed_add_value instr offset =
    if not (immed_can_modify instr)
    then instr
    else immed_set_value instr (u16 (immed_get_value instr + offset))

-- `nfp_ustore_check_valid_no_ecc`.
unfoldable pub check_valid_no_ecc : ℕ → Option Errno
check_valid_no_ecc insn =
    if not (bit_and insn (complement (2 ^ 46 - 1)) == 0) then some einval else none

-- `hweight64`, by its bits.
pub hweight : ℕ → ℕ → ℕ
hweight zero x = 0
hweight (suc bits) x = x % 2 + hweight bits (x / 2)

unfoldable pub parity : ℕ → ℕ
unfolding hweight
parity value = hweight 64 value % 2

abbrev pub ecc_polynomials : List ℕ
ecc_polynomials =
    0x0ff800007fff ∷ 0x11f801ff801f ∷ 0x1e387e0781e1 ∷ 0x17cb8e388e22 ∷ 0x1af5b2c93244
    ∷ 0x1f56d5525488 ∷ 0x0daf69a46910 ∷ []

-- The bits of the polynomials from the one with the index `i`.
pub ecc_from : List ℕ → ℕ → ℕ → ℕ
ecc_from [] i insn = 0
ecc_from (p ∷ ps) i insn = bit_or (parity (bit_and p insn) <<< i) (ecc_from ps (i + 1) insn)

-- `nfp_ustore_calc_ecc_insn`.
unfoldable pub calc_ecc : ℕ → ℕ
unfolding ecc_from
calc_ecc insn = bit_or insn (u64 (ecc_from ecc_polynomials 0 insn <<< 45))
