-- ===== src/Asm/Tests.antt =====
-- Runs of src/nfp_asm.c.
use nfp_drv_kmods.Base.{ℕ, ◌/◌, ◌%◌, ◌^◌, ◌≡◌, refl, true, false, ok, none, u8, arith}
use nfp_drv_kmods.Asm.{to_unreg, to_rereg, to_unrestricted, to_restricted, UrRegs, ReRegs}
use nfp_drv_kmods.Asm.Fields.{
  br_get_offset, br_set_offset, immed_get_value, immed_set_value, immed_can_modify, unreg_is_imm,
  check_valid_no_ecc,
}
use nfp_drv_kmods.Asm.Operands.{Placed, to_unrestricted-Placed, to_restricted-Placed}
use nfp_drv_kmods.Asm.Branch.{br_get_offset-br_set_offset}

-- An unconditional branch.
abbrev branch : ℕ
branch = 0x0d800000038

br_get_offset-br_set_offset_example :
    (br_get_offset (br_set_offset branch 0x2345) ≡ 0x2345)
    × (br_set_offset branch 0x2345 % 2 ^ 22 ≡ branch % 2 ^ 22)
    × (br_set_offset branch 0x2345 / 2 ^ 35 % 2 ^ 5 ≡ branch / 2 ^ 35 % 2 ^ 5)
    × (br_set_offset branch 0x2345 / 2 ^ 41 ≡ branch / 2 ^ 41)
br_get_offset-br_set_offset_example =
    br_get_offset-br_set_offset branch 0x2345 (omega arith) (omega arith)

-- B 3 and A 2 for A 1, so that the operands are exchanged.
abbrev regs : UrRegs
regs = record {
  dst_b = false;
  dst = 1;
  areg = 2;
  breg = 3;
  swap = true;
  wr_both = false;
  dst_lmextn = false;
  src_lmextn = false;
}

regs_lem : to_unrestricted 0x01000001 0x02000003 0x01000002 ≡ ok regs
unfolding to_unrestricted
regs_lem = refl

to_unrestricted-Placed_example : Placed (λ reg. to_unreg reg false) 0x02000003 0x01000002 true 2 3
to_unrestricted-Placed_example =
    to_unrestricted-Placed 0x01000001 0x02000003 0x01000002 regs regs_lem

abbrev re_regs : ReRegs
re_regs = record {
  dst_b = false;
  dst = 1;
  areg = 2;
  breg = 0xa9;
  swap = false;
  wr_both = false;
  i8 = false;
  dst_lmextn = false;
  src_lmextn = false;
}

re_regs_lem : to_restricted 0x01000001 0x01000002 0x10000049 false ≡ ok re_regs
unfolding to_restricted
re_regs_lem = refl

to_restricted-Placed_example :
    Placed (λ reg. u8 ((to_rereg reg false false).0)) 0x01000002 0x10000049 false 2 0xa9
to_restricted-Placed_example =
    to_restricted-Placed 0x01000001 0x01000002 0x10000049 false re_regs re_regs_lem

-- The ECC check lets the lowest bit of the ECC pass.
ecc_bit : check_valid_no_ecc (2 ^ 45) ≡ none
unfolding check_valid_no_ecc
ecc_bit = refl

immed_lem : immed_get_value (immed_set_value 0x0f0000c0000 0x1234) ≡ 0x1234
unfolding immed_get_value immed_set_value immed_can_modify unreg_is_imm
immed_lem = refl
