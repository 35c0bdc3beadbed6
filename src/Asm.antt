-- ===== src/Asm.antt =====
-- The instructions of the microengines (src/nfp_asm.c, src/nfp_asm.h): the fields of a branch and
-- of an immediate in Asm/Fields, and here the operands.
pub mod Fields
pub mod Operands
pub mod Branch
mod Tests
use nfp_drv_kmods.Base.{
  ℕ, ◌*◌, ◌/◌, ◌%◌, ◌^◌, ◌-◌, Bool, true, false, not, ◌&&◌, ◌||◌, ◌==◌, if◌then◌else◌, Option, none,
  some, bit_and, bit_or, ◌<<<◌, ◌>>>◌, u8, u16, Result, ok, err, efault,
}

abbrev pub of_bool : Bool → ℕ
of_bool true = 1
of_bool false = 0

-- `swreg_type` and the fields below it.
abbrev pub swreg_type : ℕ → ℕ
swreg_type reg = bit_and reg 0xff000000 >>> 24

abbrev pub swreg_value : ℕ → ℕ
swreg_value reg = bit_and reg 0xff

abbrev pub swreg_lm_idx : ℕ → Bool
swreg_lm_idx reg = not (bit_and reg 0x400000 >>> 22 == 0)

abbrev pub swreg_lmextn : ℕ → Bool
swreg_lmextn reg = not (bit_and reg 0x800000 >>> 23 == 0)

abbrev pub swreg_lm_mode : ℕ → ℕ
swreg_lm_mode reg = bit_and reg 0x300000 >>> 20

-- `enum nfp_bpf_reg_type`.
abbrev pub gpr_a : ℕ
gpr_a = 1

abbrev pub gpr_b : ℕ
gpr_b = 2

abbrev pub gpr_both : ℕ
gpr_both = 3

abbrev pub nnr : ℕ
nnr = 4

abbrev pub xfer : ℕ
xfer = 8

abbrev pub imm : ℕ
imm = 16

abbrev pub reg_none : ℕ
reg_none = 32

abbrev pub lmem : ℕ
lmem = 64

-- The case NN_REG_LMEM of `nfp_swreg_to_unreg`.
unfoldable pub lmem_to_unreg : ℕ → ℕ
lmem_to_unreg reg =
    let val = swreg_value reg in
    let lm_id = of_bool (swreg_lm_idx reg) in
    let modified = λ (dec : ℕ).
      if not (val == 0) then 0 else bit_or (bit_or (bit_or 0x200 0x010) (lm_id <<< 5)) dec in
    if swreg_lm_mode reg == 0
    then (if not (bit_and val 0xfff0 == 0) then 0 else bit_or (bit_or 0x200 (lm_id <<< 5)) val)
    else if swreg_lm_mode reg == 2
    then modified 1
    else if swreg_lm_mode reg == 1
    then modified 0
    else 0

-- `nfp_swreg_to_unreg`, which gives 0 for what it cannot encode.
unfoldable pub to_unreg : ℕ → Bool → ℕ
unfolding lmem_to_unreg
to_unreg reg is_dst =
    let val = swreg_value reg in
    let type = swreg_type reg in
    if type == gpr_a || type == gpr_b || type == gpr_both
    then val
    else if type == nnr
    then bit_or 0x280 val
    else if type == xfer
    then bit_or 0x180 val
    else if type == lmem
    then lmem_to_unreg reg
    else if type == imm
    then (if not (bit_and val 0xff00 == 0) then 0 else bit_or 0x300 val)
    else if type == reg_none
    then (if is_dst then 0x300 else 0)
    else 0

-- `struct nfp_insn_ur_regs`, with `dst_b` for a `dst_ab` that is ALU_DST_B.
pub record UrRegs : Type 0 where
  pub dst_b : Bool
  pub dst : ℕ
  pub areg : ℕ
  pub breg : ℕ
  pub swap : Bool
  pub wr_both : Bool
  pub dst_lmextn : Bool
  pub src_lmextn : Bool

-- The test for the exchange of the operands, and for two that cannot go together.
abbrev pub exchanged : ℕ → ℕ → Bool
exchanged lreg rreg = swreg_type lreg == gpr_b || swreg_type rreg == gpr_a

abbrev pub clash : ℕ → ℕ → Bool
clash lreg rreg = swreg_type lreg == swreg_type rreg && not (swreg_type lreg == reg_none)

-- `swreg_to_unrestricted`. What it leaves of the structure on an error is left out.
unfoldable pub to_unrestricted : ℕ → ℕ → ℕ → Result UrRegs
unfolding to_unreg
to_unrestricted dst lreg rreg =
    if swreg_type dst == imm
    then err efault
    else if clash lreg rreg
    then err efault
    else let swap = exchanged lreg rreg in
      ok (record {
        dst_b = swreg_type dst == gpr_b;
        dst = to_unreg dst true;
        areg = to_unreg (if swap then rreg else lreg) false;
        breg = to_unreg (if swap then lreg else rreg) false;
        swap = swap;
        wr_both = swreg_type dst == gpr_both;
        dst_lmextn = swreg_lmextn dst;
        src_lmextn = swreg_lmextn lreg || swreg_lmextn rreg;
      })

-- `RE_REG_IMM_encode`.
abbrev pub re_imm_encode : ℕ → ℕ
re_imm_encode x = bit_or (bit_or 0x020 (bit_and x 0x1f)) (bit_and x 0x60 <<< 1)

-- `nfp_swreg_to_rereg`, and what it writes to `i8`, which only an immediate does.
unfoldable pub to_rereg : ℕ → Bool → Bool → ℕ × Option Bool
to_rereg reg is_dst has_imm8 =
    let val = swreg_value reg in
    let type = swreg_type reg in
    if type == gpr_a || type == gpr_b || type == gpr_both
    then (val, none)
    else if type == xfer
    then (bit_or 0x080 val, none)
    else if type == lmem
    then (if not (swreg_lm_mode reg == 0)
        then (0, none)
        else if not (bit_and val 0xfff8 == 0)
        then (0, none)
        else (bit_or (bit_or 0x050 (of_bool (swreg_lm_idx reg) <<< 3)) val, none))
    else if type == imm
    then (if not (bit_and val (0xffff - bit_or 0x7f (of_bool has_imm8 <<< 7)) == 0)
        then (0, none)
        else (re_imm_encode (bit_and val 0x7f), some (not (bit_and val 0x80 == 0))))
    else if type == reg_none
    then ((if is_dst then 0x020 else 0), none)
    else (0, none)

-- `struct nfp_insn_re_regs`.
pub record ReRegs : Type 0 where
  pub dst_b : Bool
  pub dst : ℕ
  pub areg : ℕ
  pub breg : ℕ
  pub swap : Bool
  pub wr_both : Bool
  pub i8 : Bool
  pub dst_lmextn : Bool
  pub src_lmextn : Bool

-- The flag after the two operands, in their order.
abbrev pub written : Option Bool → Bool → Bool
written none old = old
written (some new) old = new

-- `swreg_to_restricted`.
unfoldable pub to_restricted : ℕ → ℕ → ℕ → Bool → Result ReRegs
unfolding to_rereg
to_restricted dst lreg rreg has_imm8 =
    if swreg_type dst == imm
    then err efault
    else if clash lreg rreg
    then err efault
    else let swap = exchanged lreg rreg in
      let a = to_rereg (if swap then rreg else lreg) false has_imm8 in
      let b = to_rereg (if swap then lreg else rreg) false has_imm8 in
      ok (record {
        dst_b = swreg_type dst == gpr_b;
        dst = u8 ((to_rereg dst true false).0);
        areg = u8 (a.0);
        breg = u8 (b.0);
        swap = swap;
        wr_both = swreg_type dst == gpr_both;
        i8 = written b.1 (written a.1 false);
        dst_lmextn = swreg_lmextn dst;
        src_lmextn = swreg_lmextn lreg || swreg_lmextn rreg;
      })
