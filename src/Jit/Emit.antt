-- ===== src/Jit/Emit.antt =====
-- The emitters of src/bpf/jit.c. Each `insn_` is the word that the function with two underscores
-- pushes.
pub mod Alu
use nfp_drv_kmods.Base.{
  ℕ, zero, ◌+◌, ◌*◌, ◌/◌, ◌-◌, ◌^◌, ◌%◌, Bool, true, false, not, ◌&&◌, ◌||◌, ◌==◌, if◌then◌else◌,
  List, [], ◌∷◌, bit_and, ◌<<<◌, ◌>>>◌, u8, u16, efault, einval, Errno, Result, ltb,
}
use nfp_drv_kmods.Asm.{UrRegs, ReRegs, swreg_type, to_unrestricted, to_restricted, of_bool}
use nfp_drv_kmods.Asm.Fields.{field_prep, complement, op_br_addr_lo, op_br_addr_hi}
use nfp_drv_kmods.Jit.Prog.{Prog, fail, push, or_prev, emit_with, fields, reg_imm, reg_none}

-- `struct cmd_tgt_act` and the commands that are used.
pub record TgtAct : Type 0 where
  pub token : ℕ
  pub tgt_cmd : ℕ

abbrev pub write8_swap : TgtAct
write8_swap = record { token = 2; tgt_cmd = 0x42 }

abbrev pub write32_swap : TgtAct
write32_swap = record { token = 2; tgt_cmd = 0x5f }

abbrev pub read8 : TgtAct
read8 = record { token = 1; tgt_cmd = 0x43 }

abbrev pub read32_swap : TgtAct
read32_swap = record { token = 2; tgt_cmd = 0x5c }

-- `__emit_cmd`.
unfoldable pub insn_cmd : TgtAct → ℕ → ℕ → ℕ → ℕ → ℕ → ℕ → Bool → ℕ
unfolding fields
insn_cmd op mode xfer areg breg size ctx indir = fields (
    field_prep 0xff 0 areg
    ∷ field_prep 0x300 8 ctx
    ∷ field_prep 0x3fc00 10 breg
    ∷ field_prep 0xc0000 18 op.token
    ∷ field_prep 0x1f00000 20 (u8 xfer)
    ∷ field_prep 0xe000000 25 (u8 size)
    ∷ field_prep 0xf0000000 28 (if ctx == 3 then 0 else 1)
    ∷ field_prep 0x7f00000000 32 op.tgt_cmd
    ∷ field_prep 0x20000000000 41 (of_bool indir)
    ∷ field_prep 0x1c0000000000 42 mode
    ∷ [])

unfoldable pub cmd_with : Prog → TgtAct → ℕ → ℕ → ℕ → ℕ → Bool → ReRegs → Prog
unfolding push insn_cmd
cmd_with p op mode xfer size ctx indir reg =
    if reg.swap
    then fail efault p
    else if reg.dst_lmextn || reg.src_lmextn
    then fail efault p
    else push p (insn_cmd op mode xfer reg.areg reg.breg size ctx indir)

unfoldable pub emit_cmd_any : Prog → TgtAct → ℕ → ℕ → ℕ → ℕ → ℕ → ℕ → Bool → Prog
unfolding emit_with to_restricted cmd_with
emit_cmd_any p op mode xfer lreg rreg size ctx indir =
    emit_with p (to_restricted reg_none lreg rreg false) (cmd_with p op mode xfer size ctx indir)

unfoldable pub emit_cmd : Prog → TgtAct → ℕ → ℕ → ℕ → ℕ → ℕ → ℕ → Prog
unfolding emit_cmd_any
emit_cmd p op mode xfer lreg rreg size ctx = emit_cmd_any p op mode xfer lreg rreg size ctx false

unfoldable pub emit_cmd_indir : Prog → TgtAct → ℕ → ℕ → ℕ → ℕ → ℕ → ℕ → Prog
unfolding emit_cmd_any
emit_cmd_indir p op mode xfer lreg rreg size ctx =
    emit_cmd_any p op mode xfer lreg rreg size ctx true

-- The two parts of the address of a branch.
unfoldable pub addr_fields : ℕ → List ℕ → List ℕ
addr_fields addr rest =
    let addr_lo = bit_and addr (op_br_addr_lo >>> 22) in
    field_prep op_br_addr_lo 22 addr_lo
    ∷ field_prep op_br_addr_hi 40 (if addr == addr_lo then 0 else 1)
    ∷ rest

-- `__emit_br`, with OP_BR_BASE.
unfoldable pub insn_br : ℕ → ℕ → ℕ → ℕ → ℕ → ℕ
unfolding fields addr_fields
insn_br mask ev_pip css addr defer = fields (
    0x0d800000020
    ∷ field_prep 0x1f 0 mask
    ∷ field_prep 0x300 8 ev_pip
    ∷ field_prep 0x3c000 14 css
    ∷ field_prep 0x300000 20 defer
    ∷ addr_fields addr [])

-- `BR_UNC`, the mask of a branch that is always taken.
abbrev pub br_unc : ℕ
br_unc = 0x18

unfoldable pub emit_br_relo : Prog → ℕ → ℕ → ℕ → ℕ → Prog
unfolding push or_prev insn_br
emit_br_relo p mask addr defer relo =
    if mask == br_unc && ltb 2 defer
    then fail efault p
    else or_prev (push p (insn_br mask (if mask == br_unc then 0 else 1) 2 (u16 addr) defer))
        (field_prep 0xff00000000000000 56 relo)

-- The relocation is RELO_BR_REL.
unfoldable pub emit_br : Prog → ℕ → ℕ → ℕ → Prog
unfolding emit_br_relo
emit_br p mask addr defer = emit_br_relo p mask addr defer 1

-- `__emit_br_bit`, with OP_BR_BIT_BASE.
unfoldable pub insn_br_bit : ℕ → ℕ → ℕ → ℕ → Bool → Bool → ℕ
unfolding fields addr_fields
insn_br_bit areg breg addr defer set src_lmextn = fields (
    0x0d000000000
    ∷ field_prep 0xff 0 areg
    ∷ field_prep 0x3fc00 10 breg
    ∷ field_prep 0x40000 18 (of_bool set)
    ∷ field_prep 0x300000 20 defer
    ∷ field_prep 0x40000000000 42 (of_bool src_lmextn)
    ∷ addr_fields addr [])

unfoldable pub emit_br_bit_relo : Prog → ℕ → ℕ → ℕ → ℕ → Bool → ℕ → Prog
unfolding emit_with to_restricted push or_prev insn_br_bit
emit_br_bit_relo p src bit addr defer set relo =
    emit_with p (to_restricted reg_none src (reg_imm (u8 (bit + 1))) false) (λ reg.
      or_prev (push p (insn_br_bit reg.areg reg.breg (u16 addr) defer set reg.src_lmextn))
        (field_prep 0xff00000000000000 56 relo))

unfoldable pub emit_br_bset : Prog → ℕ → ℕ → ℕ → ℕ → Prog
unfolding emit_br_bit_relo
emit_br_bset p src bit addr defer = emit_br_bit_relo p src bit addr defer true 1

-- `__emit_br_alu`, with OP_BR_ALU_BASE.
unfoldable pub insn_br_alu : ℕ → ℕ → ℕ → ℕ → Bool → Bool → ℕ
unfolding fields
insn_br_alu areg breg imm_hi defer dst_lmextn src_lmextn = fields (
    0x0e800000000
    ∷ field_prep 0x3ff 0 areg
    ∷ field_prep 0xffc00 10 breg
    ∷ field_prep 0x300000 20 defer
    ∷ field_prep 0x7fc00000 22 imm_hi
    ∷ field_prep 0x40000000000 42 (of_bool src_lmextn)
    ∷ field_prep 0x80000000000 43 (of_bool dst_lmextn)
    ∷ [])

unfoldable pub emit_rtn : Prog → ℕ → ℕ → Prog
unfolding emit_with to_unrestricted push insn_br_alu
emit_rtn p base defer =
    emit_with p (to_unrestricted reg_none base (reg_imm 0))
      (λ reg. push p (insn_br_alu reg.areg reg.breg 0 defer reg.dst_lmextn reg.src_lmextn))

-- `__emit_immed`, with OP_IMMED_BASE.
unfoldable pub insn_immed : ℕ → ℕ → ℕ → ℕ → Bool → ℕ → Bool → Bool → Bool → ℕ
unfolding fields
insn_immed areg breg imm_hi width invert shift wr_both dst_lmextn src_lmextn = fields (
    0x0f000000000
    ∷ field_prep 0x3ff 0 areg
    ∷ field_prep 0xffc00 10 breg
    ∷ field_prep 0xff00000 20 imm_hi
    ∷ field_prep 0x60000000 29 width
    ∷ field_prep 0x80000000 31 (of_bool invert)
    ∷ field_prep 0x600000000 33 shift
    ∷ field_prep 0x20000000000 41 (of_bool wr_both)
    ∷ field_prep 0x40000000000 42 (of_bool src_lmextn)
    ∷ field_prep 0x80000000000 43 (of_bool dst_lmextn)
    ∷ [])

unfoldable pub emit_immed : Prog → ℕ → ℕ → ℕ → Bool → ℕ → Prog
unfolding emit_with to_unrestricted push insn_immed
emit_immed p dst imm width invert shift =
    if swreg_type dst == 16
    then fail efault p
    else emit_with p (to_unrestricted dst dst (reg_imm (bit_and imm 0xff))) (λ reg. push p (
        insn_immed (if swreg_type dst == 32 then reg.dst else reg.areg) reg.breg (imm >>> 8) width
          invert shift reg.wr_both reg.dst_lmextn reg.src_lmextn))
