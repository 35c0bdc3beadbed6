-- ===== src/Jit/Emit/Alu.antt =====
-- The emitters of shifts, arithmetic, multiplication and loads of fields (src/bpf/jit.c).
use nfp_drv_kmods.Base.{
  ℕ, ◌/◌, ◌-◌, Bool, true, false, not, ◌&&◌, ◌||◌, ◌==◌, if◌then◌else◌, [], ◌∷◌, bit_and, ◌<<<◌, u8,
  efault, einval,
}
use nfp_drv_kmods.Asm.{UrRegs, ReRegs, swreg_type, to_unrestricted, to_restricted, of_bool}
use nfp_drv_kmods.Asm.Fields.{field_prep, complement}
use nfp_drv_kmods.Jit.Prog.{Prog, fail, push, emit_with, fields, reg_imm, reg_none}

-- `enum alu_op`.
abbrev pub alu_none : ℕ
alu_none = 0

abbrev pub alu_add : ℕ
alu_add = 1

abbrev pub alu_not : ℕ
alu_not = 4

abbrev pub alu_and : ℕ
alu_and = 8

abbrev pub alu_sub_c : ℕ
alu_sub_c = 13

abbrev pub alu_add_c : ℕ
alu_add_c = 17

abbrev pub alu_or : ℕ
alu_or = 20

abbrev pub alu_sub : ℕ
alu_sub = 21

abbrev pub alu_xor : ℕ
alu_xor = 24

-- `enum shf_op` and `enum shf_sc`.
abbrev pub shf_none : ℕ
shf_none = 0

abbrev pub shf_ashr : ℕ
shf_ashr = 6

abbrev pub r_shf : ℕ
r_shf = 1

abbrev pub l_shf : ℕ
l_shf = 2

abbrev pub r_dshf : ℕ
r_dshf = 3

-- `__emit_shf`, with OP_SHF_BASE, after its check.
unfoldable pub insn_shf : ℕ → Bool → ℕ → ℕ → ℕ → ℕ → ℕ → Bool → Bool → Bool → Bool → Bool → ℕ
unfolding fields
insn_shf dst dst_b sc shift areg op breg i8 sw wr_both dst_lmextn src_lmextn = fields (
    0x08000000000
    ∷ field_prep 0xff 0 areg
    ∷ field_prep 0x300 8 sc
    ∷ field_prep 0x3fc00 10 breg
    ∷ field_prep 0x40000 18 (of_bool i8)
    ∷ field_prep 0x80000 19 (of_bool sw)
    ∷ field_prep 0xff00000 20 dst
    ∷ field_prep 0x1f0000000 28 shift
    ∷ field_prep 0xe00000000 33 op
    ∷ field_prep 0x1000000000 36 (of_bool dst_b)
    ∷ field_prep 0x20000000000 41 (of_bool wr_both)
    ∷ field_prep 0x40000000000 42 (of_bool src_lmextn)
    ∷ field_prep 0x80000000000 43 (of_bool dst_lmextn)
    ∷ [])

-- `FIELD_FIT` of OP_SHF_SHIFT.
abbrev pub shift_fits : ℕ → Bool
shift_fits shift = bit_and (shift <<< 28) (complement 0x1f0000000) == 0

unfoldable pub shf_with : Prog → ℕ → ℕ → ℕ → ReRegs → Prog
unfolding push insn_shf
shf_with p op sc shift reg =
    if not (shift_fits shift)
    then fail efault p
    else push p (
        insn_shf reg.dst reg.dst_b sc (if sc == 2 && not (shift == 0) then 32 - shift else shift)
          reg.areg op reg.breg reg.i8 reg.swap reg.wr_both reg.dst_lmextn reg.src_lmextn)

unfoldable pub emit_shf : Prog → ℕ → ℕ → ℕ → ℕ → ℕ → ℕ → Prog
unfolding emit_with to_restricted shf_with
emit_shf p dst lreg op rreg sc shift =
    emit_with p (to_restricted dst lreg rreg true) (shf_with p op sc (u8 shift))

unfoldable pub emit_shf_indir : Prog → ℕ → ℕ → ℕ → ℕ → ℕ → Prog
unfolding emit_shf
emit_shf_indir p dst lreg op rreg sc =
    if sc == 0 then fail efault p else emit_shf p dst lreg op rreg sc 0

-- `__emit_alu`, with OP_ALU_BASE.
unfoldable pub insn_alu : ℕ → Bool → ℕ → ℕ → ℕ → Bool → Bool → Bool → Bool → ℕ
unfolding fields
insn_alu dst dst_b areg op breg swap wr_both dst_lmextn src_lmextn = fields (
    0x0a000000000
    ∷ field_prep 0x3ff 0 areg
    ∷ field_prep 0xffc00 10 breg
    ∷ field_prep 0x3ff00000 20 dst
    ∷ field_prep 0x40000000 30 (of_bool swap)
    ∷ field_prep 0xf80000000 31 op
    ∷ field_prep 0x1000000000 36 (of_bool dst_b)
    ∷ field_prep 0x20000000000 41 (of_bool wr_both)
    ∷ field_prep 0x40000000000 42 (of_bool src_lmextn)
    ∷ field_prep 0x80000000000 43 (of_bool dst_lmextn)
    ∷ [])

unfoldable pub emit_alu : Prog → ℕ → ℕ → ℕ → ℕ → Prog
unfolding emit_with to_unrestricted push insn_alu
emit_alu p dst lreg op rreg = emit_with p (to_unrestricted dst lreg rreg) (λ reg. push p (
    insn_alu reg.dst reg.dst_b reg.areg op reg.breg reg.swap reg.wr_both reg.dst_lmextn
      reg.src_lmextn))

-- `__emit_mul`, with OP_MUL_BASE.
unfoldable pub insn_mul : Bool → ℕ → ℕ → ℕ → ℕ → Bool → Bool → Bool → Bool → ℕ
unfolding fields
insn_mul dst_b areg type step breg swap wr_both dst_lmextn src_lmextn = fields (
    0x0f800000000
    ∷ field_prep 0x3ff 0 areg
    ∷ field_prep 0xffc00 10 breg
    ∷ field_prep 0x700000 20 step
    ∷ field_prep 0x800000 23 (of_bool dst_b)
    ∷ field_prep 0x40000000 30 (of_bool swap)
    ∷ field_prep 0x180000000 31 type
    ∷ field_prep 0x20000000000 41 (of_bool wr_both)
    ∷ field_prep 0x40000000000 42 (of_bool src_lmextn)
    ∷ field_prep 0x80000000000 43 (of_bool dst_lmextn)
    ∷ [])

unfoldable pub mul_with : Prog → ℕ → ℕ → Bool → UrRegs → Prog
unfolding push insn_mul
mul_with p type step last reg = push p (
    insn_mul reg.dst_b (if last then reg.dst else reg.areg) type step reg.breg reg.swap reg.wr_both
      reg.dst_lmextn reg.src_lmextn)

-- The steps MUL_LAST and MUL_LAST_2 are 4 and 5.
unfoldable pub emit_mul : Prog → ℕ → ℕ → ℕ → ℕ → Prog
unfolding emit_with to_unrestricted mul_with
emit_mul p lreg type step rreg =
    if type == 0 && not (step == 0)
    then fail einval p
    else if step == 4 || step == 5
    then emit_with p (to_unrestricted lreg reg_none rreg) (mul_with p type step true)
    else emit_with p (to_unrestricted reg_none lreg rreg) (mul_with p type step false)

-- `__emit_ld_field`, with OP_LDF_BASE.
unfoldable pub insn_ld_field : ℕ → ℕ → ℕ → ℕ → ℕ → Bool → Bool → Bool → Bool → Bool → Bool → ℕ
unfolding fields
insn_ld_field sc areg bmask breg shift imm8 zf swap wr_both dst_lmextn src_lmextn = fields (
    0x0c000000000
    ∷ field_prep 0xff 0 areg
    ∷ field_prep 0x300 8 sc
    ∷ field_prep 0x3fc00 10 breg
    ∷ field_prep 0x40000 18 (of_bool imm8)
    ∷ field_prep 0x80000 19 (of_bool swap)
    ∷ field_prep 0x100000 20 (of_bool zf)
    ∷ field_prep 0xf000000 24 bmask
    ∷ field_prep 0x1f0000000 28 shift
    ∷ field_prep 0x20000000000 41 (of_bool wr_both)
    ∷ field_prep 0x40000000000 42 (of_bool src_lmextn)
    ∷ field_prep 0x80000000000 43 (of_bool dst_lmextn)
    ∷ [])

unfoldable pub emit_ld_field_any : Prog → ℕ → ℕ → ℕ → ℕ → ℕ → Bool → Prog
unfolding emit_with to_restricted push insn_ld_field
emit_ld_field_any p dst bmask src sc shift zf = emit_with p (to_restricted dst dst src true) (λ reg.
    push p (
      insn_ld_field sc reg.areg (u8 bmask) reg.breg (u8 shift) reg.i8 zf reg.swap reg.wr_both
        reg.dst_lmextn reg.src_lmextn))

unfoldable pub emit_ld_field : Prog → ℕ → ℕ → ℕ → ℕ → ℕ → Prog
unfolding emit_ld_field_any
emit_ld_field p dst bmask src sc shift = emit_ld_field_any p dst bmask src sc shift false

-- `__emit_lcsr`, with OP_LCSR_BASE.
unfoldable pub insn_lcsr : ℕ → ℕ → Bool → ℕ → Bool → Bool → ℕ
unfolding fields
insn_lcsr areg breg wr addr dst_lmextn src_lmextn = fields (
    0x0fc00000000
    ∷ field_prep 0x3ff 0 areg
    ∷ field_prep 0xffc00 10 breg
    ∷ field_prep 0x200000 21 (of_bool wr)
    ∷ field_prep 0x1ffc00000 22 (addr / 4)
    ∷ field_prep 0x40000000000 42 (of_bool src_lmextn)
    ∷ field_prep 0x80000000000 43 (of_bool dst_lmextn)
    ∷ [])

unfoldable pub emit_csr_wr : Prog → ℕ → ℕ → Prog
unfolding emit_with to_unrestricted push insn_lcsr
emit_csr_wr p src addr =
    if swreg_type src == 16
    then emit_with p (to_unrestricted reg_none src reg_none)
        (λ reg. push p (insn_lcsr reg.areg reg.areg true addr false reg.src_lmextn))
    else emit_with p (to_unrestricted reg_none src (reg_imm 0))
        (λ reg. push p (insn_lcsr reg.areg reg.breg true addr false reg.src_lmextn))

-- `__emit_csr_rd`.
unfoldable pub emit_csr_rd : Prog → ℕ → Prog
unfolding push insn_lcsr
emit_csr_rd p addr = push p (insn_lcsr 0 0 false addr false false)
