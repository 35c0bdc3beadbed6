-- ===== src/Jit/Prog.antt =====
-- The buffer of the instructions that src/bpf/jit.c emits.
use nfp_drv_kmods.Base.{
  ℕ, ◌/◌, ◌%◌, ◌^◌, Bool, true, false, ◌||◌, ◌==◌, if◌then◌else◌, Option, none, some, List, [], ◌∷◌,
  ◌++◌, length, bit_or, Errno, enospc, Result, ok, err,
}
use nfp_drv_kmods.Asm.Fields.{field_prep}

-- The part of `struct nfp_prog` that the emitters use: the first `prog_len` words of the buffer, its
-- length in bytes, the error that was recorded last, and the depth of the frame. `wild` tells
-- that a word outside of the buffer was written, which the source cannot see.
pub record Prog : Type 0 where
  pub prog : List ℕ
  pub alloc_len : ℕ
  pub error : Option Errno
  pub stack_frame_depth : ℕ
  pub wild : Bool

abbrev pub fail : Errno → Prog → Prog
fail e p = record p { error = some e }

-- `nfp_prog_push`.
unfoldable pub push : Prog → ℕ → Prog
push p insn =
    if p.alloc_len / 8 == length p.prog
    then fail enospc p
    else record p { prog = p.prog ++ (insn ∷ []) }

-- `nfp_prog_current_offset`.
abbrev pub current_offset : Prog → ℕ
current_offset p = length p.prog

abbrev pub recorded : Option Errno → Bool
recorded (some e) = true
recorded none = false

-- `nfp_prog_confirm_current_offset`.
unfoldable pub confirm_current_offset : Prog → ℕ → Bool
confirm_current_offset p off = recorded p.error || current_offset p == off

-- The last word of the buffer, or-ed with `bits`.
unfoldable pub or_last : List ℕ → ℕ → List ℕ
or_last [] bits = []
or_last (x ∷ []) bits = bit_or x bits ∷ []
or_last (x ∷ y ∷ rest) bits = x ∷ or_last (y ∷ rest) bits

-- `prog[prog_len - 1] |= bits`, which writes outside of an empty buffer.
unfoldable pub or_prev : Prog → ℕ → Prog
unfolding or_last
or_prev p bits =
    if length p.prog == 0 then record p { wild = true } else record p { prog = or_last p.prog bits }

-- What the emitters do with the operands of an instruction or with the error in their place.
unfoldable pub emit_with {ℓ} : {A : Type ℓ} → Prog → Result A → (A → Prog) → Prog
emit_with p (ok reg) emit = emit reg
emit_with p (err e) emit = fail e p

-- The bitwise or of a base and fields.
unfoldable pub fields : List ℕ → ℕ
fields [] = 0
fields (f ∷ rest) = bit_or f (fields rest)

-- `__enc_swreg` and its uses.
abbrev pub enc_swreg : ℕ → ℕ → ℕ
enc_swreg id type = bit_or (id % 2 ^ 16) (field_prep 0xff000000 24 type)

abbrev pub both : ℕ → ℕ
both x = enc_swreg x 3

abbrev pub reg_a : ℕ → ℕ
reg_a x = enc_swreg x 1

abbrev pub reg_b : ℕ → ℕ
reg_b x = enc_swreg x 2

abbrev pub reg_imm : ℕ → ℕ
reg_imm x = enc_swreg x 16

abbrev pub reg_xfer : ℕ → ℕ
reg_xfer x = enc_swreg x 8

abbrev pub reg_none : ℕ
reg_none = enc_swreg 0 32

-- `imm_a`, `imm_b` and `imm_both`: the registers of the translator, STATIC_REG_IMM.
abbrev pub imm_a : ℕ
imm_a = reg_a 21

abbrev pub imm_b : ℕ
imm_b = reg_b 21

abbrev pub imm_both : ℕ
imm_both = both 21
