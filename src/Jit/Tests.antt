-- ===== src/Jit/Tests.antt =====
-- Runs of the translator of src/bpf/jit.c at fixed inputs.
use nfp_drv_kmods.Base.{
  ℕ, ◌≡◌, refl, true, false, Option, none, some, List, [], ◌∷◌, ◌++◌, length, Result, ok, err,
  enospc, arith,
}
use nfp_drv_kmods.Asm.Fields.{br_get_offset, parity}
use nfp_drv_kmods.Jit.Prog.{Prog}
use nfp_drv_kmods.Jit.Emit.{emit_br}
use nfp_drv_kmods.Jit.Wrap.{Meta, pack_immed, wrp_nops}
use nfp_drv_kmods.Jit.Wrap.Pack.{Packed, pack_immed-Packed}
use nfp_drv_kmods.Jit.Shift.{shl_reg64}
use nfp_drv_kmods.Jit.Relo.{Load, relo_for_vnic, relo_type}
use nfp_drv_kmods.Jit.Relo.Image.{AllLoadable, Each, relo_for_vnic-Each}
use nfp_drv_kmods.Jit.Alu.Jump.{jmp_code_get}
use nfp_drv_kmods.Jit.Translate.{
  Callback, cb_mov_imm64, cb_add_reg64, cb_shl_reg64, cb_cmp_imm, cb_jump, translate,
}
use nfp_drv_kmods.Jit.Translate.Fits.{AllCallable, Translated, translate-Translated}

abbrev empty : Prog
empty = record { prog = []; alloc_len = 160; error = none; stack_frame_depth = 0; wild = false }

-- A shift by R2 of which only a maximum above 32 is known.
abbrev by_reg : Meta
by_reg = record {
  code = 0x6f;
  dst_reg = 1;
  src_reg = 2;
  imm = 0;
  off = 0;
  umin_src = 0;
  umax_src = 63;
  umax_dst = 0xffffffffffffffff;
  do_zext = false;
  jump_neg_op = false;
}

abbrev code_len : Result Prog → Option ℕ
code_len (ok p) = some (length p.prog)
code_len (err e) = none

-- Both sequences and the two branches.
shl_len : code_len (shl_reg64 empty by_reg) ≡ some 10
unfolding shl_reg64
shl_len = refl

nops_full : (wrp_nops empty 21).error ≡ some enospc
unfolding wrp_nops
nops_full = refl

packs : pack_immed 0x12ab00 ≡ some (0x12ab, 1)
unfolding pack_immed
packs = refl

branch_address : (p : Prog) × (emit_br empty 0x18 77 0 ≡ p) × (length p.prog ≡ 1)
unfolding emit_br
branch_address = (emit_br empty 0x18 77 0, refl, refl)

pack_immed-Packed_example : Packed 0x12345678 (pack_immed 0x12345678)
pack_immed-Packed_example = pack_immed-Packed 0x12345678 (omega arith)

abbrev at_100 : Load
at_100 = record {
  tgt_out = 40;
  tgt_abort = 50;
  tgt_call_push_regs = 0;
  tgt_call_pop_regs = 0;
  start_off = 100;
  tgt_done = 9;
  map_lookup = 200;
  map_update = 300;
  map_delete = 400;
  perf_event_output = 500;
}

-- A branch to 5, a branch to the outro and an instruction without a relocation.
abbrev three : List ℕ
three = 0x10000d801400020 ∷ 0x20000d800000020 ∷ 0xf0000c0300 ∷ []

abbrev offsets : Result (List ℕ) → List ℕ
offsets (ok []) = []
offsets (ok (x ∷ rest)) = br_get_offset x ∷ offsets (ok rest)
offsets (err e) = []

image_targets : offsets (relo_for_vnic at_100 three) ≡ 105 ∷ 140 ∷ 0 ∷ []
unfolding relo_for_vnic br_get_offset parity
image_targets = refl

three-Loadable : AllLoadable at_100 three
unfolding relo_type br_get_offset
three-Loadable = (
  record { fits = omega arith; plain = omega arith; known = omega arith; near = omega arith },
  (
    record { fits = omega arith; plain = omega arith; known = omega arith; near = omega arith },
    (
      record { fits = omega arith; plain = omega arith; known = omega arith; near = omega arith },
      omega arith,
    ),
  ),
)

relo_for_vnic-Each_example :
    (image : List ℕ) × (relo_for_vnic at_100 three ≡ ok image) × Each at_100 three image
relo_for_vnic-Each_example = relo_for_vnic-Each at_100 three three-Loadable

-- A move, an addition, a shift, a comparison and a jump.
abbrev body : List (Callback × Meta)
body =
    (cb_mov_imm64, record by_reg { imm = 0x12345678 })
    ∷ (cb_add_reg64, by_reg)
    ∷ (cb_shl_reg64, by_reg)
    ∷ (cb_cmp_imm, record by_reg { code = 0x25; imm = 7 })
    ∷ (cb_jump, by_reg)
    ∷ []

abbrev roomy : Prog
roomy = record empty { alloc_len = 800 }

body_len : code_len (translate roomy body) ≡ some 19
unfolding translate
body_len = refl

body_too_long : translate empty (body ++ body) ≡ err enospc
unfolding translate
body_too_long = refl

body-AllCallable : AllCallable body
unfolding jmp_code_get
body-AllCallable =
    (omega arith, (omega arith, (omega arith, (((5, true), refl), (omega arith, omega arith)))))

translate-Translated_example : Translated roomy body (translate roomy body)
translate-Translated_example =
    translate-Translated body roomy refl (omega arith) (omega arith) body-AllCallable
