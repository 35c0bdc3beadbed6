-- ===== src/Jit/Relo.antt =====
-- The image of a program for one vNIC: its branches are relocated, and its words get their ECC
-- (nfp_bpf_relo_for_vnic and nfp_bpf_ustore_calc of src/bpf/jit.c).
pub mod Image
use nfp_drv_kmods.Base.{
  ℕ, ◌+◌, ◌*◌, ◌/◌, ◌-◌, ◌^◌, ◌%◌, Bool, true, false, not, ◌==◌, if◌then◌else◌, Option, none, some,
  List, [], ◌∷◌, bit_and, ◌>>>◌, u16, u32, einval, Errno, Result, ok, err,
}
use nfp_drv_kmods.Asm.Fields.{
  field_get, complement, br_get_offset, br_set_offset, br_add_offset, immed_add_value,
  check_valid_no_ecc, calc_ecc,
}

-- `enum nfp_relo_type`, with `unknown` for the values without a name.
pub data Relo : Type 0 where
  relo_none br_rel br_go_out br_go_abort br_go_call_push_regs br_go_call_pop_regs : Relo
  br_next_pkt br_helper immed_rel unknown : Relo

unfoldable pub relo_type : ℕ → Relo
relo_type special =
    if special == 0
    then relo_none
    else if special == 1
    then br_rel
    else if special == 2
    then br_go_out
    else if special == 3
    then br_go_abort
    else if special == 4
    then br_go_call_push_regs
    else if special == 5
    then br_go_call_pop_regs
    else if special == 6
    then br_next_pkt
    else if special == 7
    then br_helper
    else if special == 8
    then immed_rel
    else unknown

-- What the relocation reads of `struct nfp_prog`, of `struct nfp_bpf_vnic` and of the addresses of
-- the helpers.
pub record Load : Type 0 where
  pub tgt_out : ℕ
  pub tgt_abort : ℕ
  pub tgt_call_push_regs : ℕ
  pub tgt_call_pop_regs : ℕ
  pub start_off : ℕ
  pub tgt_done : ℕ
  pub map_lookup : ℕ
  pub map_update : ℕ
  pub map_delete : ℕ
  pub perf_event_output : ℕ

-- The helper of a number, BR_OFF_RELO less than the offset of the branch. The numbers are those of
-- `enum bpf_func_id`.
unfoldable pub helper_address : Load → ℕ → Option ℕ
helper_address l off =
    let val = u32 (off + 2 ^ 32 - 15000) in
    if val == 1
    then some l.map_lookup
    else if val == 2
    then some l.map_update
    else if val == 3
    then some l.map_delete
    else if val == 25
    then some l.perf_event_output
    else none

unfoldable pub to_helper : ℕ → Option ℕ → Result ℕ
unfolding br_set_offset
to_helper x (some val) = ok (br_set_offset x (u16 val))
to_helper x none = err einval

-- The branch to a target that is 0 while it is not known.
unfoldable pub to_known : ℕ → ℕ → ℕ → Result ℕ
unfolding br_set_offset
to_known x tgt start_off =
    if tgt == 0 then err einval else ok (br_set_offset x (u16 (tgt + start_off)))

-- The switch of the loop.
unfoldable pub relocate : Load → ℕ → Relo → Result ℕ
unfolding br_set_offset br_add_offset immed_add_value to_helper helper_address to_known
relocate l x relo_none = ok x
relocate l x br_rel = ok (br_add_offset x (u16 l.start_off))
relocate l x br_go_out = ok (br_set_offset x (u16 (l.tgt_out + l.start_off)))
relocate l x br_go_abort = ok (br_set_offset x (u16 (l.tgt_abort + l.start_off)))
relocate l x br_go_call_push_regs = to_known x l.tgt_call_push_regs l.start_off
relocate l x br_go_call_pop_regs = to_known x l.tgt_call_pop_regs l.start_off
relocate l x br_next_pkt = ok (br_set_offset x (u16 l.tgt_done))
relocate l x br_helper = to_helper x (helper_address l (br_get_offset x))
relocate l x immed_rel = ok (immed_add_value x (u16 l.start_off))
relocate l x unknown = ok x

abbrev pub relo_mask : ℕ
relo_mask = 0xff00000000000000

-- One round of the loop. The word of RELO_NONE has no bit of the type to clear.
unfoldable pub relocated : Result ℕ → Result ℕ
relocated (ok z) = ok (bit_and z (complement relo_mask))
relocated (err e) = err e

abbrev pub kind : ℕ → Relo
kind x = relo_type (field_get relo_mask 56 x)

-- The loops, which end at the first error.
unfoldable pub also : Result ℕ → Result (List ℕ) → Result (List ℕ)
also (err e) rest = err e
also (ok y) (err e) = err e
also (ok y) (ok ys) = ok (y ∷ ys)

unfoldable pub relocate_all : Load → List ℕ → Result (List ℕ)
unfolding also relocated relocate relo_type
relocate_all l [] = ok []
relocate_all l (x ∷ prog) = also (relocated (relocate l x (kind x))) (relocate_all l prog)

unfoldable pub with_ecc : ℕ → Option Errno → Result ℕ
unfolding calc_ecc
with_ecc x (some e) = err e
with_ecc x none = ok (calc_ecc x)

-- `nfp_bpf_ustore_calc`, without the change to little endian.
unfoldable pub ustore_calc : List ℕ → Result (List ℕ)
unfolding also with_ecc check_valid_no_ecc
ustore_calc [] = ok []
ustore_calc (x ∷ prog) = also (with_ecc x (check_valid_no_ecc x)) (ustore_calc prog)

unfoldable pub calc_after : Result (List ℕ) → Result (List ℕ)
unfolding ustore_calc
calc_after (ok prog) = ustore_calc prog
calc_after (err e) = err e

-- `nfp_bpf_relo_for_vnic`, where the copy of the program is given.
unfoldable pub relo_for_vnic : Load → List ℕ → Result (List ℕ)
unfolding calc_after relocate_all
relo_for_vnic l prog = calc_after (relocate_all l prog)
