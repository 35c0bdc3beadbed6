-- ===== src/Target/Tests.antt =====
-- Runs of src/nfpcore/nfp_target.c, and its theorems at inputs that meet their hypotheses.
use nfp_drv_kmods.Base.{ℕ, ◌+◌, ◌*◌, ◌^◌, ◌≡◌, ◌↔◌, refl, true, false, ok, arith}
use nfp_drv_kmods.Cpp.{cpp_id, target_of, island_of, action_of, token_of, target_qdr}
use nfp_drv_kmods.Cpp.Fields.{cpp_id_fields}
use nfp_drv_kmods.Target.PushPull.{pushpull}
use nfp_drv_kmods.Target.PushPull.Coherent.{pushpull_wildcard}
use nfp_drv_kmods.Target.Encode.{
  decode_basic, encode_basic, target_cpp, imb_mode, imb_addr40, imb_isld1, imb_isld0,
}
use nfp_drv_kmods.Target.Encode.RoundTrip.{decode_basic-encode_basic, encode_basic_qdr_ignores}
use nfp_drv_kmods.Target.Encode.Translate.{SameCommand, target_cpp-decode}

-- A read of the cluster scratch of the island 33, in mode 0 with 40-bit addresses.
abbrev cls_read : ℕ
cls_read = 15 * 2 ^ 24 + 33

abbrev table : ℕ → ℕ
table target = 2 ^ 12

cls_read_fields : (island_of cls_read ≡ 33) × (target_of cls_read ≡ 15)
unfolding island_of target_of
cls_read_fields = (refl, refl)

mode_2 : encode_basic 0x1234 33 15 2 true 32 48 ≡ ok (3 * 2 ^ 38 + 0x1234)
unfolding encode_basic
mode_2 = refl

cpp_id_fields_example :
    (target_of (cpp_id 7 3 0) ≡ 7)
    × (action_of (cpp_id 7 3 0) ≡ 3)
    × (token_of (cpp_id 7 3 0) ≡ 0)
    × (island_of (cpp_id 7 3 0) ≡ 0)
cpp_id_fields_example = cpp_id_fields 7 3 0 (omega arith) (omega arith) (omega arith)

decode_basic-encode_basic_example : decode_basic (3 * 2 ^ 38 + 0x1234) 15 2 true 32 48 ≡ ok 33
unfolding encode_basic
decode_basic-encode_basic_example =
    decode_basic-encode_basic 0x1234 33 15 2 true 32 48 (omega arith) (omega arith) refl refl

-- The island 12 is asked for, and the address leads to the island 2.
encode_basic_qdr_ignores_example :
    (encode_basic (2 * 2 ^ 26) 12 target_qdr 0 false 0 0 ≡ ok (2 * 2 ^ 26))
    ↔ (decode_basic (2 * 2 ^ 26) target_qdr 0 false 0 0 ≡ ok target_qdr)
encode_basic_qdr_ignores_example =
    encode_basic_qdr_ignores (2 * 2 ^ 26) 12 0 0 0 (omega arith) (omega arith) (omega arith)

target_cpp-decode_example :
    (decode_basic
        (33 * 2 ^ 34 + 0x1234)
        (target_of cls_read)
        (imb_mode (2 ^ 12))
        (imb_addr40 (2 ^ 12))
        (imb_isld1 (2 ^ 12))
        (imb_isld0 (2 ^ 12))
      ≡ ok (island_of cls_read))
    × SameCommand cls_read (15 * 2 ^ 24)
unfolding target_cpp island_of target_of cpp_id action_of token_of
target_cpp-decode_example =
    target_cpp-decode cls_read 0x1234 table
      (record { target_id = 15 * 2 ^ 24; address = 33 * 2 ^ 34 + 0x1234 }) (omega arith)
      (omega arith) (omega arith) refl refl refl

pushpull_wildcard_example : (pushpull (cpp_id 7 0 1) 0 ≡ ok 2) × (pushpull (cpp_id 7 1 1) 0 ≡ ok 32)
unfolding pushpull cpp_id
pushpull_wildcard_example = pushpull_wildcard 7 1 0 {pp = 0x22} (omega arith) (omega arith) refl
