-- ===== src/Jit/Shift/Right.antt =====
-- The labels of the shifts to the right by a register of src/bpf/jit.c.
use nfp_drv_kmods.Base.{ℕ, ◌+◌, ◌*◌, ◌/◌, ◌-◌, ◌^◌, ◌<◌, ◌≤◌, not, ◌==◌, length, u8, u16, ltb}
use nfp_drv_kmods.Jit.Prog.{Prog, both, reg_a, reg_b, reg_imm, reg_none}
use nfp_drv_kmods.Jit.Count.{
  Emits, Emits-zero, Emits-then, emit_alu-Emits, emit_shf-Emits, emit_shf_indir-Emits,
  emit_br-Emits, emit_br_bset-Emits,
}
use nfp_drv_kmods.Jit.Emit.Alu.{emit_alu, alu_or, shf_none, shf_ashr, r_shf, r_dshf}
use nfp_drv_kmods.Jit.Wrap.{Meta}
use nfp_drv_kmods.Jit.Shift.{
  shr_imm64_by, shr_reg64_lt32_high, shr_reg64_lt32_low, shr_reg64_lt32, shr_reg64_ge32,
  shr_reg64_any, shr_reg64,
}
use nfp_drv_kmods.Jit.Shift.Signed.{
  ashr_imm64_by, ashr_reg64_lt32_high, ashr_reg64_lt32_low, ashr_reg64_lt32, ashr_reg64_ge32,
  ashr_reg64_any, ashr_reg64,
}
use nfp_drv_kmods.Jit.Shift.Labels.{
  Grows, Lands, Grows-if, Lands-if, clear-Emits, mov-Emits, amount-Emits, confirmed-Lands,
}

low-Emits : (p : Prog) (dst src : ℕ) → Emits 2 p (shr_reg64_lt32_low p dst src)
unfolding shr_reg64_lt32_low
low-Emits p dst src =
    Emits-then (amount-Emits p src)
      (emit_shf_indir-Emits _ (both dst) (reg_a (dst + 1)) shf_none (reg_b dst) r_dshf)

high-Emits : (p : Prog) (dst src : ℕ) → Emits 2 p (shr_reg64_lt32_high p dst src)
unfolding shr_reg64_lt32_high
high-Emits p dst src =
    Emits-then (amount-Emits p src)
      (emit_shf_indir-Emits _ (both (dst + 1)) reg_none shf_none (reg_b (dst + 1)) r_shf)

ge32-Emits : (p : Prog) (dst src : ℕ) → Emits 3 p (shr_reg64_ge32 p dst src)
unfolding shr_reg64_ge32
ge32-Emits p dst src =
    Emits-then
      (Emits-then (amount-Emits p src)
        (emit_shf_indir-Emits _ (both dst) reg_none shf_none (reg_b (dst + 1)) r_shf))
      (clear-Emits _ (both (dst + 1)))

pub shr_imm64_by-Grows : (p : Prog) (dst shift_amt : ℕ) → Grows p (shr_imm64_by p dst shift_amt)
unfolding shr_imm64_by
shr_imm64_by-Grows p dst shift_amt =
    Grows-if (shift_amt == 0) p _ _ (0, Emits-zero p)
      (Grows-if (ltb shift_amt 32) p _ _
        (
          2,
          Emits-then
              (emit_shf-Emits p (both dst) (reg_a (dst + 1)) shf_none (reg_b dst) r_dshf shift_amt)
              (emit_shf-Emits _ (both (dst + 1)) reg_none shf_none (reg_b (dst + 1)) r_shf
                shift_amt),
        )
        (Grows-if (shift_amt == 32) p _ _
          (2, Emits-then (mov-Emits p dst (dst + 1)) (clear-Emits _ (both (dst + 1))))
          (
            2,
            Emits-then
                (emit_shf-Emits p (both dst) reg_none shf_none (reg_b (dst + 1)) r_shf
                  (shift_amt - 32))
                (clear-Emits _ (both (dst + 1))),
          )))

shr_any-Lands :
    (p : Prog) (dst src : ℕ)
    → p.alloc_len / 8 < 2 ^ 16
    → length p.prog ≤ p.alloc_len / 8
    → Lands p (shr_reg64_any p dst src)
unfolding shr_reg64_any
shr_any-Lands p dst src small room =
    let a =
      Emits-then (emit_br_bset-Emits p (reg_a src) 5 (u16 (length p.prog + 6)) 0)
        (low-Emits _ dst src) in
    let b = λ (q : Prog).
      Emits-then (emit_br-Emits q 0x18 (u16 (length q.prog + 6)) 2) (high-Emits _ dst src) in
    confirmed-Lands 6 3 p _ _ (λ q. shr_reg64_ge32 q dst src) small room (Emits-then a (b _)) a
      (b _) (ge32-Emits _ dst src)

-- The logical shift to the right by a register, likewise: shr_reg64 returns 0, and the program
-- grows within the buffer or has an error.
pub shr_reg64-Lands :
    (p : Prog) (meta : Meta)
    → p.alloc_len / 8 < 2 ^ 16
    → length p.prog ≤ p.alloc_len / 8
    → Lands p (shr_reg64 p meta)
unfolding shr_reg64 shr_reg64_lt32
shr_reg64-Lands p meta small room =
    let dst = meta.dst_reg * 2 in
    let src = meta.src_reg * 2 in
    Lands-if (meta.umin_src == meta.umax_src) p _ _ (shr_imm64_by-Grows p dst (u8 meta.umin_src)) (
      Lands-if (ltb meta.umax_src 32) p _ _
        (4, Emits-then (low-Emits p dst src) (high-Emits _ dst src))
        (Lands-if (not (ltb meta.umin_src 32)) p _ _ (3, ge32-Emits p dst src)
          (shr_any-Lands p dst src small room)))

-- The sign comes with the amount.
sign-Emits :
    (p : Prog) (dst src : ℕ) → Emits 1 p (emit_alu p reg_none (reg_a src) alu_or (reg_b (dst + 1)))
sign-Emits p dst src = emit_alu-Emits p reg_none (reg_a src) alu_or (reg_b (dst + 1))

signed_low-Emits : (p : Prog) (dst src : ℕ) → Emits 2 p (ashr_reg64_lt32_low p dst src)
unfolding ashr_reg64_lt32_low
signed_low-Emits p dst src = low-Emits p dst src

signed_high-Emits : (p : Prog) (dst src : ℕ) → Emits 2 p (ashr_reg64_lt32_high p dst src)
unfolding ashr_reg64_lt32_high
signed_high-Emits p dst src =
    Emits-then (sign-Emits p dst src)
      (emit_shf_indir-Emits _ (both (dst + 1)) reg_none shf_ashr (reg_b (dst + 1)) r_shf)

signed_ge32-Emits : (p : Prog) (dst src : ℕ) → Emits 3 p (ashr_reg64_ge32 p dst src)
unfolding ashr_reg64_ge32
signed_ge32-Emits p dst src =
    Emits-then
      (Emits-then (sign-Emits p dst src)
        (emit_shf_indir-Emits _ (both dst) reg_none shf_ashr (reg_b (dst + 1)) r_shf))
      (emit_shf-Emits _ (both (dst + 1)) reg_none shf_ashr (reg_b (dst + 1)) r_shf 31)

pub ashr_imm64_by-Grows : (p : Prog) (dst shift_amt : ℕ) → Grows p (ashr_imm64_by p dst shift_amt)
unfolding ashr_imm64_by
ashr_imm64_by-Grows p dst shift_amt =
    let high = λ (q : Prog) (n : ℕ).
      emit_shf-Emits q (both (dst + 1)) reg_none shf_ashr (reg_b (dst + 1)) r_shf n in
    let sign = λ (q : Prog). emit_alu-Emits q reg_none (reg_a (dst + 1)) alu_or (reg_imm 0) in
    Grows-if (shift_amt == 0) p _ _ (0, Emits-zero p)
      (Grows-if (ltb shift_amt 32) p _ _
        (
          3,
          Emits-then
              (Emits-then
                (emit_shf-Emits p (both dst) (reg_a (dst + 1)) shf_none (reg_b dst) r_dshf
                  shift_amt)
                (sign _))
              (high _ shift_amt),
        )
        (Grows-if (shift_amt == 32) p _ _ (2, Emits-then (mov-Emits p dst (dst + 1)) (high _ 31))
          (
            3,
            Emits-then
                (Emits-then (sign p) (
                  emit_shf-Emits _ (both dst) reg_none shf_ashr (reg_b (dst + 1)) r_shf
                    (shift_amt - 32)))
                (high _ 31),
          )))

ashr_any-Lands :
    (p : Prog) (dst src : ℕ)
    → p.alloc_len / 8 < 2 ^ 16
    → length p.prog ≤ p.alloc_len / 8
    → Lands p (ashr_reg64_any p dst src)
unfolding ashr_reg64_any
ashr_any-Lands p dst src small room =
    let a =
      Emits-then (emit_br_bset-Emits p (reg_a src) 5 (u16 (length p.prog + 6)) 0)
        (signed_low-Emits _ dst src) in
    let b = λ (q : Prog).
      Emits-then (emit_br-Emits q 0x18 (u16 (length q.prog + 6)) 2) (signed_high-Emits _ dst src) in
    confirmed-Lands 6 3 p _ _ (λ q. ashr_reg64_ge32 q dst src) small room (Emits-then a (b _)) a
      (b _) (signed_ge32-Emits _ dst src)

-- The arithmetic shift to the right by a register, likewise: ashr_reg64 returns 0, and the program
-- grows within the buffer or has an error.
pub ashr_reg64-Lands :
    (p : Prog) (meta : Meta)
    → p.alloc_len / 8 < 2 ^ 16
    → length p.prog ≤ p.alloc_len / 8
    → Lands p (ashr_reg64 p meta)
unfolding ashr_reg64 ashr_reg64_lt32
ashr_reg64-Lands p meta small room =
    let dst = meta.dst_reg * 2 in
    let src = meta.src_reg * 2 in
    Lands-if (meta.umin_src == meta.umax_src) p _ _ (ashr_imm64_by-Grows p dst (u8 meta.umin_src)) (
      Lands-if (ltb meta.umax_src 32) p _ _
        (4, Emits-then (signed_low-Emits p dst src) (signed_high-Emits _ dst src))
        (Lands-if (not (ltb meta.umin_src 32)) p _ _ (3, signed_ge32-Emits p dst src)
          (ashr_any-Lands p dst src small room)))
