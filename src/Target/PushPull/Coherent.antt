-- ===== src/Target/PushPull/Coherent.antt =====
-- The wildcard action of src/nfpcore/nfp_cpp.h stands for a read or a write: in the tables of
-- src/nfpcore/nfp_target.c its widths are those of the two.
use native.Mathlib.Decide.{ℕ_discrete}
use nfp_drv_kmods.Base.{
  ℕ, zero, suc, ◌*◌, ◌/◌, ◌%◌, ◌<◌, ◌≡◌, refl, ap, Bool, true, false, ◌&&◌, ltb, ◌==◌, ==_iff,
  ==-yes, ==-no, if◌then◌else◌, Result, ok, err, ok-injective, arith,
}
use nfp_drv_kmods.Cpp.{cpp_id, action_rw}
use nfp_drv_kmods.Cpp.Fields.{cpp_id_fields}
use nfp_drv_kmods.Target.Tables.{p32, p64}
use nfp_drv_kmods.Target.PushPull.{
  target_rw, nbi_dma, nbi_stats, nbi_tm, nbi_ppc, nbi, mu_ctm, mu_emu, mu_imu, mu, ila, pci, crypto,
  cap_xpb, cls, for_target, pushpull,
}

-- Where the wildcard has widths, a read (action 0) has its push width and pulls nothing, and a write
-- (action 1) has its pull width and pushes nothing.
abbrev Agrees : Result ℕ → Result ℕ → Result ℕ → Type 0
Agrees (err e) read write = Unit
Agrees (ok pp) read write = (read ≡ ok (pp % 16)) × (write ≡ ok (pp / 16 * 16))

record Coherent (target : ℕ) (f : ℕ → Result ℕ) : Type 0 where
  holds :
      (token : ℕ)
      → token < 256
      → Agrees
          (f (cpp_id target action_rw token))
          (f (cpp_id target 0 token))
          (f (cpp_id target 1 token))

-- The same as a test.
abbrev is_ok : ℕ → Result ℕ → Bool
is_ok pp (err e) = false
is_ok pp (ok q) = q == pp

abbrev agree : Result ℕ → Result ℕ → Result ℕ → Bool
agree (err e) read write = true
agree (ok pp) read write = is_ok (pp % 16) read && is_ok (pp / 16 * 16) write

is_ok_sound : (pp : ℕ) (r : Result ℕ) → is_ok pp r ≡ true → r ≡ ok pp
is_ok_sound pp (err e) h = cc
is_ok_sound pp (ok q) h = ap ok ((==_iff q pp).0 h)

agree_sound :
    (rw_pp read write : Result ℕ) → agree rw_pp read write ≡ true → Agrees rw_pp read write
agree_sound (err e) read write h = tt
agree_sound (ok pp) read write h =
    (is_ok_sound _ read (ground arith), is_ok_sound _ write (ground arith))

abbrev test : ℕ → (ℕ → Result ℕ) → ℕ → Bool
test target f token =
    agree (f (cpp_id target action_rw token)) (f (cpp_id target 0 token))
      (f (cpp_id target 1 token))

tokens_pass : (ℕ → Bool) → ℕ → Bool
tokens_pass check zero = true
tokens_pass check (suc token) =
    let earlier = tokens_pass check token in if check token then earlier else false

tokens_pass_sound :
    (check : ℕ → Bool) (bound : ℕ)
    → tokens_pass check bound ≡ true
    → (token : ℕ) → token < bound
    → check token ≡ true
unfolding tokens_pass
tokens_pass_sound check zero passed token lt = absurd (omega arith)
tokens_pass_sound check (suc bound) passed token lt =
    ground (arith, tokens_pass_sound check bound _ token)

by_table :
    (target : ℕ) (f : ℕ → Result ℕ) → tokens_pass (test target f) 256 ≡ true → Coherent target f
by_table target f h = record {
  holds = λ token lt. agree_sound _ _ _ (tokens_pass_sound (test target f) 256 h token lt);
}

Coherent-if :
    {target : ℕ} {f g : ℕ → Result ℕ} (b : Bool)
    → Coherent target f
    → Coherent target g
    → Coherent target (λ id. if b then f id else g id)
Coherent-if true h k = h
Coherent-if false h k = k

Coherent-case :
    (target t : ℕ) {f g : ℕ → Result ℕ}
    → Coherent t f
    → Coherent target g
    → Coherent target (λ id. if target == t then f id else g id)
Coherent-case target t h k = elim (ℕ_discrete target t) [
  | yes e ↦ rw (==-yes _ _ e, e) h
  | no ne ↦ rw (==-no _ _ ne) k
]

nbi-Coherent : (address : ℕ) → Coherent 1 (λ id. nbi id address)
unfolding nbi cpp_id tokens_pass
nbi-Coherent address = Coherent-if _ (by_table 1 nbi_dma refl) (
    Coherent-if _ (by_table 1 nbi_stats refl)
      (Coherent-if _ (by_table 1 nbi_tm refl) (by_table 1 nbi_ppc refl)))

mu-Coherent : (address : ℕ) → Coherent 7 (λ id. mu id address)
unfolding mu cpp_id tokens_pass
mu-Coherent address = Coherent-if (ltb address 0x2000000000) ctm (
    Coherent-if (ltb address 0x8000000000) emu (
      Coherent-if (ltb address 0x9800000000) ctm (
        Coherent-if (ltb address 0x9C00000000) emu
          (Coherent-if (ltb address 0xA000000000) imu ctm))))
  where
    ctm : Coherent 7 mu_ctm
    ctm = by_table 7 mu_ctm refl

    emu : Coherent 7 mu_emu
    emu = by_table 7 mu_emu refl

    imu : Coherent 7 mu_imu
    imu = by_table 7 mu_imu refl

arm-Coherent :
    (address : ℕ)
    → Coherent 10 (λ id. if ltb address 0x10000 then target_rw id p64 else target_rw id p32)
unfolding target_rw cpp_id tokens_pass
arm-Coherent address =
    Coherent-if _ (by_table 10 (λ id. target_rw id p64) refl)
      (by_table 10 (λ id. target_rw id p32) refl)

plain-Coherent : Coherent 2 (λ id. target_rw id p32) × Coherent 0 (λ id. target_rw id p32)
unfolding target_rw cpp_id tokens_pass
plain-Coherent =
    (by_table 2 (λ id. target_rw id p32) refl, by_table 0 (λ id. target_rw id p32) refl)

special-Coherent :
    Coherent 6 ila × Coherent 9 pci × Coherent 12 crypto × Coherent 14 cap_xpb × Coherent 15 cls
unfolding ila pci crypto cap_xpb cls cpp_id tokens_pass
special-Coherent = (
  by_table 6 ila refl,
  by_table 9 pci refl,
  by_table 12 crypto refl,
  by_table 14 cap_xpb refl,
  by_table 15 cls refl,
)

for_target-Coherent : (target address : ℕ) → Coherent target (λ id. for_target target id address)
unfolding for_target
for_target-Coherent target address = Coherent-case target 1 (nbi-Coherent address) (
    Coherent-case target 2 plain-Coherent.0 (
      Coherent-case target 6 special-Coherent.0 (
        Coherent-case target 7 (mu-Coherent address) (
          Coherent-case target 9 special-Coherent.1 (
            Coherent-case target 10 (arm-Coherent address) (
              Coherent-case target 12 special-Coherent.2 (
                Coherent-case target 14 special-Coherent.3 (
                  Coherent-case target 15 special-Coherent.4 (
                    Coherent-case target 0 plain-Coherent.1
                      (record { holds = λ token lt. tt }))))))))))

-- Where `nfp_target_pushpull` has widths for the wildcard action of a target (below 32) and a token
-- (a byte) at an address, a read there has the push width and pulls nothing, and a write has the
-- pull width and pushes nothing.
pub pushpull_wildcard :
    (target token address : ℕ) {pp : ℕ}
    → target < 32
    → token < 256
    → pushpull (cpp_id target action_rw token) address ≡ ok pp
    → (pushpull (cpp_id target 0 token) address ≡ ok (pp % 16))
      × (pushpull (cpp_id target 1 token) address ≡ ok (pp / 16 * 16))
unfolding pushpull
pushpull_wildcard target token address {pp} ht hk h =
    let at = λ (action : ℕ) (ha : action < 256). (cpp_id_fields target action token ht ha hk).0 in
    rw (at 0 (omega arith), at 1 (omega arith))
      (widths _ (rw (at action_rw (omega arith)) at h)
        ((for_target-Coherent target address).holds token hk))
  where
    widths :
        (o : Result ℕ) {read write : Result ℕ}
        → o ≡ ok pp
        → Agrees o read write
        → (read ≡ ok (pp % 16)) × (write ≡ ok (pp / 16 * 16))
    widths (err e) q a = cc
    widths (ok p) q a = rw (← ok-injective q) a
