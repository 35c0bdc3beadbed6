-- ===== src/Abm/Cls/Replace.antt =====
-- What `nfp_abm_u32_knode_replace` and `nfp_abm_u32_knode_delete` (src/abm/cls.c) leave in the list.
use mathlib.Core.Path.{subst}
use mathlib.Core.Bool.{false≢true}
use nfp_drv_kmods.Base.{
  ℕ, ◌≡◌, refl, sym, ap, ◌⊎◌, inl, inr, Bool, true, false, ◌==◌, Bool-cases, if◌then◌else◌, Option,
  none, some, List, [], ◌∷◌, Result, ok, err, Errno, enomem, eopnotsupp, bit_and,
}
use nfp_drv_kmods.Abm.Cls.{
  U32Match, Abm, Link, Knode, check_knode, find_band, update_band_map, remove, has_handle,
  knode_delete, conflicts, overwrite, new_match, store_map, knode_replace,
}
use nfp_drv_kmods.Abm.Cls.Compatible.{
  Unused, Valid, In, conflicts-OthersFit, has_handle-Unused, Unused-AllFit, overwrite-Valid,
  remove-Valid, find_band-In,
}

-- The filter is offloaded, and its priorities get its band; or no match has its handle; or there was
-- no memory and nothing has changed.
pub Filtered : Link → U32Match → Result (Unit {0}) → Link → Type 0
Filtered alink new (ok done) alink' =
    (prio : ℕ)
    → bit_and prio new.mask ≡ new.val
    → find_band alink'.dscp_map alink'.def_band prio ≡ new.band
Filtered alink new (err e) alink' =
    ((e ≡ eopnotsupp) × Unused new.handle alink'.dscp_map) ⊎ ((e ≡ enomem) × (alink' ≡ alink))

pub record Replaced (alink : Link) (new : U32Match) (done : Result (Unit {0}) × Link) : Type 0 where
  pub valid : Valid done.1.dscp_map
  pub outcome : Filtered alink new done.0 done.1

remove-none :
    (handle : ℕ) (ms : List U32Match) → has_handle handle ms ≡ false → remove handle ms ≡ ms
unfolding remove has_handle
remove-none handle [] = λ e. refl
remove-none handle (m ∷ ms) = elim (Bool-cases (m.handle == handle)) [
  | inl is ↦ rw is (λ e. absurd (false≢true (sym e)))
  | inr other ↦ rw other (λ e. ap (λ xs. m ∷ xs) (remove-none handle ms e))
]

overwrite-In :
    (new : U32Match) (ms : List U32Match)
    → has_handle new.handle ms ≡ true
    → In new (overwrite new ms)
unfolding overwrite has_handle
overwrite-In new [] = λ e. absurd (false≢true e)
overwrite-In new (m ∷ ms) = elim (Bool-cases (m.handle == new.handle)) [
  | inl is ↦ rw is (λ e. inl refl)
  | inr other ↦ rw other (λ e. inr (overwrite-In new ms e))
]

module _ (order_base_2 roundup_pow_of_two : ℕ → ℕ) where
  delete-map :
      (abm : Abm) (alink : Link) (handle : ℕ)
      → (knode_delete order_base_2 roundup_pow_of_two abm alink handle).dscp_map
        ≡ remove handle alink.dscp_map
  unfolding knode_delete update_band_map
  delete-map abm alink handle = elim (Bool-cases (has_handle handle alink.dscp_map)) [
    | inl e ↦ rw e refl
    | inr e ↦ rw e (sym (remove-none handle alink.dscp_map e))
  ]

  -- The filter is not offloaded, and what had its handle is taken off.
  delete-Replaced :
      (abm : Abm) (alink alink' : Link) (new : U32Match)
      → Valid alink'.dscp_map
      → Replaced alink new
          (err eopnotsupp, knode_delete order_base_2 roundup_pow_of_two abm alink' new.handle)
  unfolding Filtered
  delete-Replaced abm alink alink' new valid =
      let (v, u) = remove-Valid new.handle alink'.dscp_map valid in
      let is = sym (delete-map abm alink' new.handle) in
      record {
        valid = subst (λ ms. Valid ms) is v;
        outcome = inl (refl, subst (λ ms. Unused new.handle ms) is u);
      }

  store_map-Replaced :
      (abm : Abm) (alink : Link) (new : U32Match) (failure : Option Errno) (ms : List U32Match)
      → Valid ms
      → In new ms
      → Replaced alink new
          (store_map order_base_2 roundup_pow_of_two abm alink new.handle failure ms)
  unfolding store_map update_band_map Filtered
  store_map-Replaced abm alink new none ms valid here = record {
    valid = valid;
    outcome = λ prio meets. find_band-In ms alink.def_band prio new valid here meets;
  }
  store_map-Replaced abm alink new (some e) ms valid here =
      delete-Replaced abm alink
        (update_band_map order_base_2 roundup_pow_of_two abm (record alink { dscp_map = ms })) new
        valid

  replace-cases :
      (abm : Abm) (alink : Link) (knode : Knode) (proto : ℕ) (memory : Bool)
      (failure : Option Errno)
      → Valid alink.dscp_map
      → conflicts (new_match knode proto) alink.dscp_map ≡ false
      → Replaced alink (new_match knode proto) (
          if has_handle knode.handle alink.dscp_map
          then store_map order_base_2 roundup_pow_of_two abm alink knode.handle failure
              (overwrite (new_match knode proto) alink.dscp_map)
          else (if memory
              then store_map order_base_2 roundup_pow_of_two abm alink knode.handle failure
                  (new_match knode proto ∷ alink.dscp_map)
              else (err enomem, alink)))
  unfolding Filtered
  replace-cases abm alink knode proto memory failure valid free =
      let new = new_match knode proto in
      let ms = alink.dscp_map in
      let fits = conflicts-OthersFit new ms free in
      elim (Bool-cases (has_handle knode.handle ms)) [
        | inl e ↦ rw e (
            store_map-Replaced abm alink new failure (overwrite new ms)
              (overwrite-Valid new ms valid fits) (overwrite-In new ms e))
        | inr e ↦
            let unused = has_handle-Unused knode.handle ms e in
            rw e (elim (Bool-cases memory) [
              | inl m ↦ rw m (
                  store_map-Replaced abm alink new failure (new ∷ ms)
                    (Unused-AllFit new ms unused fits, unused, valid) (inl refl))
              | inr m ↦ rw m (record { valid = valid; outcome = inr (refl, refl) })
            ])
      ]

  -- From a list in which each handle has one match and matches that overlap have one band,
  -- `nfp_abm_u32_knode_replace` leaves such a list. If it returns 0, every priority that meets the
  -- filter gets its band; if not, either the error is EOPNOTSUPP and no match has the handle of the
  -- filter, or it is ENOMEM and nothing has changed.
  pub knode_replace-Replaced :
      (abm : Abm) (alink : Link) (knode : Knode) (proto : ℕ) (memory : Bool)
      (failure : Option Errno)
      → Valid alink.dscp_map
      → Replaced alink
          (new_match knode proto)
          (knode_replace order_base_2 roundup_pow_of_two abm alink knode proto memory failure)
  unfolding knode_replace
  knode_replace-Replaced abm alink knode proto memory failure valid =
      let new = new_match knode proto in
      elim (Bool-cases (check_knode abm knode proto)) [
        | inr bad ↦ rw bad (delete-Replaced abm alink alink new valid)
        | inl good ↦ rw good (elim (Bool-cases (conflicts new alink.dscp_map)) [
          | inl bad ↦ rw bad (delete-Replaced abm alink alink new valid)
          | inr free ↦ rw free (replace-cases abm alink knode proto memory failure valid free)
        ])
      ]
