-- ===== src/Flower/Metadata/Unwind.antt =====
-- What `nfp_compile_flow_metadata` (src/flower/metadata.c) takes it keeps on success and gives back
-- on each failure.
use nfp_drv_kmods.Base.{
  ℕ, ◌+◌, ◌-◌, ◌*◌, ◌^◌, ◌≤◌, ◌<◌, ◌≡◌, ◌∙◌, sym, ap, refl, true, false, not, ◌&&◌, ◌==◌, ==-yes,
  ==-no, if◌then◌else◌, Option, none, some, List, ◌∷◌, u32, Errno, enoent, enomem, eexist, Result,
  ok, err, Bool-cases, Option-cases, inl, inr, arith,
}
use native.Mathlib.Decide.{ℕ_discrete}
use nfp_drv_kmods.Flower.Mask.{Masks, Given, search_mask_table, check_mask_add, check_mask_remove}
use nfp_drv_kmods.Flower.Mask.Counts.{
  uses, counted, IsTable, Began, Ended, check_mask_add-Began, check_mask_remove-Ended,
}
use nfp_drv_kmods.Flower.Stats.{Stats, get_stats_entry}
use nfp_drv_kmods.Flower.Stats.Conserved.{IsValid, Got, get-Got, release-IsValid}
use nfp_drv_kmods.Flower.Metadata.{
  Flow, CtxEntry, Priv, Env, Compiled, search_fl_table, remove_ctx, release_stats, remove_rhash,
  remove_mask, finish_flow, with_mask, add_mask, with_stats, compile_flow_metadata,
}

-- A ring of 2 ^ k entries for the statistics identifiers of `init` entries and `units` memory units,
-- of which those in `used` belong to flows.
module _ (k init units : ℕ) (used : List ℕ) (small : k ≤ 31) (fits : init * units < 2 ^ k) where
  -- The state of `old` is there again, but for the version and the counters.
  pub record IsUndone (old : Priv) (new : Priv) : Type 0 where
    pub stats : IsValid k init units new.stats_ids used
    pub table : new.stats_ctx_table ≡ old.stats_ctx_table
    pub masks : IsTable new.masks.table
    pub counts : (h : ℕ) → uses new.masks h ≡ uses old.masks h

  -- The flow has an identifier and an entry, and its mask is counted.
  pub record IsDone (old : Priv) (flow : Flow) (new : Priv) (flow' : Flow) : Type 0 where
    pub stats : IsValid k init units new.stats_ids (flow'.host_ctx_id ∷ used)
    pub table :
        new.stats_ctx_table
        ≡ record { stats_cxt = flow'.host_ctx_id; flow = flow.id } ∷ old.stats_ctx_table
    pub masks : IsTable new.masks.table
    pub counts :
        (h : ℕ)
        → uses new.masks h ≡ (
            if not flow.pre_tun_rule && flow.mask_hash == h
            then uses old.masks h + 1
            else uses old.masks h)

  abbrev pub Settled : Priv → Flow → Compiled → Type 0
  Settled old flow c = elim c.code [
    | none ↦ IsDone old flow c.priv c.flow
    | some e ↦ IsUndone old c.priv
  ]

  -- An identifier is taken, and the rest is as before.
  record IsTaken (old : Priv) (ctx : ℕ) (new : Priv) : Type 0 where
    stats : IsValid k init units new.stats_ids (ctx ∷ used)
    table : new.stats_ctx_table ≡ old.stats_ctx_table
    masks : IsTable new.masks.table
    counts : (h : ℕ) → uses new.masks h ≡ uses old.masks h

  release-IsUndone :
      (e : Errno) (ctx : ℕ) (old priv : Priv) (flow : Flow)
      → IsTaken old ctx priv
      → IsUndone old (release_stats e ctx priv flow).priv
  unfolding release_stats
  release-IsUndone e ctx old priv flow t = record {
    stats =
        (release-IsValid k init units priv.stats_ids (ctx ∷ used) used ctx small fits
          (λ j. omega arith) (omega arith) t.stats).1;
    table = t.table;
    masks = t.masks;
    counts = t.counts;
  }

  -- The same with the entry of the flow.
  record IsEntered (old : Priv) (ctx : ℕ) (flow : Flow) (new : Priv) : Type 0 where
    stats : IsValid k init units new.stats_ids (ctx ∷ used)
    table : new.stats_ctx_table ≡ record { stats_cxt = ctx; flow = flow.id } ∷ old.stats_ctx_table
    masks : IsTable new.masks.table

  remove_ctx-head :
      (ctx flow : ℕ) (t : List CtxEntry)
      → remove_ctx (record { stats_cxt = ctx; flow = flow } ∷ t) ctx ≡ t
  unfolding remove_ctx
  remove_ctx-head ctx flow t = rw (==-yes ctx ctx refl) refl

  rhash-IsUndone :
      (e : Errno) (ctx : ℕ) (old priv : Priv) (flow flow' : Flow)
      → IsEntered old ctx flow priv
      → ((h : ℕ) → uses priv.masks h ≡ uses old.masks h)
      → IsUndone old (remove_rhash e ctx priv flow').priv
  unfolding remove_rhash
  rhash-IsUndone e ctx old priv flow flow' t same =
      release-IsUndone e ctx old
        (record priv { stats_ctx_table = remove_ctx priv.stats_ctx_table ctx }) flow'
        (record {
          stats = t.stats;
          table =
              ap (λ l. remove_ctx l ctx) t.table ∙ remove_ctx-head ctx flow.id old.stats_ctx_table;
          masks = t.masks;
          counts = same;
        })

  -- The mask counts the new flow, unless the flow is for the pre-tunnel table.
  abbrev Counts : Priv → Flow → Priv → Type 0
  Counts old flow new =
      (h : ℕ)
      → uses new.masks h ≡ (
          if not flow.pre_tun_rule && flow.mask_hash == h
          then uses old.masks h + 1
          else uses old.masks h)

  -- The count of the flow goes again.
  uncounted :
      (old : Priv) (flow : Flow) (hash h : ℕ) (m n : Masks)
      → flow.pre_tun_rule ≡ false
      → hash ≡ flow.mask_hash
      → uses m h ≡ (
          if not flow.pre_tun_rule && flow.mask_hash == h
          then uses old.masks h + 1
          else uses old.masks h)
      → uses m hash ≡ uses old.masks hash + 1
      → uses n h ≡ (if hash == h then uses m hash - 1 else uses m h)
      → uses n h ≡ uses old.masks h
  uncounted old flow hash h m n tun same c d e = elim (ℕ_discrete hash h) [
    | yes p ↦
        let one : uses n h ≡ uses m hash - 1 = e ∙ rw (==-yes hash h p) refl in
        let two : uses m hash - 1 ≡ uses old.masks hash = omega arith in
        one ∙ two ∙ ap (λ j. uses old.masks j) p
    | no q ↦
        let away : (flow.mask_hash == h) ≡ false = ==-no flow.mask_hash h (λ z. q (same ∙ z)) in
        let one : uses n h ≡ uses m h = e ∙ rw (==-no hash h q) refl in one ∙ c ∙ simp (tun, away)
  ]

  Ended-IsTable :
      (m : Masks) (hash flags : ℕ) (r : Option Given × Masks)
      → Ended m hash flags r
      → 0 < uses m hash
      → IsTable r.1.table
        × ((h : ℕ) → uses r.1 h ≡ (if hash == h then uses m hash - 1 else uses m h))
  Ended-IsTable m hash flags (none, m') (same, zero_uses) pos = absurd (omega arith)
  Ended-IsTable m hash flags (some g, m') (table, counts, live, flag) pos = (table, counts)

  off-Settled :
      (e : Errno) (env : Env) (ctx hash : ℕ) (old priv : Priv) (flow flow' : Flow)
      → IsEntered old ctx flow priv
      → flow.pre_tun_rule ≡ false
      → hash ≡ flow.mask_hash
      → Counts old flow priv
      → IsUndone old
          (remove_rhash e ctx
            (record priv { masks = (check_mask_remove env.now priv.masks hash 0).1 })
            flow').priv
  off-Settled e env ctx hash old priv flow flow' t off same counts =
      let mine : uses priv.masks hash ≡ uses old.masks hash + 1 =
        counts hash ∙ simp (off, ==-yes flow.mask_hash hash (sym same)) in
      let (table, less) =
        Ended-IsTable priv.masks hash 0 (check_mask_remove env.now priv.masks hash 0)
          (check_mask_remove-Ended env.now priv.masks hash 0 t.masks) (omega arith) in
      let priv' = record priv { masks = (check_mask_remove env.now priv.masks hash 0).1 } in
      let entered : IsEntered old ctx flow priv' = record {
        stats = t.stats;
        table = t.table;
        masks = table;
      } in
      rhash-IsUndone e ctx old priv' flow flow' entered
        (λ h. uncounted old flow hash h priv.masks priv'.masks off same (counts h) mine (less h))

  mask-Settled :
      (e : Errno) (env : Env) (ctx : ℕ) (old priv : Priv) (flow flow' : Flow)
      → IsEntered old ctx flow priv
      → flow'.pre_tun_rule ≡ flow.pre_tun_rule
      → flow'.mask_hash ≡ flow.mask_hash
      → Counts old flow priv
      → Settled old flow (remove_mask e env ctx priv flow')
  unfolding remove_mask
  mask-Settled e env ctx old priv flow flow' t tun hash counts =
      elim (Bool-cases flow'.pre_tun_rule) [
        | inl on ↦
            let mine : flow.pre_tun_rule ≡ true = sym tun ∙ on in
            simp on (rhash-IsUndone e ctx old priv flow flow' t (λ h. counts h ∙ simp mine))
        | inr off ↦ simp off (
            off-Settled e env ctx flow'.mask_hash old priv flow flow' t (sym tun ∙ off) hash counts)
      ]

  finish-Settled :
      (env : Env) (ctx cookie netdev id : ℕ) (old priv : Priv) (flow flow' : Flow)
      → IsEntered old ctx flow priv
      → flow'.pre_tun_rule ≡ flow.pre_tun_rule
      → flow'.mask_hash ≡ flow.mask_hash
      → flow'.host_ctx_id ≡ ctx
      → Counts old flow priv
      → Settled old flow (finish_flow env ctx cookie netdev id priv flow')
  unfolding finish_flow
  finish-Settled env ctx cookie netdev id old priv flow flow' t tun hash own counts =
      elim (Option-cases (search_fl_table priv.flow_table cookie netdev)) [
        | inl free ↦
            rw (free, finish_flow)
              (record {
                stats = rw own t.stats;
                table = rw own t.table;
                masks = t.masks;
                counts = counts;
              })
        | inr (dup, found) ↦
            rw (found, finish_flow)
              (mask-Settled eexist env ctx old _ flow _
                (record { stats = t.stats; table = t.table; masks = t.masks }) tun hash counts)
      ]

  counted_once :
      (old : Priv) (flow : Flow) (h mine before now : ℕ)
      → flow.pre_tun_rule ≡ false
      → mine ≡ uses old.masks flow.mask_hash
      → before ≡ uses old.masks h
      → now ≡ (if flow.mask_hash == h then mine + 1 else before)
      → now ≡ (
          if not flow.pre_tun_rule && flow.mask_hash == h
          then uses old.masks h + 1
          else uses old.masks h)
  counted_once old flow h mine before now off m b e = elim (ℕ_discrete flow.mask_hash h) [
    | yes p ↦
        let test = ==-yes flow.mask_hash h p in
        let one : now ≡ mine + 1 = e ∙ rw test refl in
        one ∙ ap (λ n. n + 1) (m ∙ ap (λ j. uses old.masks j) p) ∙ simp (off, test)
    | no q ↦
        let test = ==-no flow.mask_hash h q in
        let one : now ≡ before = e ∙ rw test refl in one ∙ b ∙ simp (off, test)
  ]

  Began-hash :
      (m : Masks) (a b flags : ℕ) (r : Option Given × Masks)
      → a ≡ b
      → Began m a flags r
      → Began m b flags r
  Began-hash m a b flags r e h = rw⁻¹ e h

  with_mask-Settled :
      (env : Env) (ctx cookie netdev : ℕ) (old priv : Priv) (flow flow' : Flow)
      (r : Option Given × Masks)
      → IsEntered old ctx flow priv
      → ((h : ℕ) → uses priv.masks h ≡ uses old.masks h)
      → flow.pre_tun_rule ≡ false
      → flow'.pre_tun_rule ≡ flow.pre_tun_rule
      → flow'.mask_hash ≡ flow.mask_hash
      → flow'.host_ctx_id ≡ ctx
      → Began priv.masks flow.mask_hash flow'.flags r
      → Settled old flow (with_mask env ctx cookie netdev priv flow' r)
  unfolding with_mask
  with_mask-Settled env ctx cookie netdev old priv flow flow' (none, masks) t same off tun hash own
        b =
      rhash-IsUndone enoent ctx old (record priv { masks = masks }) flow flow'
        (record { stats = t.stats; table = t.table; masks = rw b t.masks })
        (λ h. ap (λ l. counted (search_mask_table l h)) b ∙ same h)
  with_mask-Settled env ctx cookie netdev old priv flow flow' (some g, masks) t same off tun hash
        own b =
      finish-Settled env ctx cookie netdev g.mask_id old (record priv { masks = masks }) flow
        (record flow' { flags = g.flags })
        (record { stats = t.stats; table = t.table; masks = b.0 }) tun hash own
        (λ h.
          counted_once old flow h (uses priv.masks flow.mask_hash) (uses priv.masks h)
            (uses masks h) off (same flow.mask_hash) (same h) (b.1 h))

  add_mask-Settled :
      (env : Env) (ctx cookie netdev : ℕ) (old priv : Priv) (flow flow' : Flow)
      → IsEntered old ctx flow priv
      → ((h : ℕ) → uses priv.masks h ≡ uses old.masks h)
      → uses old.masks flow.mask_hash + 1 < 2 ^ 32
      → flow'.pre_tun_rule ≡ flow.pre_tun_rule
      → flow'.mask_hash ≡ flow.mask_hash
      → flow'.host_ctx_id ≡ ctx
      → Settled old flow (add_mask env ctx cookie netdev priv flow')
  unfolding add_mask
  add_mask-Settled env ctx cookie netdev old priv flow flow' t same few tun hash own =
      elim (Bool-cases flow'.pre_tun_rule) [
        | inl on ↦
            let mine : flow.pre_tun_rule ≡ true = sym tun ∙ on in
            simp on (
              finish-Settled env ctx cookie netdev 0 old priv flow flow' t tun hash own
                (λ h. same h ∙ simp mine))
        | inr off ↦
            let began : Began priv.masks flow'.mask_hash flow'.flags
                (check_mask_add env.mask_room env.now priv.masks flow'.mask_hash flow'.flags) =
              check_mask_add-Began env.mask_room env.now priv.masks flow'.mask_hash flow'.flags
                t.masks (omega (arith, same flow'.mask_hash, ap (uses old.masks) hash)) in
            simp off (
              with_mask-Settled env ctx cookie netdev old priv flow flow'
                (check_mask_add env.mask_room env.now priv.masks flow'.mask_hash flow'.flags) t same
                (sym tun ∙ off) tun hash own (Began-hash priv.masks _ _ flow'.flags _ hash began))
      ]

  with_stats-Settled :
      (env : Env) (cookie netdev : ℕ) (priv : Priv) (flow : Flow) (r : Result ℕ × Stats)
      → IsValid k init units priv.stats_ids used
      → IsTable priv.masks.table
      → uses priv.masks flow.mask_hash + 1 < 2 ^ 32
      → Got k init units priv.stats_ids used r
      → Settled priv flow (with_stats env cookie netdev priv flow r)
  unfolding with_stats
  with_stats-Settled env cookie netdev priv flow (err e, s) v table few got = record {
    stats = rw got v;
    table = refl;
    masks = table;
    counts = λ h. refl;
  }
  with_stats-Settled env cookie netdev priv flow (ok ctx, s) v table few got =
      let flow' = record flow { host_ctx_id = ctx; host_cookie = cookie; ingress_dev = netdev } in
      let taken : IsTaken priv ctx (record priv { stats_ids = s }) = record {
        stats = got;
        table = refl;
        masks = table;
        counts = λ h. refl;
      } in
      elim (Bool-cases env.ctx_room) [
        | inr no_room ↦ simp no_room (release-IsUndone enomem ctx priv _ flow' taken)
        | inl room ↦ simp room (elim (Bool-cases env.inserted) [
          | inr refused ↦ simp refused (release-IsUndone enomem ctx priv _ flow' taken)
          | inl entered ↦ simp entered (
              add_mask-Settled env ctx cookie netdev priv _ flow _
                (record { stats = got; table = refl; masks = table }) (λ h. refl) few refl refl
                refl)
        ])
      ]

  pub compile-Settled :
      (env : Env) (cookie netdev : ℕ) (priv : Priv) (flow : Flow)
      → units ≤ 1024
      → IsValid k init units priv.stats_ids used
      → IsTable priv.masks.table
      → uses priv.masks flow.mask_hash + 1 < 2 ^ 32
      → Settled priv flow (compile_flow_metadata env cookie netdev priv flow)
  unfolding compile_flow_metadata
  compile-Settled env cookie netdev priv flow few_units v table few =
      with_stats-Settled env (u32 cookie) netdev priv flow (get_stats_entry priv.stats_ids) v table
        few (get-Got k init units priv.stats_ids used few_units v)
