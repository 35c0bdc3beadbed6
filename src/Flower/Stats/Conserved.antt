-- ===== src/Flower/Stats/Conserved.antt =====
-- Each statistics identifier of src/flower/metadata.c is free or in use, and in one place only.
use nfp_drv_kmods.Base.{
  differ, ℕ, ◌+◌, ◌-◌, ◌*◌, ◌/◌, ◌%◌, ◌^◌, ◌≤◌, ◌<◌, ◌≡◌, ◌≢◌, ◌∙◌, sym, ap, ap₂, refl, Bool, ◌&&◌,
  ◌||◌, ltb, ltb→lt, leb, ◌==◌, if◌then◌else◌, none, some, List, [], ◌∷◌, length, length-append,
  bit_and, bit_or, enobufs, eexist, Result, ok, err, Bool-cases, inl, inr, arith, ==_iff, ==-no,
  ==-yes, bit_and_split, bit_and-ones, bit_or_split, zero-bit_or, bit_or-zero,
}
use nfp_drv_kmods.Flower.Ring.{Ring, circ_space, put, drop_first, is_empty}
use nfp_drv_kmods.Flower.Ring as R
use nfp_drv_kmods.Flower.Ring.Queue.{
  contents, circ_space-contents, contents-put, contents-drop_first, put-IsValid, drop_first-IsValid,
  pred_mul,
}
use nfp_drv_kmods.Flower.Mask.Conserved.{count, count-put_last}
use nfp_drv_kmods.Flower.Stats.{Stats, release_stats_entry, stat_id, next_mem_unit, get_stats_entry}

stat_id_lem : (stat mu : ℕ) → stat < 2 ^ 22 → mu < 1024 → stat_id stat mu ≡ mu * 2 ^ 22 + stat
unfolding stat_id
stat_id_lem stat mu hs hm =
    let low : bit_and (stat * 2 ^ 0) (2 ^ 22 - 1) ≡ stat =
      ap (λ (t : ℕ). bit_and t (2 ^ 22 - 1)) (omega arith) ∙ bit_and-ones 22 stat hs in
    let high : bit_and (mu * 2 ^ 22) (1023 * 2 ^ 22) ≡ mu * 2 ^ 22 =
      ap (λ (t : ℕ). bit_and t (1023 * 2 ^ 22)) (omega arith)
      ∙ bit_and_split 22 mu 0 1023 0 (omega arith) (omega arith)
      ∙ ap (λ (t : ℕ). t * 2 ^ 22 + 0) (bit_and-ones 10 mu hm)
      ∙ omega arith in
    ap₂ bit_or (low ∙ cut_low) (high ∙ cut_high)
    ∙ bit_or_split 22 0 stat mu 0 hs (omega arith)
    ∙ ap₂ (λ (t u : ℕ). t * 2 ^ 22 + u) (zero-bit_or mu) (bit_or-zero stat)
  where
    cut_low : stat ≡ 0 * 2 ^ 22 + stat
    cut_low = omega arith

    cut_high : mu * 2 ^ 22 ≡ mu * 2 ^ 22 + 0
    cut_high = omega arith

-- 1 for the identifiers that were never given: those of a lower entry, and of the current entry the
-- memory units from the active one on.
abbrev pub unallocated : ℕ → ℕ → ℕ → ℕ → ℕ
unallocated units init active id =
    if ltb (id / 2 ^ 22) units
      && (ltb (id % 2 ^ 22 + 1) init || (id % 2 ^ 22 + 1 == init && leb active (id / 2 ^ 22)))
    then 1
    else 0

-- How many those are.
abbrev pub left : ℕ → ℕ → ℕ → ℕ
left units init active = init * units - active

-- Of the identifiers that `init` entries of `units` memory units make, each is once in the free list,
-- among those in use, or not given yet.
pub record IsValid (k init units : ℕ) (s : Stats) (used : List ℕ) : Type 0 where
  pub ring : R.IsValid k s.ring
  pub ring_size : s.ring_size ≡ 2 ^ k
  pub mem_units : s.total_mem_units ≡ units
  pub active : s.active_mem_unit < units
  pub entries : s.init_unalloc ≤ 2 ^ 22
  pub rest : s.init_unalloc ≡ 0 → s.active_mem_unit ≡ 0
  pub once :
      (id : ℕ)
      → count id (contents (2 ^ k) s.ring)
          + count id used
          + unallocated units s.init_unalloc s.active_mem_unit id
        ≡ unallocated units init 0 id
  pub total :
      length (contents (2 ^ k) s.ring) + length used + left units s.init_unalloc s.active_mem_unit
      ≡ init * units

-- The same by the parts of an identifier.
abbrev open_at : ℕ → ℕ → ℕ → ℕ → ℕ → ℕ
open_at units init active stat mu =
    if ltb mu units && (ltb (stat + 1) init || (stat + 1 == init && leb active mu)) then 1 else 0

fresh_last :
    (units init active stat mu : ℕ)
    → active + 1 ≡ units
    → 0 < init
    → open_at units (init - 1) 0 stat mu + (if stat + 1 == init && mu == active then 1 else 0)
      ≡ open_at units init active stat mu
fresh_last units init active stat mu e h = ground arith

fresh_next :
    (units init active stat mu : ℕ)
    → active + 1 < units
    → 0 < init
    → open_at units init (active + 1) stat mu + (if stat + 1 == init && mu == active then 1 else 0)
      ≡ open_at units init active stat mu
fresh_next units init active stat mu e h = ground arith

abbrev pub indicator : Bool → ℕ
indicator b = if b then 1 else 0

-- An identifier by its parts.
same_id :
    (init active id j : ℕ)
    → 0 < init
    → init ≤ 2 ^ 22
    → id ≡ active * 2 ^ 22 + (init - 1)
    → indicator (id == j) ≡ indicator (j % 2 ^ 22 + 1 == init && j / 2 ^ 22 == active)
same_id init active id j h k e = ground arith

-- What `nfp_get_stats_entry` gives joins those in use; where it fails nothing changes.
abbrev pub Got : ℕ → ℕ → ℕ → Stats → List ℕ → Result ℕ × Stats → Type 0
Got k init units s used (ok id, s') = IsValid k init units s' (id ∷ used)
Got k init units s used (err e, s') = s' ≡ s

fresh-IsValid :
    (k init units : ℕ) (s : Stats) (used : List ℕ)
    → units ≤ 1024
    → 0 < s.init_unalloc
    → IsValid k init units s used
    → IsValid k init units (next_mem_unit s) (stat_id (s.init_unalloc - 1) s.active_mem_unit ∷ used)
fresh-IsValid k init units s used few pos v =
    let last = s.init_unalloc in
    let mu = s.active_mem_unit in
    let packed = stat_id_lem (last - 1) mu (omega arith) (omega arith) in
    let same = λ (j : ℕ). same_id last mu (stat_id (last - 1) mu) j pos v.entries packed in
    let row = pred_mul last units pos in
    elim (Bool-cases (mu + 1 == s.total_mem_units)) [
      | inl e ↦
          let all : mu + 1 ≡ units = (==_iff _ _).0 e ∙ v.mem_units in
          rw e (record {
            ring = v.ring;
            ring_size = v.ring_size;
            mem_units = v.mem_units;
            active = omega arith;
            entries = omega arith;
            rest = λ _. refl;
            once = λ j. omega (
              arith,
              v.once j,
              same j,
              fresh_last units last mu (j % 2 ^ 22) (j / 2 ^ 22) all pos,
            );
            total = omega (arith, v.total);
          })
      | inr d ↦
          let more : mu + 1 ≢ units =
            λ a. differ (mu + 1) s.total_mem_units d (a ∙ sym v.mem_units) in
          rw d (record {
            ring = v.ring;
            ring_size = v.ring_size;
            mem_units = v.mem_units;
            active = omega arith;
            entries = v.entries;
            rest = λ z. absurd (omega arith);
            once = λ j. omega (
              arith,
              v.once j,
              same j,
              fresh_next units last mu (j % 2 ^ 22) (j / 2 ^ 22) (omega arith) pos,
            );
            total = omega (arith, v.total);
          })
    ]

pub get-Got :
    (k init units : ℕ) (s : Stats) (used : List ℕ)
    → units ≤ 1024
    → IsValid k init units s used
    → Got k init units s used (get_stats_entry s)
unfolding get_stats_entry
get-Got k init units s used few v = elim (Bool-cases (ltb 0 s.init_unalloc)) [
  | inl fresh ↦ rw fresh (fresh-IsValid k init units s used few (ltb→lt 0 s.init_unalloc fresh) v)
  | inr given ↦ rw given (elim (Bool-cases (is_empty s.ring)) [
    | inl empty ↦ rw empty refl
    | inr some_left ↦
        let first = contents-drop_first k s.ring (2 ^ k) v.ring some_left in
        rw (some_left, v.ring_size)
          (record {
            ring = drop_first-IsValid k s.ring (2 ^ k) v.ring;
            ring_size = refl;
            mem_units = v.mem_units;
            active = v.active;
            entries = v.entries;
            rest = v.rest;
            once = λ j. omega (arith, v.once j, ap (count j) first);
            total = omega (arith, v.total, ap length first);
          })
  ])
]

pub release-IsValid :
    (k init units : ℕ) (s : Stats) (used rest : List ℕ) (id : ℕ)
    → k ≤ 31
    → init * units < 2 ^ k
    → ((j : ℕ) → count j used ≡ count j rest + indicator (id == j))
    → length used ≡ length rest + 1
    → IsValid k init units s used
    → ((release_stats_entry s id).0 ≡ none) × IsValid k init units (release_stats_entry s id).1 rest
unfolding release_stats_entry
release-IsValid k init units s used rest id h room counts shorter v =
    let space = circ_space-contents k s.ring h v.ring in
    let full = ==-no (circ_space s.ring.head s.ring.tail (2 ^ k)) 0 (omega (arith, v.total)) in
    let fits : length (contents (2 ^ k) s.ring) + 1 < 2 ^ k = omega (arith, v.total) in
    let queue = contents-put k s.ring id v.ring fits in
    rw (v.ring_size, full)
      (
        refl,
        record {
          ring = put-IsValid k s.ring id v.ring;
          ring_size = refl;
          mem_units = v.mem_units;
          active = v.active;
          entries = v.entries;
          rest = v.rest;
          once = λ j.
              rw (queue, count-put_last (contents (2 ^ k) s.ring) id j)
                (omega (arith, v.once j, counts j));
          total =
              rw (queue, length-append (contents (2 ^ k) s.ring) (id ∷ []))
                (omega (arith, v.total));
        },
      )

-- Where the identifiers are as many as the ring has entries, and all but one are in the free list,
-- the release of the last one fails and changes nothing.
pub release_full :
    (k init units : ℕ) (s : Stats) (last id : ℕ)
    → k ≤ 31
    → init * units ≡ 2 ^ k
    → s.init_unalloc ≡ 0
    → IsValid k init units s (last ∷ [])
    → release_stats_entry s id ≡ (some enobufs, s)
unfolding release_stats_entry
release_full k init units s last id h all given v =
    let space = circ_space-contents k s.ring h v.ring in
    let none_left : left units s.init_unalloc s.active_mem_unit ≡ 0 =
      ap₂ (λ a b. left units a b) given (v.rest given) ∙ omega arith in
    let full = ==-yes (circ_space s.ring.head s.ring.tail (2 ^ k)) 0 (omega (arith, v.total)) in
    rw (ap (λ n. circ_space s.ring.head s.ring.tail n == 0) v.ring_size ∙ full) refl

pub get_stats_code : (s : Stats) → (get_stats_entry s).0 ≢ err eexist
unfolding get_stats_entry
get_stats_code s = ground arith
