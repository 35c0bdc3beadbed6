-- ===== src/Jit/Translate/Fits.antt =====
-- The translation of instructions of arithmetic and jumps (src/bpf/jit.c) stays in its buffer, and
-- ends early only where a callback records an error.
use nfp_drv_kmods.Base.{
  ℕ, ◌/◌, ◌^◌, ◌<◌, ◌≤◌, ◌≡◌, refl, ap, none, some, Option-cases, inl, inr, List, [], ◌∷◌, ◌++◌,
  length, Errno, Result, ok, err, arith,
}
use nfp_drv_kmods.Jit.Prog.{Prog}
use nfp_drv_kmods.Jit.Wrap.{Meta}
use nfp_drv_kmods.Jit.Shift.Labels.{Grows, Lands}
use nfp_drv_kmods.Jit.Alu.Grow.{Grows-then}
use nfp_drv_kmods.Jit.Translate.{Callback, call, report, checked, translate}
use nfp_drv_kmods.Jit.Translate.Lands.{Callable, call-Lands}

abbrev pub AllCallable : List (Callback × Meta) → Type 0
AllCallable [] = 0 < 1
AllCallable (m ∷ metas) = Callable m.0 m.1 × AllCallable metas

-- The callbacks of the instructions in turn, each of which returns 0 and records no error.
pub data Runs : Prog → List (Callback × Meta) → Prog → Type 0 where
  no_more : (p : Prog) → Runs p [] p
  one_more :
      {p q r : Prog} {m : Callback × Meta} {metas : List (Callback × Meta)}
      → call m.0 p m.1 ≡ ok q
      → q.error ≡ none
      → Runs q metas r
      → Runs p (m ∷ metas) r

-- The loop ends at the instruction `culprit`: those before it record no error, and its callback
-- returns 0 and leaves the error `e` in a program that has only grown.
pub record Stopped (p : Prog) (metas : List (Callback × Meta)) (e : Errno) : Type 0 where
  pub before : List (Callback × Meta)
  pub culprit : Callback × Meta
  pub others : List (Callback × Meta)
  pub split : metas ≡ before ++ (culprit ∷ others)
  pub reached : Prog
  pub after_call : Prog
  pub runs : Runs p before reached
  pub calls : call culprit.0 reached culprit.1 ≡ ok after_call
  pub noted : after_call.error ≡ some e
  pub grown : Grows p after_call

-- All callbacks have run, and the program grew in its buffer without an error; or one has recorded
-- the error that is returned.
abbrev pub Translated : Prog → List (Callback × Meta) → Result Prog → Type 0
Translated p metas (ok q) =
    Runs p metas q
    × (q.error ≡ none)
    × (length p.prog ≤ length q.prog)
    × (length q.prog ≤ p.alloc_len / 8)
Translated p metas (err e) = Stopped p metas e

Translated-before :
    (m : Callback × Meta) (metas : List (Callback × Meta)) (p q : Prog) (r : Result Prog)
    → call m.0 p m.1 ≡ ok q
    → Grows p q
    → q.error ≡ none
    → Translated q metas r
    → Translated p (m ∷ metas) r
Translated-before m metas p q (ok s) is (n, g) clean (runs, e, longer, fits) = (
  one_more is clean runs,
  e,
  omega (arith, g.adds clean),
  omega (arith, ap (λ (t : ℕ). t / 8) g.keeps),
)
Translated-before m metas p q (err e) is g clean stopped = record {
  before = m ∷ stopped.before;
  culprit = stopped.culprit;
  others = stopped.others;
  split = ap (λ rest. m ∷ rest) stopped.split;
  reached = stopped.reached;
  after_call = stopped.after_call;
  runs = one_more is clean stopped.runs;
  calls = stopped.calls;
  noted = stopped.noted;
  grown = Grows-then g stopped.grown;
}

after-Translated :
    (m : Callback × Meta) (metas : List (Callback × Meta)) (p : Prog) (r : Result Prog)
    (rest : Prog → Result Prog)
    → call m.0 p m.1 ≡ r
    → Lands p r
    → ((q : Prog) → Grows p q → q.error ≡ none → Translated q metas (rest q))
    → Translated p (m ∷ metas) (checked r (λ q. checked (report q q.error) rest))
unfolding checked report
after-Translated m metas p (err e) rest is lands h = elim lands [ ]
after-Translated m metas p (ok q) rest is grown h = elim (Option-cases q.error) [
  | inl clean ↦ simp clean (Translated-before m metas p q (rest q) is grown clean (h q grown clean))
  | inr (e, found) ↦ simp found (record {
    before = [];
    culprit = m;
    others = metas;
    split = refl;
    reached = p;
    after_call = q;
    runs = no_more p;
    calls = is;
    noted = found;
    grown = grown;
  })
]

-- From a program without an error, in a buffer of less than 2^16 instructions, and with comparisons
-- that the table of the jumps has, the loop of nfp_translate over instructions of arithmetic and
-- jumps either runs the callback of each of them in turn, and ends with a program without an error
-- that is at least as long and fits in the buffer; or it ends at an instruction whose callback
-- returned 0 and recorded the error that is returned, when those before it had recorded none.
pub translate-Translated :
    (metas : List (Callback × Meta)) (p : Prog)
    → p.error ≡ none
    → p.alloc_len / 8 < 2 ^ 16
    → length p.prog ≤ p.alloc_len / 8
    → AllCallable metas
    → Translated p metas (translate p metas)
unfolding translate
translate-Translated [] p clean small room h = (no_more p, clean, omega arith, room)
translate-Translated (m ∷ metas) p clean small room (here, there) =
    after-Translated m metas p (call m.0 p m.1) (λ q. translate q metas) refl
      (call-Lands m.0 p m.1 small room here)
      (λ q grown none_found.
        let keeps = ap (λ (t : ℕ). t / 8) (grown.1).keeps in
        translate-Translated metas q none_found (omega (arith, keeps)) ((grown.1).fits room) there)
