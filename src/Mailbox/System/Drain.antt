-- ===== src/Mailbox/System/Drain.antt =====
-- The runners of the mailbox (src/ccm_mbox.c) do every message that is in its queue.
use mathlib.Core.Path.{subst}
use nfp_drv_kmods.Base.{
  ℕ, zero, suc, ◌+◌, ◌<◌, ◌≡◌, refl, ap, ◌∙◌, inl, inr, true, false, ◌==◌, ==-yes, Bool-cases,
  Option, some, List, [], ◌∷◌, ◌++◌, length, ltb, arith, ◌⊎◌,
}
use nfp_drv_kmods.Mailbox.{Skb, Caps, simple_val}
use nfp_drv_kmods.Mailbox.Queue.{is_first, batch_limit, choose_batch, extend_batch}
use nfp_drv_kmods.Mailbox.System.{
  Owner, nobody, posting, runner, System, first_id, first_runs, run_queue, last_of, on_wake,
  post_runq_work, find, is_running, Step, send, send_posted, wake, work, end, Reaches, start,
}
use nfp_drv_kmods.Mailbox.System.Done.{HasId, Moved, Moved-then}
use nfp_drv_kmods.Mailbox.System.Invariant.{Idle, Owned, Inv, end_batch-Ended}
use nfp_drv_kmods.Mailbox.System.Reach.{
  first_runs-Owned, last_of-Batch, wake-Inv, work-Inv, Reaches-Inv,
}
use nfp_drv_kmods.Mailbox.System.Quiet.{start-Inv}

-- A step of a runner: its thread wakes with its message at the head, its work runs, or its batch
-- ends with what the mailbox answers.
abbrev pub IsRun :
    {caps : Caps} {s t : System} (answer : System → Option (ℕ → ℕ)) → Step caps s t → Type 0
IsRun answer (send s t skb type critical fresh e p is) = ⊥
IsRun answer (send_posted s t skb type free fresh e is) = ⊥
IsRun answer (wake s id skb e p free) = is_first s.mbox.queue id ≡ true
IsRun answer (work s w) = Unit
IsRun answer (end s last bar m is e) = bar ≡ answer s

pub data Runs (caps : Caps) (answer : System → Option (ℕ → ℕ)) : System → System → Type 0 where
  done : (s : System) → Runs caps answer s s
  run :
      {s t u : System} (step : Step caps s t)
      → IsRun answer step
      → Runs caps answer t u
      → Runs caps answer s u

-- The runners empty the queue: the messages that were done since have the state DONE, they are as
-- many as there were in the queue, and each message that was in the queue is one of them.
pub record Drained (caps : Caps) (answer : System → Option (ℕ → ℕ)) (s : System) : Type 0 where
  pub last : System
  pub runs : Runs caps answer s last
  pub empty : last.mbox.queue ≡ []
  pub all : length last.mbox.finished_skbs ≡ length s.mbox.finished_skbs + length s.mbox.queue
  pub moved : Moved s.mbox.queue s.mbox.finished_skbs [] last.mbox.finished_skbs

-- The mailbox is taken by a runner, for the same messages.
record Started (s t : System) : Type 0 where
  owned : (last : ℕ) × (last_of t ≡ some last)
  queued : length t.mbox.queue ≡ length s.mbox.queue
  ids : (x : ℕ) → HasId x s.mbox.queue → HasId x t.mbox.queue
  finished : t.mbox.finished_skbs ≡ s.mbox.finished_skbs

length-extend_batch :
    (total used cnt last : ℕ) (queue : List Skb)
    → length (extend_batch total used cnt last queue).0 ≡ length queue
unfolding extend_batch
length-extend_batch total used cnt last [] = refl
length-extend_batch total used cnt last (skb ∷ queue) =
    let used' = used + (4 + skb.max_len) in
    elim (Bool-cases (ltb total (used + (4 + skb.max_len)))) [
      | inl e ↦ rw e refl
      | inr e ↦ rw e (elim (Bool-cases (cnt + 1 == batch_limit)) [
        | inl e' ↦ rw e' refl
        | inr e' ↦ rw e' (ap suc (length-extend_batch total used' (cnt + 1) skb.id queue))
      ])
    ]

length-choose_batch :
    (caps : Caps) (queue : List Skb) → length (choose_batch caps queue).0 ≡ length queue
unfolding choose_batch
length-choose_batch caps [] = refl
length-choose_batch caps (skb ∷ queue) =
    ap suc (length-extend_batch caps.mbox_len (simple_val + 4 + (4 + skb.max_len)) 1 skb.id queue)

HasId-behind :
    (x : ℕ) (skb : Skb) (queue queue' : List Skb)
    → (HasId x queue → HasId x queue')
    → HasId x (skb ∷ queue)
    → HasId x (skb ∷ queue')
HasId-behind x skb queue queue' h (inl is) = inl is
HasId-behind x skb queue queue' h (inr there) = inr (h there)

HasId-extend_batch :
    (total used cnt last x : ℕ) (queue : List Skb)
    → HasId x queue
    → HasId x (extend_batch total used cnt last queue).0
unfolding extend_batch
HasId-extend_batch total used cnt last x [] h = h
HasId-extend_batch total used cnt last x (skb ∷ queue) h =
    let used' = used + (4 + skb.max_len) in
    elim (Bool-cases (ltb total (used + (4 + skb.max_len)))) [
      | inl e ↦ rw e h
      | inr e ↦ rw e (elim (Bool-cases (cnt + 1 == batch_limit)) [
        | inl e' ↦ rw e' h
        | inr e' ↦
            rw e' (
              HasId-behind x skb queue _ (HasId-extend_batch total used' (cnt + 1) skb.id x queue)
                h)
      ])
    ]

HasId-choose_batch :
    (caps : Caps) (x : ℕ) (queue : List Skb) → HasId x queue → HasId x (choose_batch caps queue).0
unfolding choose_batch
HasId-choose_batch caps x [] h = h
HasId-choose_batch caps x (skb ∷ queue) h =
    HasId-behind x skb queue _
      (HasId-extend_batch caps.mbox_len (simple_val + 4 + (4 + skb.max_len)) 1 skb.id x queue) h

run_queue-Started : (caps : Caps) (s : System) → Started s (run_queue caps s)
unfolding run_queue
run_queue-Started caps s = record {
  owned = ((choose_batch caps s.mbox.queue).1, refl);
  queued = length-choose_batch caps s.mbox.queue;
  ids = λ x h. HasId-choose_batch caps x s.mbox.queue h;
  finished = refl;
}

work-Started :
    (caps : Caps) (s : System) → first_runs s.mbox.queue ≡ true → Started s (post_runq_work caps s)
unfolding post_runq_work run_queue
work-Started caps s runs = rw runs (record {
  owned = ((choose_batch caps s.mbox.queue).1, refl);
  queued = length-choose_batch caps s.mbox.queue;
  ids = λ x h. HasId-choose_batch caps x s.mbox.queue h;
  finished = refl;
})

wake-Started :
    (caps : Caps) (s : System) (skb : Skb)
    → is_first s.mbox.queue skb.id ≡ true
    → Started s (on_wake caps s skb)
unfolding on_wake
wake-Started caps s skb first = rw first (run_queue-Started caps s)

-- Where fewer messages than `n` are left, the runners do them.
abbrev Drains : Caps → (System → Option (ℕ → ℕ)) → ℕ → Type 0
Drains caps answer n = (s : System) → Inv s → length s.mbox.queue < n → Drained caps answer s

Owned-Drained :
    (caps : Caps) (answer : System → Option (ℕ → ℕ)) (n last : ℕ) (s : System)
    → Drains caps answer n
    → Inv s
    → last_of s ≡ some last
    → length s.mbox.queue < suc n
    → Drained caps answer s
Owned-Drained caps answer n last s drains inv is small =
    let (b, idle) = last_of-Batch s.owner s.mbox.queue s.mbox.runq_work last inv.owned is in
    let (m, e, ended) = end_batch-Ended (answer s) caps last s.mbox b inv.distinct idle in
    let t : System = record { mbox = m; owner = nobody } in
    let more = drains t ended.inv (omega (arith, ended.less, small)) in
    record {
      last = more.last;
      runs = run (end s last (answer s) m is e) refl more.runs;
      empty = more.empty;
      all = omega (arith, more.all, ended.kept);
      moved =
          Moved-then s.mbox.queue s.mbox.finished_skbs m.queue m.finished_skbs []
            more.last.mbox.finished_skbs ended.moved more.moved;
    }

Started-Drained :
    (caps : Caps) (answer : System → Option (ℕ → ℕ)) (n : ℕ) (s t : System)
    → Drains caps answer n
    → (step : Step caps s t) → IsRun answer step
    → Inv t
    → Started s t
    → length s.mbox.queue < suc n
    → Drained caps answer s
Started-Drained caps answer n s t drains step is_run inv started small =
    let (last, is) = started.owned in
    let more =
      Owned-Drained caps answer n last t drains inv is (omega (arith, started.queued, small)) in
    record {
      last = more.last;
      runs = run step is_run more.runs;
      empty = more.empty;
      all = omega (arith, more.all, started.queued, ap length started.finished);
      moved = record {
        news = more.moved.news;
        split = more.moved.split ∙ ap (λ xs. more.moved.news ++ xs) started.finished;
        all = more.moved.all;
        covers = λ x h. more.moved.covers x (started.ids x h);
      };
    }

find-first : (skb : Skb) (rest : List Skb) → find skb.id (skb ∷ rest) ≡ some skb
unfolding find
find-first skb rest = rw (==-yes skb.id skb.id refl) refl

-- Nobody owns the mailbox: the first message is posted and its work runs, or its thread wakes.
Idle-Drained :
    (caps : Caps) (answer : System → Option (ℕ → ℕ)) (n : ℕ) (s : System) (skb : Skb)
    (rest : List Skb)
    → Drains caps answer n
    → Inv s
    → s.owner ≡ nobody
    → s.mbox.queue ≡ skb ∷ rest
    → length s.mbox.queue < suc n
    → Drained caps answer s
Idle-Drained caps answer n s skb rest drains inv free is small =
    let idle : Idle (skb ∷ rest) s.mbox.runq_work =
      subst (λ o. Owned o (skb ∷ rest) s.mbox.runq_work) free
        (subst (λ q. Owned s.owner q s.mbox.runq_work) is inv.owned) in
    elim (Bool-cases skb.posted) [
      | inl p ↦
          let w : s.mbox.runq_work ≡ true = idle.2 ∙ p in
          let runs = (first_runs-Owned s.owner s.mbox.queue s.mbox.runq_work inv.owned w).0 in
          Started-Drained caps answer n s (post_runq_work caps s) drains (work s w) tt
            (work-Inv caps s inv w) (work-Started caps s runs) small
      | inr p ↦
          let e : find skb.id s.mbox.queue ≡ some skb = ap (find skb.id) is ∙ find-first skb rest in
          let first : is_first s.mbox.queue skb.id ≡ true =
            ap (λ q. is_first q skb.id) is ∙ ==-yes skb.id skb.id refl in
          let not_running : is_running s skb.id ≡ false = rw free refl in
          Started-Drained caps answer n s (on_wake caps s skb) drains
            (wake s skb.id skb e p not_running) first
            (wake-Inv caps s skb.id skb inv e p not_running) (wake-Started caps s skb first) small
    ]

Moved-none : (skbs : List Skb) → Moved [] skbs [] skbs
Moved-none skbs = record { news = []; split = refl; all = tt; covers = λ x h. absurd h }

queue-cases :
    (queue : List Skb) → (queue ≡ []) ⊎ ((skb : Skb) × (rest : List Skb) × (queue ≡ skb ∷ rest))
queue-cases [] = inl refl
queue-cases (skb ∷ rest) = inr (skb, rest, refl)

owner-cases : (s : System) → (s.owner ≡ nobody) ⊎ ((last : ℕ) × (last_of s ≡ some last))
owner-cases s = go s.owner refl
  where
    go :
        (owner : Owner)
        → s.owner ≡ owner
        → (s.owner ≡ nobody) ⊎ ((last : ℕ) × (last_of s ≡ some last))
    go nobody e = inl e
    go posting e = inr (first_id s.mbox.queue, (rw e refl))
    go (runner last) e = inr (last, (rw e refl))

Inv-Drains : (caps : Caps) (answer : System → Option (ℕ → ℕ)) (n : ℕ) → Drains caps answer n
Inv-Drains caps answer zero s inv small = let no : ⊥ = omega arith in absurd no
Inv-Drains caps answer (suc n) s inv small =
    let drains = Inv-Drains caps answer n in
    elim (queue-cases s.mbox.queue) [
      | inl empty ↦ record {
        last = s;
        runs = done s;
        empty = empty;
        all = rw empty (omega arith);
        moved = rw empty (Moved-none s.mbox.finished_skbs);
      }
      | inr (skb, rest, is) ↦ elim (owner-cases s) [
        | inl free ↦ Idle-Drained caps answer n s skb rest drains inv free is small
        | inr (last, is_last) ↦ Owned-Drained caps answer n last s drains inv is_last small
      ]
    ]

-- From every state that is reached from the mailbox of `nfp_ccm_mbox_alloc`, and with every answer
-- that the mailbox gives to a batch, a content of the BAR or an error, there are steps of runners
-- only, in which no message is sent and no thread gives up, after which the queue is empty. What was
-- added to the messages that are done is as many as were in the queue, has the state DONE, and for
-- each message that was in the queue there is one with its identifier.
pub Reaches-Drained :
    (caps : Caps) (s : System) (answer : System → Option (ℕ → ℕ))
    → Reaches caps start s
    → Drained caps answer s
Reaches-Drained caps s answer steps =
    Inv-Drains caps answer (suc (length s.mbox.queue)) s (Reaches-Inv caps start s steps start-Inv)
      (omega arith)
