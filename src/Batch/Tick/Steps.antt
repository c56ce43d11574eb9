-- ===== src/Batch/Tick/Steps.antt =====
-- What any order of the steps of a tick's tasks adds to the trace.
use shiroclient_sdk_go.Prelude.{
  ℕ, zero, suc, ◌+◌, List, [], ◌∷◌, ◌++◌, ◌≡◌, refl, sym, ap, ◌∙◌, map, append_assoc, append-nil,
  arith,
}
use mathlib.Core.List.{Perm}
use mathlib.Core.List.Perm
use mathlib.Core.List.Permᴰ
use mathlib.Core.Path.{subst}
use shiroclient_sdk_go.Errors.{Result, ok, err, panic}
use shiroclient_sdk_go.Exec.Laws.{bind-eq-ok}
use shiroclient_sdk_go.Types.{ShiroClient}
use shiroclient_sdk_go.Types.Options.{Ctx}
use shiroclient_sdk_go.Platform.{Platform}
use shiroclient_sdk_go.Batch.Tick.{Codec, Task, Poller, TickState, step_at, step, finish_step, run}
use shiroclient_sdk_go.Batch.Tick.Trace.{
  TickEvent, Progress, env_of, owes, traced_client, traced_poller, task_of, made, Advance,
  step_task-Advance, ok-parts,
}

abbrev pub all_owe : List Progress → ℕ
all_owe [] = 0
all_owe (g ∷ gs) = owes g + all_owe gs

append_right_comm : {A : Type 0} (xs ys zs : List A) → Perm ((xs ++ ys) ++ zs) ((xs ++ zs) ++ ys)
append_right_comm xs ys zs =
    rw (append_assoc xs ys zs, append_assoc xs zs ys)
      (Perm.append_left xs ∣ Permᴰ.append_comm ys zs ∣₁)

module _ (p : Platform) (codec : Codec) (client : ShiroClient) (t : Poller p codec client)
    (ctx : Ctx) where
  -- What the tasks have done, one task after the other.
  abbrev pub all_made : List Progress → List TickEvent
  all_made [] = []
  all_made (g ∷ gs) = made p codec client t ctx g ++ all_made gs

  -- Steps of the tasks: what they add to the trace is, up to the order, what the tasks have done more.
  pub record Advances (gs : List Progress) (tasks : List Task) (before after : List TickEvent)
      : Type 0 where
    pub next : List Progress
    pub new : List TickEvent
    pub stand : tasks ≡ map (task_of p codec client t ctx) next
    pub same : map env_of next ≡ map env_of gs
    pub trace : after ≡ before ++ new
    pub events : Perm (all_made gs ++ new) (all_made next)

  -- A step at an index, with the calls of `wg.Done()` that it makes.
  record StepsAt (gs : List Progress) (tasks : List Task) (dones : ℕ)
      (before after : List TickEvent) : Type 0 where
    moves : Advances gs tasks before after
    owed : all_owe moves.next + dones ≡ all_owe gs

  nothing : (before after : List TickEvent) → after ≡ before → StepsAt [] [] 0 before after
  nothing before after e = record {
    moves = record {
      next = [];
      new = [];
      stand = refl;
      same = refl;
      trace = e ∙ sym (append-nil before);
      events = Perm.refl [];
    };
    owed = omega arith;
  }

  -- The task at the front has moved; one further on has.
  front :
      {g : Progress} {task : Task} {dones : ℕ} {before after : List TickEvent} (gs : List Progress)
      → Advance p codec client t ctx g task dones before after
      → StepsAt (g ∷ gs) (task ∷ map (task_of p codec client t ctx) gs) dones before after
  front {g} gs a = record {
    moves = record {
      next = a.next ∷ gs;
      new = a.new;
      stand = ap (λ task. task ∷ map (task_of p codec client t ctx) gs) a.stands;
      same = ap (λ env. env ∷ map env_of gs) a.same;
      trace = a.trace;
      events = rw a.events (append_right_comm (made p codec client t ctx g) (all_made gs) a.new);
    };
    owed = omega (arith, a.owed);
  }

  behind :
      {gs : List Progress} {tasks : List Task} {dones : ℕ} {before after : List TickEvent}
      (g : Progress)
      → StepsAt gs tasks dones before after
      → StepsAt (g ∷ gs) (task_of p codec client t ctx g ∷ tasks) dones before after
  behind {gs} g a = record {
    moves = record {
      next = g ∷ a.moves.next;
      new = a.moves.new;
      stand = ap (λ tasks. task_of p codec client t ctx g ∷ tasks) a.moves.stand;
      same = ap (λ envs. env_of g ∷ envs) a.moves.same;
      trace = a.moves.trace;
      events =
          rw (append_assoc (made p codec client t ctx g) (all_made gs) a.moves.new)
            (Perm.append_left (made p codec client t ctx g) a.moves.events);
    };
    owed = omega (arith, a.owed);
  }

  ends_at :
      {gs : List Progress} {tasks tasks' : List Task} {dones dones' : ℕ}
      {before after after' : List TickEvent}
      → StepsAt gs tasks dones before after
      → (tasks' ≡ tasks) × (dones' ≡ dones) × (after' ≡ after)
      → StepsAt gs tasks' dones' before after'
  ends_at h (e, d, f) = rw (e, d, f) h

  step_at-StepsAt :
      (i : ℕ) (gs : List Progress) (s u : (traced_client p codec client).State) (tasks : List Task)
      (dones : ℕ)
      → step_at p codec
          (traced_client p codec client)
          (traced_poller p codec client t)
          ctx
          i
          (map (task_of p codec client t ctx) gs)
          s
        ≡ (ok (tasks, dones), u)
      → StepsAt gs tasks dones s.1 u.1
  unfolding step_at
  step_at-StepsAt i [] s u tasks dones h =
      let (e, d, f) = ok-parts h in ends_at (nothing s.1 s.1 refl) (e, d, ap (λ w. w.1) f)
  step_at-StepsAt zero (g ∷ gs) s u tasks dones h =
      let (next, v, e, k) = bind-eq-ok _ _ s h in
      let (et, ed, es) = ok-parts k in
      ends_at (front gs (step_task-Advance p codec client t ctx g s v next.0 next.1 e))
        (et, ed, ap (λ w. w.1) es)
  step_at-StepsAt (suc i) (g ∷ gs) s u tasks dones h =
      let (next, v, e, k) = bind-eq-ok _ _ s h in
      let (et, ed, es) = ok-parts k in
      ends_at (behind g (step_at-StepsAt i gs s v next.0 next.1 e)) (et, ed, ap (λ w. w.1) es)

  abbrev pub TickOver : Type 0
  TickOver = TickState p codec (traced_client p codec client)

  -- The same for a whole schedule; the counter stays the number of calls of `wg.Done()` to come.
  pub record Runs (gs : List Progress) (before : List TickEvent) (st : TickOver) : Type 0 where
    pub moves : Advances gs st.tasks before st.state.1
    pub counts : st.wait_count ≡ all_owe moves.next

  finish_step-Runs :
      (gs : List Progress) (st st' : TickOver) (r : Result (List Task × ℕ))
      (u : (traced_client p codec client).State)
      → st.wait_count ≡ all_owe gs
      → ((tasks : List Task)
          → (dones : ℕ) → r ≡ ok (tasks, dones)
          → StepsAt gs tasks dones st.state.1 u.1)
      → finish_step p codec (traced_client p codec client) st r u ≡ (ok tt, st')
      → Runs gs st.state.1 st'
  finish_step-Runs gs st st' (ok next) u counts h e =
      let a = h next.0 next.1 refl in
      subst (λ x. Runs gs st.state.1 x) (ap (λ x. x.1) e)
        (record { moves = a.moves; counts = omega (arith, a.owed, counts) })
  finish_step-Runs gs st st' (err x) u counts h e = cc
  finish_step-Runs gs st st' (panic x) u counts h e = cc

  step-Runs :
      (i : ℕ) (gs : List Progress) (st st' : TickOver)
      → st.tasks ≡ map (task_of p codec client t ctx) gs
      → st.wait_count ≡ all_owe gs
      → step p codec (traced_client p codec client) (traced_poller p codec client t) ctx i st
        ≡ (ok tt, st')
      → Runs gs st.state.1 st'
  unfolding step
  step-Runs i gs st st' stand counts h =
      let at =
        step_at p codec (traced_client p codec client) (traced_poller p codec client t) ctx i
          st.tasks st.state in
      finish_step-Runs gs st st' at.0 at.1 counts
        (λ tasks dones e. step_at-StepsAt i gs st.state at.1 tasks dones (
          sym (
            ap
              (λ tasks.
                step_at p codec (traced_client p codec client) (traced_poller p codec client t) ctx
                  i tasks st.state)
              stand)
          ∙ ap (λ r. (r, at.1)) e))
        h

  -- Two runs, one after the other.
  both :
      (gs : List Progress) (before : List TickEvent) (st st' : TickOver)
      → (a : Runs gs before st) → Runs a.moves.next st.state.1 st'
      → Runs gs before st'
  both gs before st st' a b = record {
    moves = record {
      next = b.moves.next;
      new = a.moves.new ++ b.moves.new;
      stand = b.moves.stand;
      same = b.moves.same ∙ a.moves.same;
      trace =
          b.moves.trace
          ∙ ap (λ es. es ++ b.moves.new) a.moves.trace
          ∙ append_assoc before a.moves.new b.moves.new;
      events =
          rw (sym (append_assoc (all_made gs) a.moves.new b.moves.new))
            (Perm.trans (Perm.append_right b.moves.new a.moves.events) b.moves.events);
    };
    counts = b.counts;
  }

  stay :
      (gs : List Progress) (st : TickOver)
      → st.tasks ≡ map (task_of p codec client t ctx) gs
      → st.wait_count ≡ all_owe gs
      → Runs gs st.state.1 st
  stay gs st stand counts = record {
    moves = record {
      next = gs;
      new = [];
      stand = stand;
      same = refl;
      trace = sym (append-nil st.state.1);
      events = rw (append-nil (all_made gs)) (Perm.refl (all_made gs));
    };
    counts = counts;
  }

  pub run-Runs :
      (schedule : List ℕ) (gs : List Progress) (st st' : TickOver)
      → st.tasks ≡ map (task_of p codec client t ctx) gs
      → st.wait_count ≡ all_owe gs
      → run p codec (traced_client p codec client) (traced_poller p codec client t) ctx schedule st
        ≡ (ok tt, st')
      → Runs gs st.state.1 st'
  unfolding run
  run-Runs [] gs st st' stand counts h =
      subst (λ x. Runs gs st.state.1 x) (ap (λ x. x.1) h) (stay gs st stand counts)
  run-Runs (i ∷ schedule) gs st st' stand counts h =
      let (x, mid, e, k) = bind-eq-ok _ _ st h in
      let a = step-Runs i gs st mid stand counts e in
      both gs st.state.1 mid st' a (run-Runs schedule a.moves.next mid st' a.moves.stand a.counts k)
