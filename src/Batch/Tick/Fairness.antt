-- ===== src/Batch/Tick/Fairness.antt =====
-- shiroclient/batch/batch.go: under a fair schedule `Tick` returns.
use shiroclient_sdk_go.Prelude.{
  ℕ, zero, suc, ◌+◌, ◌-◌, ◌≤◌, ◌<◌, List, [], ◌∷◌, ◌≡◌, refl, sym, ◌∙◌, length, arith, same, count,
}
use native.Mathlib.Decide.{dec_lt}
use shiroclient_sdk_go.Errors.{Result, ok}
use shiroclient_sdk_go.Exec.{◌>>=◌}
use shiroclient_sdk_go.Types.{ShiroClient}
use shiroclient_sdk_go.Types.Options.{Ctx}
use shiroclient_sdk_go.Platform.{Platform}
use shiroclient_sdk_go.Batch.Driver.{RequestEnvelope}
use shiroclient_sdk_go.Batch.Tick.Trace.{traced_client, traced_poller}
use shiroclient_sdk_go.Batch.Tick.Answers.{Ticked}
use shiroclient_sdk_go.Batch.Tick.Returns.{tick-Ticked}
use shiroclient_sdk_go.Batch.Tick.{
  Status, Codec, Task, Poller, TickState, tick_tasks, tick_start, step_task, step_at, step, run,
  tick, returned, wait, finish_tasks,
}
use shiroclient_sdk_go.Batch.Tick.Left.{
  task_left, all_dones, left_at, same-suc, same-first, same-last, left_at-zero, waiting-dones,
  left_at-waiting, left_at-beyond, NeverPanics, Steps, step_task-Steps,
}

module _ (p : Platform) (codec : Codec) (client : ShiroClient) (t : Poller p codec client)
    (ctx : Ctx) (calm : NeverPanics client) where
  -- A step at an index takes one from the task there, and nothing from the others.
  record StepsAt (i : ℕ) (tasks : List Task) (out : Result (List Task × ℕ)) : Type 0 where
    next : List Task
    dones : ℕ
    goes : out ≡ ok (next, dones)
    left : (j : ℕ) → left_at j next ≡ left_at j tasks - same j i
    owed : all_dones next + dones ≡ all_dones tasks

  front_left :
      (j : ℕ) (task next : Task) (tasks : List Task)
      → task_left next ≡ task_left task - 1
      → left_at j (next ∷ tasks) ≡ left_at j (task ∷ tasks) - same j 0
  front_left zero task next tasks h = omega (arith, h)
  front_left (suc j) task next tasks h = omega (arith, same-last j)

  behind_left :
      (i j : ℕ) (task : Task) (tasks next : List Task)
      → ((j : ℕ) → left_at j next ≡ left_at j tasks - same j i)
      → left_at j (task ∷ next) ≡ left_at j (task ∷ tasks) - same j (suc i)
  behind_left i zero task tasks next h = omega (arith, same-first i)
  behind_left i (suc j) task tasks next h = omega (arith, h j, same-suc j i)

  front-StepsAt :
      (task : Task) (tasks : List Task) (s : client.State)
      → Steps p codec client t ctx calm task (step_task p codec client t ctx task s).0
      → StepsAt zero (task ∷ tasks) (step_at p codec client t ctx zero (task ∷ tasks) s).0
  unfolding step_at ◌>>=◌
  front-StepsAt task tasks s a = record {
    next = a.next ∷ tasks;
    dones = a.dones;
    goes = rw a.goes refl;
    left = λ j. front_left j task a.next tasks a.left;
    owed = omega (arith, a.owed);
  }

  behind-StepsAt :
      (i : ℕ) (task : Task) (tasks : List Task) (s : client.State)
      → StepsAt i tasks (step_at p codec client t ctx i tasks s).0
      → StepsAt (suc i) (task ∷ tasks) (step_at p codec client t ctx (suc i) (task ∷ tasks) s).0
  unfolding step_at ◌>>=◌
  behind-StepsAt i task tasks s a = record {
    next = task ∷ a.next;
    dones = a.dones;
    goes = rw a.goes refl;
    left = λ j. behind_left i j task tasks a.next a.left;
    owed = omega (arith, a.owed);
  }

  step_at-StepsAt :
      (i : ℕ) (tasks : List Task) (s : client.State)
      → StepsAt i tasks (step_at p codec client t ctx i tasks s).0
  unfolding step_at
  step_at-StepsAt i [] s = record {
    next = [];
    dones = 0;
    goes = refl;
    left = λ j. omega arith;
    owed = refl;
  }
  step_at-StepsAt zero (task ∷ tasks) s =
      front-StepsAt task tasks s (step_task-Steps p codec client t ctx calm task s)
  step_at-StepsAt (suc i) (task ∷ tasks) s =
      behind-StepsAt i task tasks s (step_at-StepsAt i tasks s)

  abbrev StateOver : Type 0
  StateOver = TickState p codec client

  -- A schedule goes through, and takes from each task as many steps as it gives to it; the counter
  -- stays the number of calls of `wg.Done()` to come.
  record Goes (st st' : StateOver) (taken : ℕ → ℕ) : Type 0 where
    left : (j : ℕ) → left_at j st'.tasks ≡ left_at j st.tasks - taken j
    counts : st'.wait_count ≡ all_dones st'.tasks

  step-Goes :
      (i : ℕ) (st : StateOver)
      → st.wait_count ≡ all_dones st.tasks
      → ((step p codec client t ctx i st).0 ≡ ok tt)
        × Goes st (step p codec client t ctx i st).1 (λ j. same j i)
  unfolding step
  step-Goes i st h =
      let a = step_at-StepsAt i st.tasks st.state in
      (rw a.goes refl, rw a.goes (record { left = a.left; counts = omega (arith, h, a.owed) }))

  run-Goes :
      (schedule : List ℕ) (st : StateOver)
      → st.wait_count ≡ all_dones st.tasks
      → ((run p codec client t ctx schedule st).0 ≡ ok tt)
        × Goes st (run p codec client t ctx schedule st).1 (λ j. count j schedule)
  unfolding run ◌>>=◌
  run-Goes [] st h = (refl, record { left = λ j. omega arith; counts = h })
  run-Goes (i ∷ schedule) st h =
      let (ran, one) = step-Goes i st h in
      let (rest, more) = run-Goes schedule (step p codec client t ctx i st).1 one.counts in
      (
        rw ran rest,
        rw ran
            (record { left = λ j. omega (arith, one.left j, more.left j); counts = more.counts }),
      )

  wait-zero : (n : ℕ) → n ≡ 0 → wait p codec client (ok tt) n ≡ ok returned
  wait-zero n h = rw h refl

  tasks-return :
      (envs : List RequestEnvelope) (v : client.State) (schedule : List ℕ)
      → ((i : ℕ) → i < length envs → 2 ≤ count i schedule)
      → (finish_tasks p codec client t ctx schedule envs v).0 ≡ ok returned
  tasks-return envs v schedule fair =
      let (ran, goes) =
        run-Goes schedule (tick_tasks p codec client envs v) (sym (waiting-dones envs)) in
      let st = (run p codec client t ctx schedule (tick_tasks p codec client envs v)).1 in
      let none_left : (i : ℕ) → left_at i st.tasks ≡ 0 = λ i. elim (dec_lt i (length envs)) [
        | yes lt ↦ omega (arith, fair i lt, left_at-waiting envs i, goes.left i)
        | no ge ↦ omega (arith, ge, left_at-beyond envs i (omega (arith, ge)), goes.left i)
      ] in
      rw ran (wait-zero st.wait_count (goes.counts ∙ left_at-zero st.tasks none_left))

  -- If no call panics, two steps for each task are enough.
  fair_tick-returns :
      (envs : List RequestEnvelope) (s v : client.State) (schedule : List ℕ)
      → tick_start p codec client t ctx s ≡ (ok envs, v)
      → ((i : ℕ) → i < length envs → 2 ≤ count i schedule)
      → (tick p codec client t ctx schedule s).0 ≡ ok returned
  unfolding tick ◌>>=◌
  fair_tick-returns envs s v schedule starts fair = rw starts (tasks-return envs v schedule fair)

module _ (p : Platform) (codec : Codec) (client : ShiroClient) (t : Poller p codec client)
    (ctx : Ctx) where
  -- If no call of the client panics, and the schedule gives each task that the poll starts at least two
  -- steps, in whatever order and with whatever steps besides, then `Tick` returns, and the trace that it
  -- leaves has one poll, and for each request that got a task one run of the callback and one call that
  -- answers the request with what the callback returned.
  pub fair_tick-Ticked :
      (s v : (traced_client p codec client).State) (envs : List RequestEnvelope) (schedule : List ℕ)
      → NeverPanics client
      → tick_start p codec (traced_client p codec client) (traced_poller p codec client t) ctx s
        ≡ (ok envs, v)
      → ((i : ℕ) → i < length envs → 2 ≤ count i schedule)
      → (u : (traced_client p codec client).State) × (tick p codec
            (traced_client p codec client)
            (traced_poller p codec client t)
            ctx
            schedule
            s
          ≡ (ok returned, u))
        × Ticked p codec client t ctx s u
  fair_tick-Ticked s v envs schedule calm starts fair =
      let run =
        tick p codec (traced_client p codec client) (traced_poller p codec client t) ctx schedule
          s in
      let returns =
        fair_tick-returns p codec (traced_client p codec client) (traced_poller p codec client t)
          ctx (λ ctx method configs s text. calm ctx method configs s.0 text) envs s v schedule
          starts fair in
      let all_done : ◌≡◌ {A = Result Status × (traced_client p codec client).State} run
          (ok returned, run.1) =
        λ i. (returns i, run.1) in
      (run.1, all_done, tick-Ticked p codec client t ctx schedule s run.1 all_done)
