-- ===== src/Batch/Tick/Left.antt =====
-- The steps that the tasks of a tick have left.
use shiroclient_sdk_go.Prelude.{
  ℕ, zero, suc, ◌+◌, ◌-◌, ◌≤◌, String, List, [], ◌∷◌, ◌≡◌, ◌≢◌, refl, map, length, arith, same,
}
use shiroclient_sdk_go.Errors.{Result, ok, err, panic}
use shiroclient_sdk_go.Exec.{pure, continue, ◌>>=◌}
use shiroclient_sdk_go.Types.{ShiroClient}
use shiroclient_sdk_go.Types.Options.{Ctx, Config}
use shiroclient_sdk_go.Types.Response.{ShiroResponse, success_response, failure_response}
use shiroclient_sdk_go.Platform.{Platform}
use shiroclient_sdk_go.Batch.Driver.{RequestEnvelope, ResponseEnvelope, call, result_or_nil}
use shiroclient_sdk_go.Batch.Tick.{Codec, Task, waiting, answered, done, Poller, step_task, send}

-- The steps that a task has left, and the calls of `wg.Done()`.
abbrev pub task_left : Task → ℕ
task_left (waiting env) = 2
task_left (answered r) = 1
task_left done = 0

abbrev dones_left : Task → ℕ
dones_left (waiting env) = 1
dones_left (answered r) = 1
dones_left done = 0

abbrev pub all_dones : List Task → ℕ
all_dones [] = 0
all_dones (task ∷ tasks) = dones_left task + all_dones tasks

dones-task_left : (task : Task) → task_left task ≡ 0 → dones_left task ≡ 0
dones-task_left (waiting env) h = omega (arith, h)
dones-task_left (answered r) h = omega (arith, h)
dones-task_left done h = refl

-- The steps that the task at an index has left; none, if there is no such task.
abbrev pub left_at : ℕ → List Task → ℕ
left_at i [] = 0
left_at zero (task ∷ tasks) = task_left task
left_at (suc i) (task ∷ tasks) = left_at i tasks

pub same-suc : (i j : ℕ) → same (suc i) (suc j) ≡ same i j
same-suc i j = ground arith

pub same-first : (i : ℕ) → same 0 (suc i) ≡ 0
same-first i = ground arith

pub same-last : (i : ℕ) → same (suc i) 0 ≡ 0
same-last i = ground arith

pub left_at-zero : (tasks : List Task) → ((i : ℕ) → left_at i tasks ≡ 0) → all_dones tasks ≡ 0
left_at-zero [] h = refl
left_at-zero (task ∷ tasks) h =
    omega (arith, dones-task_left task (h 0), left_at-zero tasks (λ i. h (suc i)))

pub waiting-dones : (envs : List RequestEnvelope) → all_dones (map waiting envs) ≡ length envs
waiting-dones [] = refl
waiting-dones (env ∷ envs) = omega (arith, waiting-dones envs)

pub left_at-waiting : (envs : List RequestEnvelope) (i : ℕ) → left_at i (map waiting envs) ≤ 2
left_at-waiting [] i = omega arith
left_at-waiting (env ∷ envs) zero = omega arith
left_at-waiting (env ∷ envs) (suc i) = left_at-waiting envs i

pub left_at-beyond :
    (envs : List RequestEnvelope) (i : ℕ) → length envs ≤ i → left_at i (map waiting envs) ≡ 0
left_at-beyond [] i h = refl
left_at-beyond (env ∷ envs) zero h = omega (arith, h)
left_at-beyond (env ∷ envs) (suc i) h = left_at-beyond envs i (omega (arith, h))

-- No call of the client panics.
abbrev pub NeverPanics : ShiroClient → Type 0
NeverPanics client =
    (ctx : Ctx) (method : String) (configs : List Config) (s : client.State) (text : String)
    → (client.call ctx method configs s).0 ≢ panic text

module _ (p : Platform) (codec : Codec) (client : ShiroClient) (t : Poller p codec client)
    (ctx : Ctx) (calm : NeverPanics client) where
  -- A step of a task goes through: it takes one from what the task has left.
  pub record Steps (task : Task) (out : Result (Task × ℕ)) : Type 0 where
    pub next : Task
    pub dones : ℕ
    pub goes : out ≡ ok (next, dones)
    pub left : task_left next ≡ task_left task - 1
    pub owed : dones_left next + dones ≡ dones_left task

  sent-Steps :
      (r : ResponseEnvelope) (out : Result ShiroResponse) (s : client.State)
      → ((text : String) → out ≢ panic text)
      → Steps
          (answered r)
          (continue {B = Task × ℕ} (result_or_nil out) (λ result. pure (done, 1)) s).0
  unfolding result_or_nil
  sent-Steps r (ok (success_response b)) s h = record {
    next = done;
    dones = 1;
    goes = refl;
    left = refl;
    owed = refl;
  }
  sent-Steps r (ok (failure_response e)) s h = record {
    next = done;
    dones = 1;
    goes = refl;
    left = refl;
    owed = refl;
  }
  sent-Steps r (err e) s h = record {
    next = done;
    dones = 1;
    goes = refl;
    left = refl;
    owed = refl;
  }
  sent-Steps r (panic text) s h = absurd (h text refl)

  pub step_task-Steps :
      (task : Task) (s : client.State) → Steps task (step_task p codec client t ctx task s).0
  unfolding step_task send call ◌>>=◌
  step_task-Steps (waiting env) s = record {
    next = _;
    dones = 0;
    goes = refl;
    left = refl;
    owed = refl;
  }
  step_task-Steps (answered r) s = sent-Steps r _ _ (calm _ _ _ s)
  step_task-Steps done s = record { next = done; dones = 0; goes = refl; left = refl; owed = refl }
