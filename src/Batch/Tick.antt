-- ===== src/Batch/Tick.antt =====
-- shiroclient/batch/batch.go: `Tick`, with its tasks as steps in any order.
pub mod Spawns
pub mod Trace
pub mod Steps
pub mod Answers
pub mod Returns
pub mod Left
pub mod Fairness
use shiroclient_sdk_go.Prelude.{
  ℕ, zero, suc, String, Bool, true, false, ◌||◌, Option, none, some, List, [], ◌∷◌, ◌++◌, Bytes,
  map, length, ◌-◌, is_empty, ◌==◌, if◌then◌else◌,
}
use shiroclient_sdk_go.Errors.{Error, Result, ok, err, panic, errors_new, error_text}
use shiroclient_sdk_go.Errors
use shiroclient_sdk_go.Exec.{Exec, pure, lift, ◌>>=◌}
use shiroclient_sdk_go.Json.{Value, str, arr, obj, bool, of_elems, of_members, strings}
use shiroclient_sdk_go.Types.{ShiroClient}
use shiroclient_sdk_go.Types.Options.{Ctx, Config}
use shiroclient_sdk_go.Platform.{Platform}
use shiroclient_sdk_go.Batch.Driver.{
  Driver, RequestEnvelope, ResponseEnvelope, call, batch_get_requests_method,
  batch_process_response_method,
}

-- What `encoding/json` does here: `json.Unmarshal` into a slice of envelopes (`none` is an error), and the value that the
-- text of a `json.RawMessage` stands for.
pub record Codec : Type 0 where
  pub unmarshal_envs : Bytes → Option (List RequestEnvelope)
  pub raw_value : Bytes → Result Value

-- What a callback returns. One that panics ends the process, and is left out.
pub data CallbackResult : Type 0 where
  response : Bytes → CallbackResult
  failed : Error → CallbackResult

abbrev pub is_blank : RequestEnvelope → Bool
is_blank env = env.batch_id == "" || env.request_id == "" || is_empty env.message

-- The loop that starts the tasks: it returns at an envelope with a blank field.
unfoldable pub spawned : List RequestEnvelope → List RequestEnvelope
spawned [] = []
spawned (env ∷ envs) = let rest = spawned envs in if is_blank env then [] else env ∷ rest

-- Where a task stands.
pub data Task : Type 0 where
  waiting : RequestEnvelope → Task
  answered : ResponseEnvelope → Task
  done : Task

-- Whether `Tick` has returned, or waits for its tasks.
pub data Status : Type 0 where
  returned : Status
  blocked : Status

module _ (p : Platform) where
  error_envelope : RequestEnvelope → Error → ResponseEnvelope
  error_envelope env e = record {
    batch_id = env.batch_id;
    request_id = env.request_id;
    is_error = true;
    message = p.json_marshal (str (error_text p.text_of e));
  }

  -- The response to a request, from what the callback returned.
  unfoldable pub respond : RequestEnvelope → CallbackResult → ResponseEnvelope
  unfolding error_envelope
  respond env (response []) = error_envelope env (errors_new "Batch::Tick: zero-length response")
  respond env (response (b ∷ bs)) = record {
    batch_id = env.batch_id;
    request_id = env.request_id;
    is_error = false;
    message = b ∷ bs;
  }
  respond env (failed e) = error_envelope env e

-- `json.Marshal(&ResponseEnvelope{…})`
unfoldable pub response_value : Codec → ResponseEnvelope → Result Value
response_value codec r = Errors.◌>>=◌ (codec.raw_value r.message) λ m. ok (
    obj (
      of_members (
        ("batch_id", str r.batch_id)
        ∷ ("request_id", str r.request_id)
        ∷ ("is_error", bool r.is_error)
        ∷ ("message", m)
        ∷ [])))

module _ (p : Platform) (codec : Codec) (client : ShiroClient) where
  open client use {State}

  -- `Ticker`, less what controls it.
  pub record Poller : Type 0 where
    pub driver : Driver
    pub batch_name : String
    pub callback : String → String → Bytes → State → CallbackResult × State
    pub client_configs : List Config

  abbrev decode_envs : Option Bytes → List RequestEnvelope
  decode_envs none = []
  decode_envs (some res) = elim (codec.unmarshal_envs res) [ some envs ↦ spawned envs | none ↦ [] ]

  -- The first part of `Tick`: the envelopes that get a task.
  unfoldable pub tick_start : Poller → Ctx → Exec State (List RequestEnvelope)
  unfolding spawned
  tick_start t ctx = do
    res ←
        call client t.driver ctx batch_get_requests_method (ok (strings (t.batch_name ∷ [])))
          t.batch_name "" "" t.client_configs
    pure (decode_envs res)

  -- The client's state, the tasks of a tick, and the counter of the `sync.WaitGroup`.
  pub record TickState : Type 0 where
    pub state : State
    pub tasks : List Task
    pub wait_count : ℕ

  -- The second part: `wg.Add(1)` and a task for each envelope.
  abbrev pub tick_tasks : List RequestEnvelope → State → TickState
  tick_tasks envs s = record { state = s; tasks = map waiting envs; wait_count = length envs }

  -- The call that sends a response.
  pub send : Poller → Ctx → ResponseEnvelope → Exec State (Option Bytes)
  unfolding response_value
  send t ctx r =
      call client t.driver ctx batch_process_response_method
        (Errors.◌>>=◌ (response_value codec r) λ v. ok (arr (of_elems (str t.batch_name ∷ v ∷ []))))
        t.batch_name r.batch_id r.request_id t.client_configs

  -- One step of one task, and how often it calls `wg.Done()`: it runs the callback, or it sends the
  -- response and ends. A failed call ends the task too; one that panics ends the process.
  unfoldable pub step_task : Poller → Ctx → Task → Exec State (Task × ℕ)
  unfolding respond send
  step_task t ctx (waiting env) s =
      let (r, u) = t.callback env.batch_id env.request_id env.message s in
      (ok (answered (respond p env r), 0), u)
  step_task t ctx (answered r) s = (send t ctx r >>= λ result. pure (done, 1)) s
  step_task t ctx done s = (ok (done, 0), s)

  -- The step of the task at an index.
  unfoldable pub step_at : Poller → Ctx → ℕ → List Task → Exec State (List Task × ℕ)
  unfolding step_task
  step_at t ctx i [] = pure ([], 0)
  step_at t ctx zero (task ∷ tasks) = do next ← step_task t ctx task; pure (next.0 ∷ tasks, next.1)
  step_at t ctx (suc i) (task ∷ tasks) = do
    next ← step_at t ctx i tasks
    pure (task ∷ next.0, next.1)

  abbrev pub finish_step :
      TickState → Result (List Task × ℕ) → State → Result (Unit {0}) × TickState
  finish_step st (ok next) u =
      (ok tt, record { state = u; tasks = next.0; wait_count = st.wait_count - next.1 })
  finish_step st (err e) u = (err e, record st { state = u })
  finish_step st (panic x) u = (panic x, record st { state = u })

  unfoldable pub step : Poller → Ctx → ℕ → Exec TickState (Unit {0})
  unfolding step_at
  step t ctx i st = let (r, u) = step_at t ctx i st.tasks st.state in finish_step st r u

  -- The goroutines in any order: the index of the task for each step.
  unfoldable pub run : Poller → Ctx → List ℕ → Exec TickState (Unit {0})
  unfolding step
  run t ctx [] = pure tt
  run t ctx (i ∷ schedule) = do _ ← step t ctx i; run t ctx schedule

  -- `defer wg.Wait()`: it returns when the counter is zero.
  abbrev pub wait : Result (Unit {0}) → ℕ → Result Status
  wait (ok x) zero = ok returned
  wait (ok x) (suc n) = ok blocked
  wait (err e) n = err e
  wait (panic x) n = panic x

  abbrev pub finish_tasks : Poller → Ctx → List ℕ → List RequestEnvelope → Exec State Status
  finish_tasks t ctx schedule envs s =
      let (r, st) = run t ctx schedule (tick_tasks envs s) in (wait r st.wait_count, st.state)

  -- `Tick`, after its goroutines have taken the given steps. The loop that starts them touches nothing
  -- that they use, so all of it goes first.
  unfoldable pub tick : Poller → Ctx → List ℕ → Exec State Status
  unfolding tick_start run
  tick t ctx schedule = do envs ← tick_start t ctx; finish_tasks t ctx schedule envs
