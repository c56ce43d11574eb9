-- ===== src/Batch/Tick/Trace.antt =====
-- A tick over a client and a callback that leave a trace.
use shiroclient_sdk_go.Prelude.{
  ℕ, ◌+◌, List, [], ◌∷◌, ◌++◌, ◌≡◌, refl, sym, ap, ◌∙◌, append-nil, arith, Bytes, Option,
}
use shiroclient_sdk_go.Errors
use shiroclient_sdk_go.Errors.{Result, ok, err, panic}
use shiroclient_sdk_go.Exec.{pure, continue, ◌>>=◌}
use shiroclient_sdk_go.Json.{str, arr, of_elems}
use shiroclient_sdk_go.Types.{ShiroClient}
use shiroclient_sdk_go.Types.Options.{Ctx}
use shiroclient_sdk_go.Types.Recorded.{Request, traced}
use shiroclient_sdk_go.Platform.{Platform}
use shiroclient_sdk_go.Batch.Driver.{
  RequestEnvelope, ResponseEnvelope, call, call_configs, call_fields, batch_process_response_method,
}
use shiroclient_sdk_go.Batch.Tick.{
  Codec, Task, waiting, answered, done, CallbackResult, respond, response_value, Poller, step_task,
  send,
}

-- A run of the callback, with its arguments and what it returned; a call of the client.
pub data TickEvent : Type 0 where
  ran : RequestEnvelope → CallbackResult → TickEvent
  called : Request → TickEvent

-- Where a task stands, and what for.
pub data Progress : Type 0 where
  queued : RequestEnvelope → Progress
  asked : RequestEnvelope → CallbackResult → Progress
  finished : RequestEnvelope → CallbackResult → Progress

abbrev pub env_of : Progress → RequestEnvelope
env_of (queued env) = env
env_of (asked env r) = env
env_of (finished env r) = env

-- The calls of `wg.Done()` that are to come.
abbrev pub owes : Progress → ℕ
owes (queued env) = 1
owes (asked env r) = 1
owes (finished env r) = 0

-- The parts of a result and the state beside it.
pub ok-parts :
    {S A : Type 0} {a b : A} {m n : ℕ} {u v : S}
    → ◌≡◌ {A = Result (A × ℕ) × S} (ok (a, m), u) (ok (b, n), v)
    → (b ≡ a) × (n ≡ m) × (v ≡ u)
ok-parts h = (cc, cc, cc)

module _ (p : Platform) (codec : Codec) (client : ShiroClient) where
  abbrev pub traced_client : ShiroClient
  traced_client = traced called client

  abbrev pub traced_poller : Poller p codec client → Poller p codec traced_client
  traced_poller t = record {
    driver = t.driver;
    batch_name = t.batch_name;
    callback = λ batch_id request_id message st.
        let (r, u) = t.callback batch_id request_id message st.0 in
        (
          r,
          (
            u,
            st.1
                ++ ran (record { batch_id = batch_id; request_id = request_id; message = message })
                    r
                  ∷ [],
          ),
        );
    client_configs = t.client_configs;
  }

  module _ (t : Poller p codec client) (ctx : Ctx) where
    -- The request that sends a response.
    abbrev pub response_request : ResponseEnvelope → Request
    response_request r = record {
      ctx = ctx;
      method = batch_process_response_method;
      configs =
          call_configs t.driver
            (Errors.◌>>=◌ (response_value codec r)
              λ v. ok (arr (of_elems (str t.batch_name ∷ v ∷ []))))
            (call_fields t.batch_name r.batch_id r.request_id) t.client_configs;
    }

    abbrev pub task_of : Progress → Task
    task_of (queued env) = waiting env
    task_of (asked env r) = answered (respond p env r)
    task_of (finished env r) = done

    -- What a task has done.
    abbrev pub made : Progress → List TickEvent
    made (queued env) = []
    made (asked env r) = ran env r ∷ []
    made (finished env r) = ran env r ∷ called (response_request (respond p env r)) ∷ []

    -- A step of a task adds what it does to the trace.
    pub record Advance (g : Progress) (task : Task) (dones : ℕ) (before after : List TickEvent)
        : Type 0 where
      pub next : Progress
      pub new : List TickEvent
      pub stands : task ≡ task_of next
      pub same : env_of next ≡ env_of g
      pub trace : after ≡ before ++ new
      pub events : made next ≡ made g ++ new
      pub owed : owes next + dones ≡ owes g

    finished-step :
        (r : Result (Option Bytes)) (u v : traced_client.State) (task : Task) (dones : ℕ)
        → continue {B = Task × ℕ} r (λ result. pure (done, 1)) u ≡ (ok (task, dones), v)
        → (task ≡ done) × (dones ≡ 1) × (v ≡ u)
    finished-step (ok x) u v task dones h = ok-parts h
    finished-step (err e) u v task dones h = cc
    finished-step (panic x) u v task dones h = cc

    pub step_task-Advance :
        (g : Progress) (s u : traced_client.State) (task : Task) (dones : ℕ)
        → step_task p codec traced_client (traced_poller t) ctx (task_of g) s
          ≡ (ok (task, dones), u)
        → Advance g task dones s.1 u.1
    unfolding step_task send call ◌>>=◌
    step_task-Advance (queued env) s u task dones h =
        let r = (t.callback env.batch_id env.request_id env.message s.0).0 in
        let (e, d, f) = ok-parts h in
        record {
          next = asked env r;
          new = ran env r ∷ [];
          stands = e;
          same = refl;
          trace = ap (λ v. v.1) f;
          events = refl;
          owed = omega (arith, d);
        }
    step_task-Advance (asked env r) s u task dones h =
        let (e, d, f) = finished-step _ _ u task dones h in
        record {
          next = finished env r;
          new = called (response_request (respond p env r)) ∷ [];
          stands = e;
          same = refl;
          trace = ap (λ v. v.1) f;
          events = refl;
          owed = omega (arith, d);
        }
    step_task-Advance (finished env r) s u task dones h =
        let (e, d, f) = ok-parts h in
        record {
          next = finished env r;
          new = [];
          stands = e;
          same = refl;
          trace = ap (λ v. v.1) f ∙ sym (append-nil s.1);
          events = refl;
          owed = omega (arith, d);
        }
