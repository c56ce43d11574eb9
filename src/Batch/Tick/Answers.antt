-- ===== src/Batch/Tick/Answers.antt =====
-- What a tick that returns has done.
use shiroclient_sdk_go.Prelude.{
  ℕ, ◌+◌, String, Bool, true, false, List, [], ◌∷◌, ◌++◌, ◌≡◌, refl, ap, map, All, Bytes, arith,
}
use mathlib.Core.List.{Perm}
use shiroclient_sdk_go.Prelude.Dict.{Dict}
use shiroclient_sdk_go.Errors
use shiroclient_sdk_go.Errors.{Error, Result, ok, err, panic, errors_new, error_text, value_or}
use shiroclient_sdk_go.Json.{Value, str, bool, arr, obj, of_elems, of_members}
use shiroclient_sdk_go.Types.{ShiroClient}
use shiroclient_sdk_go.Types.Options.{Ctx, Config, RequestOptions, run_configs}
use shiroclient_sdk_go.Types.Recorded.{Request}
use shiroclient_sdk_go.Configs.{with_params, with_logrus_fields}
use shiroclient_sdk_go.Platform.{Platform}
use shiroclient_sdk_go.Batch.Driver.{RequestEnvelope, ResponseEnvelope, call_configs, call_fields}
use shiroclient_sdk_go.Batch.Tick.{
  Codec, CallbackResult, response, failed, respond, response_value, Poller, tick_start,
}
use shiroclient_sdk_go.Batch.Tick.Trace.{
  TickEvent, ran, called, Progress, queued, asked, finished, env_of, traced_client, traced_poller,
  response_request,
}
use shiroclient_sdk_go.Batch.Tick.Steps.{all_owe, all_made}

-- A request, what the callback returned for it, and the call that answered it.
pub record Turn : Type 0 where
  pub env : RequestEnvelope
  pub result : CallbackResult
  pub request : Request

-- The run of the callback for each request, and its answer.
abbrev pub turn_events : List Turn → List TickEvent
turn_events [] = []
turn_events (turn ∷ turns) = ran turn.env turn.result ∷ called turn.request ∷ turn_events turns

module _ (p : Platform) (codec : Codec) (client : ShiroClient) (t : Poller p codec client)
    (ctx : Ctx) where
  -- A call of the method: configs that set the parameters, and then the configs of the ticker.
  pub record IsCall (method : String) (params : Result Value) (request : Request) : Type 0 where
    pub ctx_is : request.ctx ≡ ctx
    pub method_is : request.method ≡ method
    pub own : List Config
    pub configs_are : request.configs ≡ own ++ t.client_configs
    pub sets : (r : RequestOptions) → (run_configs own r).params ≡ params

  -- What the answer says of what the callback returned: the response, or the text of an error.
  pub data Says : CallbackResult → Bool → Bytes → Type 0 where
    replied : {b : ℕ} {bs : Bytes} → Says (response (b ∷ bs)) false (b ∷ bs)
    empty : Says (response []) true (
        p.json_marshal
          (str (error_text p.text_of (errors_new "Batch::Tick: zero-length response"))))
    raised : {e : Error} → Says (failed e) true (p.json_marshal (str (error_text p.text_of e)))

  -- The parameters of an answer: the batch name, and an object with the two IDs, the error flag and
  -- the message; an error if the message is not JSON.
  abbrev pub answer_params : String → String → Bool → Bytes → Result Value
  answer_params batch_id request_id is_error message = Errors.◌>>=◌ (codec.raw_value message) λ m.
      ok (
        arr (
          of_elems (
            str t.batch_name
            ∷ obj (
                of_members (
                  ("batch_id", str batch_id)
                  ∷ ("request_id", str request_id)
                  ∷ ("is_error", bool is_error)
                  ∷ ("message", m)
                  ∷ []))
            ∷ [])))

  -- The answer goes out under the IDs of the request.
  pub record IsAnswer (turn : Turn) : Type 0 where
    pub is_error : Bool
    pub message : Bytes
    pub says : Says turn.result is_error message
    pub calls :
        IsCall "batch_process_response"
          (answer_params turn.env.batch_id turn.env.request_id is_error message)
          turn.request

  turn_of : RequestEnvelope → CallbackResult → Turn
  turn_of env r = record {
    env = env;
    result = r;
    request = response_request p codec client t ctx (respond p env r);
  }

  both_bind :
      {A B C : Type 0} (r : Result A) (f : A → B) (g : B → C)
      → (Errors.◌>>=◌ (Errors.◌>>=◌ r λ a. ok (f a)) λ b. ok (g b))
        ≡ (Errors.◌>>=◌ r λ a. ok (g (f a)))
  both_bind (ok a) f g = refl
  both_bind (err e) f g = refl
  both_bind (panic x) f g = refl

  pub call_configs-IsCall :
      (method : String) (params set : Result Value) (fields : Dict Value)
      → params ≡ set
      → IsCall method set (record {
        ctx = ctx;
        method = method;
        configs = call_configs t.driver params fields t.client_configs;
      })
  unfolding call_configs with_params run_configs with_logrus_fields
  call_configs-IsCall method params set fields e = record {
    ctx_is = refl;
    method_is = refl;
    own = call_configs t.driver params fields [];
    configs_are = refl;
    sets = λ r. e;
  }

  response-IsCall :
      (r : ResponseEnvelope)
      → IsCall "batch_process_response"
          (answer_params r.batch_id r.request_id r.is_error r.message)
          (response_request p codec client t ctx r)
  unfolding response_value
  response-IsCall r =
      call_configs-IsCall "batch_process_response" _ _
        (call_fields t.batch_name r.batch_id r.request_id)
        (both_bind (codec.raw_value r.message) _ _)

  turn_of-IsAnswer : (env : RequestEnvelope) (r : CallbackResult) → IsAnswer (turn_of env r)
  unfolding turn_of respond
  turn_of-IsAnswer env (response (b ∷ bs)) = record {
    is_error = false;
    message = b ∷ bs;
    says = replied;
    calls = response-IsCall (respond p env (response (b ∷ bs)));
  }
  turn_of-IsAnswer env (response []) = record {
    is_error = true;
    message = (respond p env (response [])).message;
    says = empty;
    calls = response-IsCall (respond p env (response []));
  }
  turn_of-IsAnswer env (failed e) = record {
    is_error = true;
    message = (respond p env (failed e)).message;
    says = raised;
    calls = response-IsCall (respond p env (failed e));
  }

  -- When nothing is owed, each task has had its turn.
  pub record Ended (gs : List Progress) : Type 0 where
    pub turns : List Turn
    pub same : map (λ turn. turn.env) turns ≡ map env_of gs
    pub answers : All IsAnswer turns
    pub events : all_made p codec client t ctx gs ≡ turn_events turns

  one_owed : (m n : ℕ) → 1 + m ≡ 0 → ⊥
  one_owed m n h = omega (arith, h)

  pub ended : (gs : List Progress) → all_owe gs ≡ 0 → Ended gs
  unfolding turn_of
  ended [] h = record { turns = []; same = refl; answers = tt; events = refl }
  ended (queued env ∷ gs) h = absurd (one_owed (all_owe gs) 0 h)
  ended (asked env r ∷ gs) h = absurd (one_owed (all_owe gs) 0 h)
  ended (finished env r ∷ gs) h =
      let rest = ended gs (omega (arith, h)) in
      record {
        turns = turn_of env r ∷ rest.turns;
        same = ap (λ envs. env ∷ envs) rest.same;
        answers = (turn_of-IsAnswer env r, rest.answers);
        events =
            ap
              (λ es.
                ran env r ∷ called (response_request p codec client t ctx (respond p env r)) ∷ es)
              rest.events;
      }

  -- The trace of a tick: the poll, and then one turn for each request that got a task, in any order.
  pub record Ticked (s u : (traced_client p codec client).State) : Type 0 where
    pub poll : Request
    pub polls : IsCall "batch_get_requests" (ok (arr (of_elems (str t.batch_name ∷ [])))) poll
    pub envs : List RequestEnvelope
    pub polled : (traced_client p codec client).State
    pub starts :
        tick_start p codec (traced_client p codec client) (traced_poller p codec client t) ctx s
        ≡ (ok envs, polled)
    pub poll_trace : polled.1 ≡ s.1 ++ called poll ∷ []
    pub turns : List Turn
    pub turns_are : map (λ turn. turn.env) turns ≡ envs
    pub answers : All IsAnswer turns
    pub new : List TickEvent
    pub trace : u.1 ≡ polled.1 ++ new
    pub events : Perm new (turn_events turns)
