-- ===== src/Rpc/Client/Answers.antt =====
-- What a response of `Call` comes from.
use shiroclient_sdk_go.Prelude.{
  ℕ, String, Option, none, some, List, [], ◌∷◌, ◌++◌, ◌≡◌, refl, sym, ap, arith, append-nil,
}
use shiroclient_sdk_go.Prelude.Dict.{Dict, lookup}
use shiroclient_sdk_go.Errors
use shiroclient_sdk_go.Errors.{Result, ok, err, panic, value_or}
use shiroclient_sdk_go.Exec.{◌>>=◌}
use shiroclient_sdk_go.Exec.Laws.{bind-eq-ok}
use shiroclient_sdk_go.Json.{Value, num, str, obj, of_members}
use shiroclient_sdk_go.Json.Float.{Float64}
use shiroclient_sdk_go.Types.Options.{Ctx, Config, RequestOptions, apply_configs}
use shiroclient_sdk_go.Types.Response.{ShiroResponse, new_failure_response}
use shiroclient_sdk_go.Platform.{Platform}
use shiroclient_sdk_go.Rpc.Codes.{method_call, Level, no_error, phylum, level_of}
use shiroclient_sdk_go.Rpc.Numbers.{int_of_float}
use shiroclient_sdk_go.Rpc.Transport.{Session, Event, received}
use shiroclient_sdk_go.Rpc.Reply.{Rpcres}
use shiroclient_sdk_go.Rpc.Request.{envelope, call_params, call_request}
use shiroclient_sdk_go.Rpc.Request.Params.{param_table, present, lookup-call_params}
use shiroclient_sdk_go.Rpc.Client.{
  RpcClient, reqres, client_options, call, call_switch, call_failure, success_of,
}
use shiroclient_sdk_go.Rpc.Client.Laws.{RoundTrip, reqres-RoundTrip}

-- The event of a call of the function of `WithResponseReceiver`.
abbrev pub receive_events : Option ℕ → ShiroResponse → List Event
receive_events none resp = []
receive_events (some receiver) resp = received receiver resp ∷ []

module _ (p : Platform) where
  -- Success for level 0, and for level 2 the failure with the phylum's code, message and data.
  pub data AnswerOf (r : Rpcres) (resp : ShiroResponse) : Type 0 where
    success : level_of r.error_level ≡ no_error → resp ≡ success_of p r → AnswerOf r resp
    failure :
        (code : Float64) (message : String)
        → level_of r.error_level ≡ phylum
        → r.code ≡ num code
        → r.message ≡ str message
        → resp ≡ new_failure_response (int_of_float p code) message (p.json_marshal r.details)
        → AnswerOf r resp

  -- The request is the JSON-RPC call of the method, with the entries of the table for its parameters.
  pub record Sends (ctx : Ctx) (method : String) (opt : RequestOptions) (body : Value)
      : Type 0 where
    pub args : Value
    pub marshals : opt.params ≡ ok args
    pub params : Dict Value
    pub entries :
        (k : String) → lookup k params ≡ lookup k (present (param_table method args opt ctx))
    pub is_call :
        body
        ≡ obj (
            of_members (
              ("jsonrpc", str "2.0")
              ∷ ("id", str opt.id)
              ∷ ("method", str "Call")
              ∷ ("params", obj (of_members params))
              ∷ []))

  pub record Answered (ctx : Ctx) (method : String) (opt : RequestOptions) (s : Session p)
      (resp : ShiroResponse) (t : Session p) : Type 0 where
    pub reply : Rpcres
    pub answered : Session p
    pub trip : RoundTrip p ctx (call_request method opt ctx) opt s reply answered
    pub sends : Sends ctx method opt trip.body
    pub answer : AnswerOf reply resp
    pub world : t.world ≡ answered.world
    pub events : t.events ≡ answered.events ++ receive_events opt.response_receiver resp

  -- The same, from what the parameters are.
  params-Sends :
      (method : String) (opt : RequestOptions) (ctx : Ctx) (r : Result Value) {body : Value}
      → opt.params ≡ r
      → (Errors.◌>>=◌ r λ args. ok (envelope opt.id method_call (call_params method args opt ctx)))
        ≡ ok body
      → Sends ctx method opt body
  params-Sends method opt ctx (ok args) {body} e h = record {
    args = args;
    marshals = e;
    params = call_params method args opt ctx;
    entries = lookup-call_params method args opt ctx;
    is_call = ap (λ r. value_or body r) (sym h);
  }
  params-Sends method opt ctx (err x) e h = cc
  params-Sends method opt ctx (panic x) e h = cc

  call_request-Sends :
      (method : String) (opt : RequestOptions) (ctx : Ctx) {body : Value}
      → call_request method opt ctx ≡ ok body
      → Sends ctx method opt body
  unfolding call_request
  call_request-Sends method opt ctx h = params-Sends method opt ctx opt.params refl h

  failure-AnswerOf :
      (opt : RequestOptions) (r : Rpcres) (c m : Value) (s : Session p) {resp : ShiroResponse}
      {t : Session p}
      → level_of r.error_level ≡ phylum
      → r.code ≡ c
      → r.message ≡ m
      → call_failure p opt c m r.details s ≡ (ok resp, t)
      → AnswerOf r resp
        × (t.world ≡ s.world)
        × (t.events ≡ s.events ++ receive_events opt.response_receiver resp)
  unfolding call_failure
  failure-AnswerOf opt r (num c) (str m) s l ec em h =
      (failure c m l ec em (ground arith), ground arith, ground (arith, append-nil s.events))
  failure-AnswerOf opt r (num c) _ s l ec em h = cc
  failure-AnswerOf opt r _ _ s l ec em h = cc

  switch-AnswerOf :
      (opt : RequestOptions) (r : Rpcres) (l : Level) (s : Session p) {resp : ShiroResponse}
      {t : Session p}
      → level_of r.error_level ≡ l
      → call_switch p l opt r s ≡ (ok resp, t)
      → AnswerOf r resp
        × (t.world ≡ s.world)
        × (t.events ≡ s.events ++ receive_events opt.response_receiver resp)
  unfolding call_switch
  switch-AnswerOf opt r no_error s l h =
      (success l (ground arith), ground arith, ground (arith, append-nil s.events))
  switch-AnswerOf opt r phylum s l h = failure-AnswerOf opt r r.code r.message s l refl refl h
  switch-AnswerOf opt r _ s l h = cc

  module _ (c : RpcClient) (ctx : Ctx) (method : String) where
    switch-Answered :
        (opt : RequestOptions) (s : Session p) {resp : ShiroResponse} {t : Session p}
        → (reqres p ctx (call_request method opt ctx) opt >>= λ r.
              call_switch p (level_of r.error_level) opt r)
            s
          ≡ (ok resp, t)
        → Answered ctx method opt s resp t
    switch-Answered opt s h =
        let (r, u, e, k) = bind-eq-ok _ _ s h in
        let (answer, world, events) = switch-AnswerOf opt r _ u refl k in
        let trip = reqres-RoundTrip p ctx _ opt s e in
        record {
          reply = r;
          answered = u;
          trip = trip;
          sends = call_request-Sends method opt ctx trip.marshalled;
          answer = answer;
          world = world;
          events = events;
        }

    -- If `Call` returns a response, with `uuid` for the random ID, then it has sent one request: a
    -- POST to the endpoint, with the headers of the options, which are those of the base configs and
    -- then of the given ones, and with the JSON-RPC call of the method for its body, whose parameters
    -- have under each key what the options say. The bytes that this exchange gave are JSON of a value,
    -- which is stored in the cell of `WithResponse`, if there is one, and decodes to a reply. The
    -- response is a success at error level 0 of the reply, and at level 2 a failure with its code,
    -- message and data; and the receiver, if there is one, is called once, last, with that response.
    pub call-Answered :
        (configs : List Config) (s : Session p) (uuid : String) (w : p.World) {resp : ShiroResponse}
        {t : Session p}
        → p.new_uuid s.world ≡ (ok uuid, w)
        → call p c ctx method configs s ≡ (ok resp, t)
        → Answered ctx method
            (apply_configs uuid c.default_log (c.base_config ++ configs))
            (record s { world = w })
            resp
            t
    unfolding call client_options ◌>>=◌
    call-Answered configs s uuid w fresh h =
        switch-Answered (apply_configs uuid c.default_log (c.base_config ++ configs))
          (record s { world = w }) (rw fresh at h)
