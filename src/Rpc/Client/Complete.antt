-- ===== src/Rpc/Client/Complete.antt =====
-- When `Call` returns a response.
use shiroclient_sdk_go.Prelude.{
  ℕ, String, Option, none, some, List, [], ◌∷◌, ◌++◌, ◌≡◌, ◌≢◌, refl, sym, ap, append_assoc,
  append-nil, Bytes, eq_iff, ◌==◌, Bool-cases, inl, inr, false,
}
use shiroclient_sdk_go.Errors.{ok}
use shiroclient_sdk_go.Exec.{◌>>=◌}
use shiroclient_sdk_go.Json.{Value}
use shiroclient_sdk_go.Types.Options.{Ctx, Config, RequestOptions, apply_configs}
use shiroclient_sdk_go.Types.Response.{ShiroResponse}
use shiroclient_sdk_go.Platform.{Platform, Exchange}
use shiroclient_sdk_go.Rpc.Codes.{level_of, method_call}
use shiroclient_sdk_go.Rpc.Transport.{Session, Event, sent, outcome, do_request}
use shiroclient_sdk_go.Rpc.Reply.{Rpcres, decode_reply}
use shiroclient_sdk_go.Rpc.Request.{envelope, call_params, call_request}
use shiroclient_sdk_go.Rpc.Client.{
  RpcClient, reqres, unmarshal_into, client_options, call, call_switch, call_failure, success_of,
  deliver,
}
use shiroclient_sdk_go.Rpc.Client.Laws.{post, store_events}
use shiroclient_sdk_go.Rpc.Client.Answers.{AnswerOf, success, failure, receive_events}

module _ (p : Platform) (ctx : Ctx) (method : String) where
  -- The request that `Call` sends.
  abbrev pub call_body : RequestOptions → Value → Value
  call_body opt args = envelope opt.id method_call (call_params method args opt ctx)

  -- The parameters marshal, the endpoint is set and takes a request, and the gateway answers it by a
  -- value that decodes.
  pub record Reached (opt : RequestOptions) (w w' : p.World) (reply : Value) (r : Rpcres)
      : Type 0 where
    pub args : Value
    pub marshals : opt.params ≡ ok args
    pub endpoint_set : opt.endpoint ≢ ""
    pub requests : p.new_request_err opt.endpoint ≡ none
    pub exchanged : Exchange
    pub exchanges :
        p.exchange ctx opt.http_client (post p ctx opt (call_body opt args)) w ≡ (exchanged, w')
    pub body : Bytes
    pub arrives : outcome exchanged ≡ ok body
    pub unmarshals : p.json_unmarshal body ≡ ok reply
    pub decodes : decode_reply p reply ≡ ok r

  not_empty : (text : String) → text ≢ "" → (text == "") ≡ false
  not_empty text set = elim (Bool-cases (text == "")) [
    | inl empty ↦ absurd (set ((eq_iff text "").0 empty))
    | inr full ↦ full
  ]

  do_request-exchanged :
      (opt : RequestOptions) (body : Value) (s : Session p) (x : Exchange) (w : p.World)
      (msg : Bytes)
      → p.exchange ctx opt.http_client (post p ctx opt body) s.world ≡ (x, w)
      → outcome x ≡ ok msg
      → do_request p ctx opt.http_client (post p ctx opt body) s
        ≡ (ok msg, record { world = w; events = s.events ++ sent (post p ctx opt body) ∷ [] })
  unfolding do_request
  do_request-exchanged opt body s x w msg e arrives = rw e (
      ap (λ o. (o, record { world = w; events = s.events ++ sent (post p ctx opt body) ∷ [] }))
        arrives)

  unmarshal_into-stored :
      (target : Option ℕ) (v : Value) (s : Session p)
      → unmarshal_into p target (ok v) s
        ≡ (ok v, record s { events = s.events ++ store_events target v })
  unmarshal_into-stored none v s =
      ap (λ es. (ok v, record s { events = es })) (sym (append-nil s.events))
  unmarshal_into-stored (some cell) v s = refl

  -- The session after the reply has been stored.
  abbrev answered_session : RequestOptions → Value → p.World → Value → List Event → Session p
  answered_session opt args w reply before = record {
    world = w;
    events = before ++ sent (post p ctx opt (call_body opt args)) ∷ store_events opt.target reply;
  }

  call_request-body :
      (opt : RequestOptions) (args : Value)
      → opt.params ≡ ok args
      → call_request method opt ctx ≡ ok (call_body opt args)
  unfolding call_request
  call_request-body opt args e = rw e refl

  reqres-Reached :
      (opt : RequestOptions) (s : Session p) (w : p.World) (reply : Value) (r : Rpcres)
      (d : Reached opt s.world w reply r)
      → reqres p ctx (call_request method opt ctx) opt s
        ≡ (ok r, answered_session opt d.args w reply s.events)
  unfolding reqres ◌>>=◌
  reqres-Reached opt s w reply r d =
      rw
        (
          call_request-body opt d.args d.marshals,
          not_empty opt.endpoint d.endpoint_set,
          d.requests,
          do_request-exchanged opt (call_body opt d.args) s d.exchanged w d.body d.exchanges
              d.arrives,
          d.unmarshals,
          unmarshal_into-stored opt.target reply,
          d.decodes,
        )
        (ap (λ es. (ok r, record { world = w; events = es }))
          (append_assoc s.events (sent (post p ctx opt (call_body opt d.args)) ∷ [])
            (store_events opt.target reply)))

  deliver-received :
      (receiver : Option ℕ) (resp : ShiroResponse) (s : Session p)
      → deliver p receiver resp s
        ≡ (ok resp, record s { events = s.events ++ receive_events receiver resp })
  deliver-received none resp s =
      ap (λ es. (ok resp, record s { events = es })) (sym (append-nil s.events))
  deliver-received (some receiver) resp s = refl

  switch-delivers :
      (opt : RequestOptions) (r : Rpcres) (resp : ShiroResponse) (s : Session p)
      → AnswerOf p r resp
      → call_switch p (level_of r.error_level) opt r s
        ≡ (ok resp, record s { events = s.events ++ receive_events opt.response_receiver resp })
  unfolding call_switch call_failure
  switch-delivers opt r resp s (success level e) =
      rw (level, e) (deliver-received opt.response_receiver (success_of p r) s)
  switch-delivers opt r resp s (failure code message level ec em e) =
      rw (level, ec, em, e) (deliver-received opt.response_receiver _ s)

  -- `Call` returns a response if there is a random ID, the parameters marshal, the endpoint is set and
  -- takes a request, and the gateway answers the request with a reply that says that response: success
  -- at error level 0, or a failure with a numeric code and a text message at level 2. The request has
  -- then been sent, the reply stored and the response received, in this order.
  pub call-Reached :
      (c : RpcClient) (configs : List Config) (s : Session p) (uuid : String) (fresh w : p.World)
      (reply : Value) (r : Rpcres) (resp : ShiroResponse)
      → p.new_uuid s.world ≡ (ok uuid, fresh)
      → (d : Reached (apply_configs uuid c.default_log (c.base_config ++ configs)) fresh w reply r)
      → AnswerOf p r resp
      → let opt = apply_configs uuid c.default_log (c.base_config ++ configs) in
        call p c ctx method configs s ≡ (
          ok resp,
          record {
            world = w;
            events =
                s.events
                ++ (sent (post p ctx opt (call_body opt d.args)) ∷ store_events opt.target reply
                    ++ receive_events opt.response_receiver resp);
          },
        )
  unfolding call client_options ◌>>=◌
  call-Reached c configs s uuid fresh w reply r resp drawn d says =
      let opt = apply_configs uuid c.default_log (c.base_config ++ configs) in
      rw
        (
          drawn,
          reqres-Reached opt (record s { world = fresh }) w reply r d,
          switch-delivers opt r resp (answered_session opt d.args w reply s.events) says,
        )
        (ap (λ es. (ok resp, record { world = w; events = es }))
          (append_assoc s.events
            (sent (post p ctx opt (call_body opt d.args)) ∷ store_events opt.target reply)
            (receive_events opt.response_receiver resp)))
