-- ===== src/Rpc/Transport.antt =====
-- internal/rpc/shiroclient.go: `doRequest`, and what a client leaves behind for an observer.
pub mod Laws
use shiroclient_sdk_go.Prelude.{
  ℕ, String, Bool, true, false, Option, none, some, List, [], ◌∷◌, ◌++◌, Bytes, if◌then◌else◌,
}
use shiroclient_sdk_go.Prelude.Dict.{or_else}
use shiroclient_sdk_go.Errors.{Error, Result, ok, err, panic, is_canceled, canceled_by}
use shiroclient_sdk_go.Exec.{Exec}
use shiroclient_sdk_go.Json.{Value}
use shiroclient_sdk_go.Types.Options.{Ctx}
use shiroclient_sdk_go.Types.Response.{ShiroResponse}
use shiroclient_sdk_go.Platform.{
  Platform, HttpRequest, Fetch, do_failed, responded, Arrival, ctx_done, result_received, Exchange,
}

-- What the client does that others see: a request on the wire, a write to the cell of
-- `WithResponse`, a call of the function of `WithResponseReceiver`.
pub data Event : Type 0 where
  sent : HttpRequest → Event
  stored : ℕ → Value → Event
  received : ℕ → ShiroResponse → Event

-- The body of the goroutine: what it sends on `resultCh`.
body_or : Bytes → Option Error → Result Bytes
body_or body none = ok body
body_or body (some e) = err e

unfoldable pub fetch_result : Fetch → Result Bytes
unfolding body_or
fetch_result (do_failed e) = err e
fetch_result (responded r) = body_or r.body (or_else r.read_err r.close_err)

-- `errors.Is(ctx.Err(), context.Canceled)`
abbrev pub is_ctx_canceled : Option Error → Bool
is_ctx_canceled none = false
is_ctx_canceled (some e) = is_canceled e

-- `return nil, ctx.Err()`
abbrev ctx_error : Option Error → Result Bytes
ctx_error none = ok []
ctx_error (some e) = err e

-- `case res := <-resultCh`
receive : Option Error → Result Bytes → Result Bytes
receive ctx_err (ok msg) = ok msg
receive ctx_err (err e) =
    if is_canceled e then err e else if is_ctx_canceled ctx_err then err (canceled_by e) else err e
receive ctx_err (panic s) = panic s

-- The `select`.
select : Arrival → Option Error → Result Bytes → Result Bytes
unfolding receive
select ctx_done ctx_err res = ctx_error ctx_err
select result_received ctx_err res = receive ctx_err res

unfoldable pub outcome : Exchange → Result Bytes
unfolding select fetch_result
outcome x = select x.arrival x.ctx_err (fetch_result x.fetch)

module _ (p : Platform) where
  -- The network and the events so far, the first one first.
  pub record Session : Type 0 where
    pub world : p.World
    pub events : List Event

  abbrev pub emit : Event → Session → Session
  emit e s = record s { events = s.events ++ e ∷ [] }

  -- `doRequest`; without an overriding client, `none`, it uses the client's own.
  unfoldable pub do_request : Ctx → Option ℕ → HttpRequest → Exec Session Bytes
  unfolding outcome
  do_request ctx http_client req s =
      let (x, w) = p.exchange ctx http_client req s.world in
      (outcome x, record { world = w; events = s.events ++ sent req ∷ [] })
