-- ===== src/Rpc/Client/Laws.antt =====
-- What a successful round trip has done.
use shiroclient_sdk_go.Prelude.{
  ℕ, Option, none, some, List, [], ◌∷◌, ◌++◌, Bytes, ◌≡◌, ◌≢◌, arith, eq_iff, append_assoc,
}
use shiroclient_sdk_go.Errors.{Result, ok, value_or}
use shiroclient_sdk_go.Exec.{◌>>=◌}
use shiroclient_sdk_go.Json.{Value, null}
use shiroclient_sdk_go.Types.Options.{Ctx, RequestOptions}
use shiroclient_sdk_go.Platform.{Platform, HttpRequest, Exchange}
use shiroclient_sdk_go.Rpc.Transport.{Session, Event, sent, stored, do_request, outcome}
use shiroclient_sdk_go.Rpc.Reply.{Rpcres, decode_reply}
use shiroclient_sdk_go.Rpc.Request.{request_headers}
use shiroclient_sdk_go.Rpc.Client.{reqres}

-- The event of a write to the cell of `WithResponse`.
abbrev pub store_events : Option ℕ → Value → List Event
store_events none v = []
store_events (some cell) v = stored cell v ∷ []

module _ (p : Platform) where
  abbrev pub post : Ctx → RequestOptions → Value → HttpRequest
  post ctx opt body = record {
    method = "POST";
    url = opt.endpoint;
    headers = request_headers p ctx opt;
    body = p.json_marshal body;
  }

  -- What lies behind a reply: the request went out once, to the endpoint; the bytes that came back
  -- for it are JSON of a value, and that value is what decodes to the reply.
  pub record RoundTrip (ctx : Ctx) (req : Result Value) (opt : RequestOptions) (s : Session p)
      (r : Rpcres) (t : Session p) : Type 0 where
    pub body : Value
    pub marshalled : req ≡ ok body
    pub endpoint_set : opt.endpoint ≢ ""
    pub exchanged : Exchange
    pub exchanges :
        p.exchange ctx opt.http_client (post ctx opt body) s.world ≡ (exchanged, t.world)
    pub arrived : Bytes
    pub arrives : outcome exchanged ≡ ok arrived
    pub reply : Value
    pub unmarshals : p.json_unmarshal arrived ≡ ok reply
    pub decodes : decode_reply p reply ≡ ok r
    pub events : t.events ≡ s.events ++ sent (post ctx opt body) ∷ store_events opt.target reply

  module _ (ctx : Ctx) (req : Result Value) (opt : RequestOptions) (s : Session p) where
    -- The exchange of a request that goes out, its bytes, and the value of its reply.
    exchanged : Exchange
    exchanged = (p.exchange ctx opt.http_client (post ctx opt (value_or null req)) s.world).0

    arrived : Bytes
    unfolding exchanged
    arrived = value_or [] (outcome exchanged)

    reply_value : Value
    unfolding arrived
    reply_value = value_or null (p.json_unmarshal arrived)

    pub reqres-RoundTrip :
        {r : Rpcres} {t : Session p}
        → reqres p ctx req opt s ≡ (ok r, t)
        → RoundTrip ctx req opt s r t
    unfolding reqres ◌>>=◌ reply_value do_request
    reqres-RoundTrip {r} {t} h = record {
      body = value_or null req;
      marshalled = ground arith;
      endpoint_set = ground (arith, eq_iff opt.endpoint "");
      exchanged = exchanged;
      exchanges = ground arith;
      arrived = arrived;
      arrives = ground arith;
      reply = reply_value;
      unmarshals = ground arith;
      decodes = ground arith;
      events = ground (
        arith,
        append_assoc s.events (sent (post ctx opt (value_or null req)) ∷ [])
            (store_events opt.target reply_value),
      );
    }
