-- ===== src/Rpc/Client.antt =====
-- internal/rpc/shiroclient.go: `reqres` and the methods of `rpcShiroClient`.
pub mod Laws
pub mod Answers
pub mod Complete
pub mod Queries
use shiroclient_sdk_go.Prelude.{
  ℕ, String, Bool, Option, none, some, List, [], ◌∷◌, ◌++◌, Bytes, ◌==◌, if◌then◌else◌,
}
use shiroclient_sdk_go.Prelude.Int.{ℤ}
use shiroclient_sdk_go.Errors.{Error, Result, ok, err, panic, errors_new, unexpected_level, require}
use shiroclient_sdk_go.Exec.{Exec, pure, raise, lift, wrap_exec, ◌>>=◌}
use shiroclient_sdk_go.Json.{Value, num, str, as_string, as_float}
use shiroclient_sdk_go.Json.Float.{float_of_uint64}
use shiroclient_sdk_go.Types.Options.{Ctx, Config, RequestOptions, apply_configs}
use shiroclient_sdk_go.Types.Response.{ShiroResponse, new_success_response, new_failure_response}
use shiroclient_sdk_go.Types.Chain.{Block}
use shiroclient_sdk_go.Platform.{Platform}
use shiroclient_sdk_go.Rpc.Codes.{
  method_seed, method_shiro_phylum, method_init, method_query_info, method_query_block, Level,
  no_error, shiro_client, phylum, unexpected, level_of,
}
use shiroclient_sdk_go.Rpc.Numbers.{int_of_float, uint64_of_float}
use shiroclient_sdk_go.Rpc.Transport.{Session, stored, received, emit, do_request}
use shiroclient_sdk_go.Rpc.Reply.{Rpcres, decode_reply, get_shiro_client_error}
use shiroclient_sdk_go.Rpc.Request.{envelope, call_request, request_headers}
use shiroclient_sdk_go.Rpc.Blocks.{decode_block}

-- `rpcShiroClient`, less its tracer and its own HTTP client.
pub record RpcClient : Type 0 where
  pub default_log : Option ℕ
  pub base_config : List Config

module _ (p : Platform) where
  abbrev expect_endpoint : String → Exec (Session p) (Unit {0})
  expect_endpoint endpoint =
      if endpoint == ""
      then raise (errors_new "ShiroClient.reqres expected an endpoint to be set")
      else pure tt

  abbrev expect_request : Option Error → Exec (Session p) (Unit {0})
  expect_request none = pure tt
  expect_request (some e) = raise e

  abbrev marshal : Result Value → Result Bytes
  marshal (ok v) = ok (p.json_marshal v)
  marshal (err e) = err e
  marshal (panic t) = panic t

  -- `json.Unmarshal(msg, target)`, into the cell of `WithResponse` if there is one.
  abbrev unmarshal_into : Option ℕ → Result Value → Exec (Session p) Value
  unmarshal_into (some cell) (ok v) s = (ok v, emit p (stored cell v) s)
  unmarshal_into _ r s = (r, s)

  unfoldable pub reqres : Ctx → Result Value → RequestOptions → Exec (Session p) Rpcres
  reqres ctx req opt = do
    outmsg ← lift (marshal req)
    _ ← expect_endpoint opt.endpoint
    _ ← expect_request (p.new_request_err opt.endpoint)
    msg ← wrap_exec "ShiroClient.reqres: " (
        do_request p ctx opt.http_client (record {
          method = "POST";
          url = opt.endpoint;
          headers = request_headers p ctx opt;
          body = outmsg;
        }))
    res_arb ← unmarshal_into opt.target (p.json_unmarshal msg)
    lift (decode_reply p res_arb)

  -- `applyConfigs`: the base configs go first; it panics if there is no random ID.
  abbrev with_uuid : RpcClient → List Config → Result String → Result RequestOptions
  with_uuid c configs (ok uuid) = ok (apply_configs uuid c.default_log (c.base_config ++ configs))
  with_uuid c configs (err e) = panic "uuid"
  with_uuid c configs (panic t) = panic t

  unfoldable pub client_options : RpcClient → List Config → Exec (Session p) RequestOptions
  client_options c configs s =
      let (uuid, w) = p.new_uuid s.world in (with_uuid c configs uuid, record s { world = w })

  -- `if opt.ResponseReceiver != nil { opt.ResponseReceiver(res) }`
  abbrev deliver : Option ℕ → ShiroResponse → Exec (Session p) ShiroResponse
  deliver none res s = (ok res, s)
  deliver (some receiver) res s = (ok res, emit p (received receiver res) s)

  abbrev success_of : Rpcres → ShiroResponse
  success_of r =
      new_success_response (p.json_marshal r.result) r.tx_id r.com_block_num r.sim_block_num

  seed_switch : Level → Rpcres → Exec (Session p) (Unit {0})
  seed_switch no_error r = pure tt
  seed_switch shiro_client r = raise (get_shiro_client_error p r)
  seed_switch _ r = raise (unexpected_level "Seed" r.error_level)

  unfoldable pub seed : RpcClient → Ctx → String → List Config → Exec (Session p) (Unit {0})
  unfolding seed_switch
  seed c ctx version configs = do
    opt ← client_options c configs
    res ← reqres ctx (ok (envelope opt.id method_seed (("version", str version) ∷ []))) opt
    seed_switch (level_of res.error_level) res

  shiro_phylum_switch : Level → Rpcres → Exec (Session p) String
  shiro_phylum_switch no_error r =
      lift (require (as_string r.result) "ShiroClient.ShiroPhylum expected string result field")
  shiro_phylum_switch shiro_client r = raise (get_shiro_client_error p r)
  shiro_phylum_switch _ r = raise (unexpected_level "ShiroPhylum" r.error_level)

  unfoldable pub shiro_phylum : RpcClient → Ctx → List Config → Exec (Session p) String
  unfolding shiro_phylum_switch
  shiro_phylum c ctx configs = do
    opt ← client_options c configs
    res ← reqres ctx (ok (envelope opt.id method_shiro_phylum [])) opt
    shiro_phylum_switch (level_of res.error_level) res

  init_switch : Level → RequestOptions → Rpcres → Exec (Session p) (Unit {0})
  init_switch no_error opt r = do _ ← deliver opt.response_receiver (success_of r); pure tt
  init_switch shiro_client opt r = raise (get_shiro_client_error p r)
  init_switch _ opt r = raise (unexpected_level "Init" r.error_level)

  unfoldable pub init : RpcClient → Ctx → String → List Config → Exec (Session p) (Unit {0})
  unfolding init_switch
  init c ctx code configs = do
    opt ← client_options c configs
    res ← reqres ctx (ok (envelope opt.id method_init (("phylum", str code) ∷ []))) opt
    init_switch (level_of res.error_level) opt res

  call_failure : RequestOptions → Value → Value → Value → Exec (Session p) ShiroResponse
  call_failure opt (num code) (str message) details =
      deliver opt.response_receiver
        (new_failure_response (int_of_float p code) message (p.json_marshal details))
  call_failure opt (num code) _ details =
      raise (errors_new "ShiroClient.Call expected a string message field")
  call_failure opt _ _ details = raise (errors_new "ShiroClient.Call expected a numeric code field")

  unfoldable pub call_switch : Level → RequestOptions → Rpcres → Exec (Session p) ShiroResponse
  unfolding call_failure
  call_switch no_error opt r = deliver opt.response_receiver (success_of r)
  call_switch shiro_client opt r = raise (get_shiro_client_error p r)
  call_switch phylum opt r = call_failure opt r.code r.message r.details
  call_switch unexpected opt r = raise (unexpected_level "Call" r.error_level)

  unfoldable pub call : RpcClient → Ctx → String → List Config → Exec (Session p) ShiroResponse
  unfolding call_switch
  call c ctx method configs = do
    opt ← client_options c configs
    res ← reqres ctx (call_request method opt ctx) opt
    call_switch (level_of res.error_level) opt res

  numeric : Option ℕ → Result ℕ
  numeric o = require o "ShiroClient.QueryInfo expected a numeric result field"

  abbrev as_height : Value → Option ℕ
  as_height (num f) = some (uint64_of_float p f)
  as_height _ = none

  query_info_switch : Level → Rpcres → Exec (Session p) ℕ
  unfolding numeric
  query_info_switch no_error r = lift (numeric (as_height r.result))
  query_info_switch shiro_client r = raise (get_shiro_client_error p r)
  query_info_switch _ r = raise (unexpected_level "QueryInfo" r.error_level)

  unfoldable pub query_info : RpcClient → Ctx → List Config → Exec (Session p) ℕ
  unfolding query_info_switch
  query_info c ctx configs = do
    opt ← client_options c configs
    res ← reqres ctx (ok (envelope opt.id method_query_info [])) opt
    query_info_switch (level_of res.error_level) res

  pub query_block_switch : Level → Rpcres → Exec (Session p) Block
  query_block_switch no_error r = lift (decode_block p r.result)
  query_block_switch shiro_client r = raise (get_shiro_client_error p r)
  query_block_switch _ r = raise (unexpected_level "QueryBlock" r.error_level)

  unfoldable pub query_block : RpcClient → Ctx → ℕ → List Config → Exec (Session p) Block
  unfolding query_block_switch
  query_block c ctx block_number configs = do
    opt ← client_options c configs
    res ←
        reqres ctx
          (ok (
            envelope opt.id method_query_block
              (("block_number", num (float_of_uint64 block_number)) ∷ [])))
          opt
    query_block_switch (level_of res.error_level) res
