-- ===== src/Phylum.antt =====
-- shiroclient/phylum/phylum.go: a client of one phylum, over any `ShiroClient`.
pub mod Mock
pub mod Joins
pub mod Laws
pub mod Timeouts
use shiroclient_sdk_go.Prelude.{
  ℕ, String, Bool, true, false, Option, none, some, List, [], ◌∷◌, Bytes, map, ◌||◌, ◌==◌, is_empty,
  if◌then◌else◌,
}
use shiroclient_sdk_go.Prelude.Dict.{Dict}
use shiroclient_sdk_go.Errors.{Error, FailureError, Result, ok, err, panic, errors_new, unavailable}
use shiroclient_sdk_go.Errors
use shiroclient_sdk_go.Exec.{Exec, pure, lift, ◌>>=◌}
use shiroclient_sdk_go.Json.{Value, arr, of_elems}
use shiroclient_sdk_go.Types.{ShiroClient}
use shiroclient_sdk_go.Types.Options.{Ctx, Config}
use shiroclient_sdk_go.Types.Response.{
  ShiroResponse, success_response, failure_response, result_json,
}
use shiroclient_sdk_go.Configs.{with_endpoint, with_logrus_fields, with_params}
use shiroclient_sdk_go.Platform.{Platform}
use shiroclient_sdk_go.Rpc.Reply.{is_timeout_error}
use shiroclient_sdk_go.Rpc.Client.{RpcClient}
use shiroclient_sdk_go.Rpc.Health.{HealthReport, HealthCheck}
use shiroclient_sdk_go.Private.Seed.{with_seed}
use Joins.{join_config, all_set}

-- The configs of the RPC client that `New` makes.
unfoldable pub new_rpc : String → Dict Value → Option ℕ → RpcClient
new_rpc endpoint log_data default_log = record {
  default_log = default_log;
  base_config = with_endpoint endpoint ∷ with_logrus_fields log_data ∷ [];
}

-- `cmdParams`; a message stands for what `protojson` makes of it, which may be an error.
unfoldable pub cmd_params : List (Result Value) → Result Value
cmd_params messages = marshal_all messages λ vs. ok (arr (of_elems vs))
  where
    marshal_all : List (Result Value) → (List Value → Result Value) → Result Value
    marshal_all [] k = k []
    marshal_all (ok v ∷ ms) k = marshal_all ms λ vs. k (v ∷ vs)
    marshal_all (err e ∷ ms) k = err e
    marshal_all (panic t ∷ ms) k = panic t

-- What the SDK call relies on: a destination for `protojson.Unmarshal`, and `json.Unmarshal` into a
-- string.
pub record Codec (A : Type 0) : Type 0 where
  pub unmarshal_rep : Bytes → Result A
  pub unmarshal_string : Bytes → Option String

-- `if shiroclient.IsTimeoutError(err) { return status.Error(codes.Unavailable, …) }`
abbrev pub masked_timeout : Error → Error
masked_timeout e = if is_timeout_error e then unavailable "timeout in blockchain network" else e

abbrev pub mask_timeout {ℓ} : {A : Type ℓ} → Result A → Result A
mask_timeout (ok a) = ok a
mask_timeout (err e) = err (masked_timeout e)
mask_timeout (panic t) = panic t

-- The error that a phylum error becomes.
abbrev by_text : Option String → Error
by_text (some message) = errors_new message
by_text none = errors_new "unknown phylum error"

unfoldable pub phylum_failure : (Bytes → Option String) → FailureError → Error
phylum_failure unmarshal_string e =
    if is_empty e.data_json
    then errors_new "unknown phylum error"
    else by_text (unmarshal_string e.data_json)

module _ (p : Platform) {A : Type 0} (codec : Codec A) where
  -- Nothing to decode: no destination, or no data.
  abbrev pub has_no_data : Bool → Bytes → Bool
  has_no_data nil_rep result = nil_rep || is_empty result || p.text_of result == "null"

  abbrev decode_rep : Bool → Bytes → Result (Option A)
  decode_rep true result = ok none
  decode_rep false result = Errors.◌>>=◌ (codec.unmarshal_rep result) λ a. ok (some a)

  unfoldable pub answer : Bool → ShiroResponse → Result (Option A)
  unfolding phylum_failure
  answer nil_rep (failure_response e) = err (phylum_failure codec.unmarshal_string e)
  answer nil_rep (success_response r) = decode_rep (has_no_data nil_rep r.result) r.result

  module _ (client : ShiroClient) (seed_gen : Exec client.State Bytes) where
    open client use {State}

    -- `defaultConfigs`
    abbrev pub default_configs : List (Exec State Config)
    default_configs = with_seed p seed_gen ∷ []

    abbrev pub call_masked : Ctx → String → List Config → Exec State ShiroResponse
    call_masked ctx cmd configs s =
        let (r, t) = client.call ctx cmd configs s in (mask_timeout r, t)

    -- `sdkCall`: what is decoded into `rep`, if anything.
    unfoldable pub sdk_call :
        Ctx → String → Result Value → Bool → List Config → Exec State (Option A)
    unfolding answer
    sdk_call ctx cmd params nil_rep client_configs = do
      joined ← join_config default_configs default_configs client_configs
      configs ← lift (all_set joined)
      resp ← call_masked ctx cmd (with_params params ∷ configs)
      lift (answer nil_rep resp)

    abbrev or_unchanged : A → Option A → A
    or_unchanged resp none = resp
    or_unchanged resp (some a) = a

    -- `Call`: `resp` is the message that the caller passes in to decode into.
    unfoldable pub call : Ctx → String → Result Value → A → List Config → Exec State A
    unfolding sdk_call cmd_params
    call ctx method_name req resp configs = do
      rep ← sdk_call ctx method_name (cmd_params (req ∷ [])) false configs
      pure (or_unchanged resp rep)

-- `Close`
unfoldable pub close : {S : Type 0} → Option (Exec S (Unit {0})) → Exec S (Unit {0})
close none = pure tt
close (some f) = f

-- The messages of the health check API.
pub record HealthCheckReport : Type 0 where
  pub timestamp : String
  pub status : String
  pub service_name : String
  pub service_version : String

abbrev convert_health_report : HealthReport → HealthCheckReport
convert_health_report report = record {
  timestamp = report.timestamp;
  status = report.status;
  service_name = report.service_name;
  service_version = report.service_version;
}

-- `convertHealthResponse`
unfoldable pub convert_health_response : HealthCheck → List HealthCheckReport
convert_health_response health = map convert_health_report health
