-- ===== src/Rpc/Health.antt =====
-- internal/rpc/health.go, and `HealthCheck` of internal/rpc/shiroclient.go with its URL.
pub mod Laws
use shiroclient_sdk_go.Prelude.{
  ℕ, String, Bool, Option, none, some, List, [], ◌∷◌, Bytes, concat, is_empty, ◌==◌, if◌then◌else◌,
}
use shiroclient_sdk_go.Prelude.Dict.{Dict, lookup}
use shiroclient_sdk_go.Errors.{
  Error, FailureError, Result, ok, err, panic, errors_new, wrap_err, json_field_error,
  remote_exception, rpc_error, require, ◌>>=◌,
}
use shiroclient_sdk_go.Exec
use shiroclient_sdk_go.Exec.{Exec, raise, lift, wrap_exec}
use shiroclient_sdk_go.Json.{Value, as_object, as_string}
use shiroclient_sdk_go.Types.{ShiroClient}
use shiroclient_sdk_go.Types.Options.{Ctx, Config, RequestOptions}
use shiroclient_sdk_go.Types.Response.{ShiroResponse, response_error, result_json}
use shiroclient_sdk_go.Platform.{Platform, HealthBody, Url}
use shiroclient_sdk_go.Rpc.Transport.{Session, do_request}
use shiroclient_sdk_go.Rpc.Client.{RpcClient, client_options}

pub record HealthReport : Type 0 where
  pub timestamp : String
  pub status : String
  pub service_name : String
  pub service_version : String

abbrev pub HealthCheck : Type 0
HealthCheck = List HealthReport

-- `m[key].(string)`: `nil`, for a missing key, is no string.
unfoldable pub text_at : String → Dict Value → Option String
text_at key m = elim (lookup key m) [ none ↦ none | some v ↦ as_string v ]

-- `stringFieldError`
unfoldable pub string_field : Dict Value → String → Result String
unfolding text_at
string_field m key = elim (text_at key m) [
  | none ↦ err (json_field_error "health check report" "string" key)
  | some s ↦ ok s
]

unfoldable pub convert_health_report : Value → Result HealthReport
unfolding string_field
convert_health_report raw = do
  m ← require (as_object raw) "health check report: expected an object"
  ts ← string_field m "timestamp"
  status ← string_field m "status"
  svc ← string_field m "service_name"
  ver ← string_field m "service_version"
  ok (record { timestamp = ts; status = status; service_name = svc; service_version = ver })

-- The loop over the raw reports.
unfoldable pub convert_reports : List Value → Result HealthCheck
unfolding convert_health_report
convert_reports [] = ok []
convert_reports (raw ∷ rest) = do
  report ← convert_health_report raw
  reports ← convert_reports rest
  ok (report ∷ reports)

unfoldable pub reports_or_exception : Option Bytes → List Value → Result HealthCheck
unfolding convert_reports
reports_or_exception (some js) raw = err (remote_exception js)
reports_or_exception none raw = convert_reports raw

-- `rpcError`
unfoldable pub response_rpc_error : ShiroResponse → Option Error
response_rpc_error resp = elim (response_error resp) [ none ↦ none | some e ↦ some (rpc_error e) ]

-- `vals.Encode()` for the one key "service"
service_params : (String → String) → List String → String
service_params escape [] = ""
service_params escape (s ∷ []) = concat ("service=" ∷ escape s ∷ [])
service_params escape (s ∷ ss) =
    concat ("service=" ∷ escape s ∷ "&" ∷ service_params escape ss ∷ [])

-- `urlQueryAppend`
unfoldable pub url_query_append : Url → String → Url
url_query_append u params =
    if u.raw_query == ""
    then record u { raw_query = params }
    else record u { raw_query = concat (u.raw_query ∷ "&" ∷ params ∷ []) }

module _ (p : Platform) where
  unfoldable pub unmarshal_health_response : Bytes → Result HealthCheck
  unfolding reports_or_exception
  unmarshal_health_response r = do
    raw ← wrap_err "invalid result format: " (p.json_unmarshal_health r)
    reports_or_exception raw.exception raw.reports

  abbrev refuse_query : Option Error → Result (Unit {0})
  refuse_query none = ok tt
  refuse_query (some e) = wrap_err "invalid gateway query parameters: " (err e)

  abbrev add_services : List String → Url → Url
  add_services services u =
      if is_empty services then u else url_query_append u (service_params p.query_escape services)

  unfoldable pub gateway_health_check_url : String → List String → Result String
  unfolding url_query_append service_params
  gateway_health_check_url endpoint services = do
    parsed ← wrap_err "invalid gateway url: " (p.parse_url endpoint)
    let u = record parsed { path = p.path_join parsed.path "health_check" }
    _ ← refuse_query (p.parse_query_err u.raw_query)
    ok (p.url_string (add_services services u))

  abbrev refuse_request : Option Error → Result (Unit {0})
  refuse_request none = ok tt
  refuse_request (some e) = wrap_err "healthcheck request: " (err e)

  abbrev has_endpoint : String → Result (Unit {0})
  has_endpoint endpoint =
      if endpoint == ""
      then err (errors_new "ShiroClient.HealthCheck expected an endpoint to be set")
      else ok tt

  -- The URL of the check, and the tests before anything is sent.
  abbrev check_url : RequestOptions → List String → Result String
  check_url opt services = do
    _ ← has_endpoint opt.endpoint
    url ← wrap_err "healthcheck invalid endpoint: " (gateway_health_check_url opt.endpoint services)
    _ ← refuse_request (p.new_request_err url)
    ok url

  -- `HealthCheck`; neither configured headers nor a token go with the request.
  unfoldable pub health_check :
      RpcClient → Ctx → List String → List Config → Exec (Session p) HealthCheck
  health_check c ctx services configs = Exec.◌>>=◌ (client_options p c configs) λ opt.
      Exec.◌>>=◌ (lift (check_url opt services)) λ url.
        Exec.◌>>=◌
          (wrap_exec "healthcheck perform: " (
            do_request p ctx opt.http_client
              (record { method = "GET"; url = url; headers = []; body = [] })))
          λ body. lift (wrap_err "healthcheck bad response: " (unmarshal_health_response body))

  module _ (client : ShiroClient) where
    open client use {State}

    -- The method of the interface `smartHealthCheck`, if the client has it.
    abbrev pub SmartHealthCheck : Type 0
    SmartHealthCheck = Ctx → List String → List Config → Exec State HealthCheck

    healthcheck_result : ShiroResponse → Result HealthCheck
    healthcheck_result resp = elim (response_rpc_error resp) [
      | some e ↦ err e
      | none ↦ unmarshal_health_response (result_json resp)
    ]

    unfoldable pub remote_health_check :
        Option SmartHealthCheck → Ctx → List String → List Config → Exec State HealthCheck
    unfolding healthcheck_result response_rpc_error
    remote_health_check (some smart) ctx services configs = smart ctx services configs
    remote_health_check none ctx services configs =
        Exec.◌>>=◌ (client.call ctx "healthcheck" configs) λ resp. lift (healthcheck_result resp)
