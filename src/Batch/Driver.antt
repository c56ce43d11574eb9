-- ===== src/Batch/Driver.antt =====
-- shiroclient/batch/batch.go: the options, `NewDriver`, the envelopes and `Driver.call`.
use shiroclient_sdk_go.Prelude.{
  ℕ, String, Bool, Option, none, some, List, [], ◌∷◌, Bytes, is_empty, ◌==◌, if◌then◌else◌,
}
use shiroclient_sdk_go.Prelude.Dict.{Dict, insert, insert_all}
use shiroclient_sdk_go.Errors.{Result, ok, err, panic}
use shiroclient_sdk_go.Exec.{Exec}
use shiroclient_sdk_go.Json.{Value, str}
use shiroclient_sdk_go.Types.{ShiroClient}
use shiroclient_sdk_go.Types.Options.{Ctx}
use shiroclient_sdk_go.Types.Options
use shiroclient_sdk_go.Types.Response.{ShiroResponse, success_response, failure_response}
use shiroclient_sdk_go.Configs

pub record BatchOptions : Type 0 where
  pub log : Option ℕ
  pub log_fields : Dict Value

abbrev pub BatchConfig : Type 0
BatchConfig = BatchOptions → BatchOptions

unfoldable pub with_log : Option ℕ → BatchConfig
with_log log r = record r { log = log }

unfoldable pub with_log_field : String → Value → BatchConfig
with_log_field key value r = record r { log_fields = insert key value r.log_fields }

unfoldable pub with_logrus_fields : Dict Value → BatchConfig
with_logrus_fields fields r = record r { log_fields = insert_all fields r.log_fields }

-- `Driver`, less the client.
pub record Driver : Type 0 where
  pub opt : BatchOptions

run_batch_configs : List BatchConfig → BatchOptions → BatchOptions
run_batch_configs [] opt = opt
run_batch_configs (config ∷ configs) opt = run_batch_configs configs (config opt)

-- `NewDriver`; `default_log` is the logger that `logrus.New()` makes.
unfoldable pub new_driver : Option ℕ → List BatchConfig → Driver
unfolding run_batch_configs
new_driver default_log configs = record {
  opt = run_batch_configs configs (record { log = default_log; log_fields = [] });
}

pub record RequestEnvelope : Type 0 where
  pub batch_id : String
  pub request_id : String
  pub message : Bytes

pub record ResponseEnvelope : Type 0 where
  pub batch_id : String
  pub request_id : String
  pub is_error : Bool
  pub message : Bytes

abbrev pub batch_get_requests_method : String
batch_get_requests_method = "batch_get_requests"

abbrev pub batch_process_response_method : String
batch_process_response_method = "batch_process_response"

-- `if s != "" { fields[key] = s }`
abbrev set_field : String → String → Dict Value → Dict Value
set_field key s fields = if s == "" then fields else insert key (str s) fields

unfoldable pub call_fields : String → String → String → Dict Value
call_fields batch_name batch_id request_id =
    set_field "requestID" request_id
      (set_field "batchID" batch_id (set_field "batchName" batch_name []))

-- The configs of a call; the parameters are set twice.
unfoldable pub call_configs :
    Driver → Result Value → Dict Value → List Options.Config → List Options.Config
call_configs d params fields client_configs =
    Configs.with_params params
    ∷ Configs.with_logrus_fields d.opt.log_fields
    ∷ Configs.with_logrus_fields fields
    ∷ Configs.with_params params
    ∷ client_configs

-- What is left of an outcome: the result, or nil where the source logs what went wrong.
unfoldable pub result_or_nil : Result ShiroResponse → Result (Option Bytes)
result_or_nil (ok (success_response b)) = ok (if is_empty b.result then none else some b.result)
result_or_nil (ok (failure_response e)) = ok none
result_or_nil (err e) = ok none
result_or_nil (panic t) = panic t

module _ (client : ShiroClient) where
  open client use {State}

  -- `Driver.call`; what it logs is left out.
  unfoldable pub call :
      Driver
      → Ctx
      → String
      → Result Value
      → String
      → String
      → String
      → List Options.Config
      → Exec State (Option Bytes)
  unfolding call_fields call_configs result_or_nil
  call d ctx method params batch_name batch_id request_id client_configs s =
      let (r, t) =
        client.call ctx method
          (call_configs d params (call_fields batch_name batch_id request_id) client_configs) s in
      (result_or_nil r, t)
