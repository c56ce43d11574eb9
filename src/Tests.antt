-- ===== src/Tests.antt =====
-- Concrete environments, clients and replies for the tests.
mod RpcTests
mod RequestTests
mod PluginTests
mod UpdateTests
mod PrivateTests
mod PhylumTests
mod BatchTests
mod MockTests
mod CallTests
mod ServedTests
mod ExchangeTests
use shiroclient_sdk_go.Prelude.{
  ℕ, suc, String, Bool, true, false, Option, none, some, List, [], ◌∷◌, ◌++◌, Bytes, utf8,
}
use shiroclient_sdk_go.Prelude.Int.{ℤ, pos}
use shiroclient_sdk_go.Errors.{Result, ok, err, errors_new, external}
use shiroclient_sdk_go.Exec.{Exec, raise}
use shiroclient_sdk_go.Json.{Value, null, bool, num, str, arr, obj, of_members}
use shiroclient_sdk_go.Json.Float.{of_ℕ}
use shiroclient_sdk_go.Types.{ShiroClient}
use shiroclient_sdk_go.Types.Options.{Ctx}
use shiroclient_sdk_go.Types.Response.{ShiroResponse, SuccessResponse, success_response, Dst, plain}
use shiroclient_sdk_go.Platform.{Platform, HealthBody, responded, result_received}

abbrev pub test_ctx : Ctx
test_ctx = record { handle = 0 }

abbrev test_marshal : Value → Bytes
test_marshal null = 0x6e ∷ 0x75 ∷ 0x6c ∷ 0x6c ∷ []
test_marshal (bool b) = 0x74 ∷ []
test_marshal (num n) = 0x31 ∷ []
test_marshal (str s) = 0x22 ∷ 0x78 ∷ 0x22 ∷ []
test_marshal (arr vs) = 0x5b ∷ 0x5d ∷ []
test_marshal (obj ms) = 0x7b ∷ 0x7d ∷ []

-- A reply of the gateway.
abbrev pub gateway_reply : ℕ → Value → Value → Value → Value
gateway_reply level result code message = obj (
    of_members (
      ("jsonrpc", str "2.0")
      ∷ (
        "result",
        obj (
            of_members (
              ("error_level", num (of_ℕ level))
              ∷ ("result", result)
              ∷ ("code", code)
              ∷ ("message", message)
              ∷ ("data", null)
              ∷ [])),
      )
      ∷ ("$commit_tx_id", str "tx-9")
      ∷ ("$com_block_num", str "7")
      ∷ []))

abbrev pub good_reply : Value
good_reply = gateway_reply 0 (str "fine") null null

abbrev pub timeout_reply : Value
timeout_reply = gateway_reply 1 null (num (of_ℕ 1)) (str "late")

abbrev pub report_value : Value
report_value = obj (
    of_members (
      ("timestamp", str "noon")
      ∷ ("status", str "UP")
      ∷ ("service_name", str "phylum")
      ∷ ("service_version", str "v2")
      ∷ []))

-- A gateway that answers each request with the same value; the world counts the random IDs.
abbrev pub gateway : Value → Platform
gateway reply = record {
  World = ℕ;
  json_marshal = test_marshal;
  json_unmarshal = λ b. ok reply;
  json_unmarshal_health = λ b. ok (record { reports = report_value ∷ []; exception = none });
  text_of = λ b. "text";
  sprintf = λ s. s;
  base64_encode = λ b. "Bw==";
  base64_decode = λ s. some (7 ∷ []);
  int_out_of_range = λ f. pos 0;
  uint64_out_of_range = λ f. 0;
  new_request_err = λ url. none;
  canonical_header = λ key. key;
  inject = λ ctx h. h;
  parse_url = λ s. ok (record { origin = s; path = "/"; raw_query = "" });
  url_string = λ u. u.origin;
  parse_query_err = λ q. none;
  path_join = λ base elem. elem;
  query_escape = λ s. s;
  new_uuid = λ w. (ok "id-1", suc w);
  exchange = λ ctx c req w. (
    record {
      fetch = responded (record { body = 1 ∷ []; read_err = none; close_err = none });
      arrival = result_received;
      ctx_err = none;
    },
    w,
  );
}

-- A client that answers each call with the same response, and keeps the methods called.
abbrev pub fixed_client : ShiroResponse → ShiroClient
fixed_client resp = record {
  State = List String;
  seed = λ ctx version configs. raise (errors_new "no seed");
  shiro_phylum = λ ctx configs. raise (errors_new "no phylum");
  init = λ ctx code configs. raise (errors_new "no init");
  call = λ ctx method configs s. (ok resp, s ++ method ∷ []);
  query_info = λ ctx configs. raise (errors_new "no info");
  query_block = λ ctx n configs. raise (errors_new "no block");
}

abbrev pub good_body : SuccessResponse
good_body = record { tx_id = "tx-9"; com_block_num = 7; sim_block_num = 0; result = 1 ∷ [] }

abbrev pub good_client : ShiroClient
good_client = fixed_client (success_response good_body)

-- A drawn seed is noted too.
abbrev pub test_seed : Exec (List String) Bytes
test_seed s = (ok (5 ∷ []), s ++ "seed" ∷ [])

-- A destination that decodes anything to one value.
abbrev pub fixed_dst : {A : Type 0} → A → Dst A
fixed_dst a = record { kind = plain; protojson = λ b. ok a; jsonpb = λ b. ok a; json = λ b. ok a }
