-- ===== src/Tests/RequestTests.antt =====
-- What single requests carry.
use shiroclient_sdk_go.Prelude.{String, none, some, List, [], ◌∷◌, ◌≡◌, refl, arith, eq_iff}
use shiroclient_sdk_go.Prelude.Dict.{lookup, NodupKeys, insert}
use shiroclient_sdk_go.Json.{str}
use shiroclient_sdk_go.Types.Options.{Config, RequestOptions, base_options, apply_configs}
use shiroclient_sdk_go.Configs.{with_transient_data, with_header}
use shiroclient_sdk_go.Configs.Laws.{KeepsTransient}
use shiroclient_sdk_go.Configs.Maps.{sets_transient_data, sets_header}
use shiroclient_sdk_go.Rpc.Request.{hex_encode, transient_json, call_params, request_headers}
use shiroclient_sdk_go.Rpc.Request.Laws.{
  transient_last_sent, transient_sent, transient_entry, header_sent, header_entry,
}
use shiroclient_sdk_go.Rpc.Request.Params.{param_table, present, lookup-call_params}
use shiroclient_sdk_go.Tests.{test_ctx, good_reply, gateway}

abbrev transient_configs : List Config
transient_configs =
    with_transient_data "k" (1 ∷ []) ∷ with_transient_data "k" (2 ∷ []) ∷ with_header "a" "b" ∷ []

unique : NodupKeys (apply_configs "id" none transient_configs).transient
unfolding apply_configs with_transient_data with_header insert lookup
unique = (refl, tt)

keeps : KeepsTransient "k" (with_header "a" "b")
unfolding with_header
keeps r = refl

abbrev other_key : String
other_key = "k"

differs : other_key ≡ "timestamp_override" → ⊥
differs e = ground (arith, eq_iff other_key "timestamp_override")

transient_last_sent_example :
    lookup "k" (transient_json (apply_configs "id" none transient_configs) test_ctx)
    ≡ some (str (hex_encode (2 ∷ [])))
transient_last_sent_example =
    transient_last_sent "id" none (with_transient_data "k" (1 ∷ []) ∷ []) (with_header "a" "b" ∷ [])
      "k" (2 ∷ []) test_ctx (keeps, tt) differs unique

abbrev timed : RequestOptions
timed = record (base_options "id" none) {
  timestamp_generator = some λ ctx. "noon";
  auth_token = "token";
  headers = ("Authorization", "none") ∷ [];
}

abbrev dependent : RequestOptions
dependent = record timed { dependent_tx_id = "tx-9" }

transient_sent_example :
    lookup "k" (transient_json (apply_configs "id" none transient_configs) test_ctx)
    ≡ transient_entry (apply_configs "id" none transient_configs) test_ctx "k"
transient_sent_example = transient_sent "id" none transient_configs test_ctx "k" (
  sets_transient_data "k" (1 ∷ []),
  (sets_transient_data "k" (2 ∷ []), (sets_header "a" "b", tt)),
)

header_sent_example :
    lookup "Authorization" (request_headers (gateway good_reply) test_ctx timed)
    ≡ header_entry (gateway good_reply) timed "Authorization"
header_sent_example = header_sent (gateway good_reply) test_ctx timed "Authorization" (λ h. refl)

lookup-call_params_example :
    lookup "dependent_txid" (call_params "m" (str "a") dependent test_ctx)
    ≡ lookup "dependent_txid" (present (param_table "m" (str "a") dependent test_ctx))
lookup-call_params_example = lookup-call_params "m" (str "a") dependent test_ctx "dependent_txid"
