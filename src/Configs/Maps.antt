-- ===== src/Configs/Maps.antt =====
-- The maps of a request's options stay maps, whatever configs are applied.
use shiroclient_sdk_go.Prelude.{ℕ, String, Bool, Option, List, [], ◌∷◌, Bytes, All}
use shiroclient_sdk_go.Prelude.Int.{ℤ}
use shiroclient_sdk_go.Prelude.Dict.{Dict, NodupKeys, insert-NodupKeys, insert_all-NodupKeys}
use shiroclient_sdk_go.Errors.{Result}
use shiroclient_sdk_go.Json.{Value}
use shiroclient_sdk_go.Types.Options.{Ctx, Config, RequestOptions, fn, run_configs, apply_configs}
use shiroclient_sdk_go.Configs.{
  with_http_client, with_log, with_log_field, with_logrus_fields, with_header, with_endpoint,
  with_id, with_params, with_transient_data, with_transient_data_map, with_response,
  with_auth_token, with_timestamp_generator, with_msp_filter, with_target_endpoints,
  without_target_endpoints, with_min_endorsers, with_creator, with_dependent_tx_id,
  with_disable_write_polling, with_cc_fetch_url_downgrade, with_cc_fetch_url_proxy, with_singleton,
  with_dependent_block, with_phylum_version, with_response_receiver,
}

-- A config that a constructor of the package makes.
pub data IsWith : Config → Type 0 where
  sets_http_client : (client : Option ℕ) → IsWith (with_http_client client)
  sets_log : (log : Option ℕ) → IsWith (with_log log)
  sets_log_field : (key : String) (value : Value) → IsWith (with_log_field key value)
  sets_logrus_fields : (fields : Dict Value) → IsWith (with_logrus_fields fields)
  sets_header : (key : String) (value : String) → IsWith (with_header key value)
  sets_endpoint : (endpoint : String) → IsWith (with_endpoint endpoint)
  sets_id : (id : String) → IsWith (with_id id)
  sets_params : (params : Result Value) → IsWith (with_params params)
  sets_transient_data : (key : String) (val : Bytes) → IsWith (with_transient_data key val)
  sets_transient_data_map : (kvs : Dict Bytes) → IsWith (with_transient_data_map kvs)
  sets_response : (target : Option ℕ) → IsWith (with_response target)
  sets_auth_token : (token : String) → IsWith (with_auth_token token)
  sets_timestamp_generator :
      (generator : Option (Ctx → String)) → IsWith (with_timestamp_generator generator)
  sets_msp_filter : (msp_filter : List String) → IsWith (with_msp_filter msp_filter)
  sets_target_endpoints : (names : List String) → IsWith (with_target_endpoints names)
  excludes_target_endpoints : (names : List String) → IsWith (without_target_endpoints names)
  sets_min_endorsers : (min_endorsers : ℤ) → IsWith (with_min_endorsers min_endorsers)
  sets_creator : (creator : String) → IsWith (with_creator creator)
  sets_dependent_tx_id : (tx_id : String) → IsWith (with_dependent_tx_id tx_id)
  sets_disable_write_polling : (disable : Bool) → IsWith (with_disable_write_polling disable)
  sets_cc_fetch_url_downgrade : (downgrade : Bool) → IsWith (with_cc_fetch_url_downgrade downgrade)
  sets_cc_fetch_url_proxy : (proxy : Option String) → IsWith (with_cc_fetch_url_proxy proxy)
  sets_singleton : IsWith with_singleton
  sets_dependent_block : (block : String) → IsWith (with_dependent_block block)
  sets_phylum_version : (version : String) → IsWith (with_phylum_version version)
  sets_response_receiver : (receiver : Option ℕ) → IsWith (with_response_receiver receiver)

-- At most one entry for each key, in each map of the options.
pub record IsWellFormed (r : RequestOptions) : Type 0 where
  pub log_fields : NodupKeys r.log_fields
  pub headers : NodupKeys r.headers
  pub transient : NodupKeys r.transient

fn-IsWellFormed :
    {c : Config} (r : RequestOptions) → IsWith c → IsWellFormed r → IsWellFormed (fn c r)
unfolding with_http_client with_log with_log_field with_logrus_fields with_header with_endpoint
    with_id with_params with_transient_data with_transient_data_map with_response with_auth_token
    with_timestamp_generator with_msp_filter with_target_endpoints without_target_endpoints
    with_min_endorsers with_creator with_dependent_tx_id with_disable_write_polling
    with_cc_fetch_url_downgrade with_cc_fetch_url_proxy with_singleton with_dependent_block
    with_phylum_version with_response_receiver
fn-IsWellFormed r (sets_http_client client) h = record {
  log_fields = h.log_fields;
  headers = h.headers;
  transient = h.transient;
}
fn-IsWellFormed r (sets_log log) h = record {
  log_fields = h.log_fields;
  headers = h.headers;
  transient = h.transient;
}
fn-IsWellFormed r (sets_log_field key value) h = record {
  log_fields = insert-NodupKeys key value r.log_fields h.log_fields;
  headers = h.headers;
  transient = h.transient;
}
fn-IsWellFormed r (sets_logrus_fields fields) h = record {
  log_fields = insert_all-NodupKeys fields r.log_fields h.log_fields;
  headers = h.headers;
  transient = h.transient;
}
fn-IsWellFormed r (sets_header key value) h = record {
  log_fields = h.log_fields;
  headers = insert-NodupKeys key value r.headers h.headers;
  transient = h.transient;
}
fn-IsWellFormed r (sets_endpoint endpoint) h = record {
  log_fields = h.log_fields;
  headers = h.headers;
  transient = h.transient;
}
fn-IsWellFormed r (sets_id id) h = record {
  log_fields = h.log_fields;
  headers = h.headers;
  transient = h.transient;
}
fn-IsWellFormed r (sets_params params) h = record {
  log_fields = h.log_fields;
  headers = h.headers;
  transient = h.transient;
}
fn-IsWellFormed r (sets_transient_data key val) h = record {
  log_fields = h.log_fields;
  headers = h.headers;
  transient = insert-NodupKeys key val r.transient h.transient;
}
fn-IsWellFormed r (sets_transient_data_map kvs) h = record {
  log_fields = h.log_fields;
  headers = h.headers;
  transient = insert_all-NodupKeys kvs r.transient h.transient;
}
fn-IsWellFormed r (sets_response target) h = record {
  log_fields = h.log_fields;
  headers = h.headers;
  transient = h.transient;
}
fn-IsWellFormed r (sets_auth_token token) h = record {
  log_fields = h.log_fields;
  headers = h.headers;
  transient = h.transient;
}
fn-IsWellFormed r (sets_timestamp_generator generator) h = record {
  log_fields = h.log_fields;
  headers = h.headers;
  transient = h.transient;
}
fn-IsWellFormed r (sets_msp_filter msp_filter) h = record {
  log_fields = h.log_fields;
  headers = h.headers;
  transient = h.transient;
}
fn-IsWellFormed r (sets_target_endpoints names) h = record {
  log_fields = h.log_fields;
  headers = h.headers;
  transient = h.transient;
}
fn-IsWellFormed r (excludes_target_endpoints names) h = record {
  log_fields = h.log_fields;
  headers = h.headers;
  transient = h.transient;
}
fn-IsWellFormed r (sets_min_endorsers min_endorsers) h = record {
  log_fields = h.log_fields;
  headers = h.headers;
  transient = h.transient;
}
fn-IsWellFormed r (sets_creator creator) h = record {
  log_fields = h.log_fields;
  headers = h.headers;
  transient = h.transient;
}
fn-IsWellFormed r (sets_dependent_tx_id tx_id) h = record {
  log_fields = h.log_fields;
  headers = h.headers;
  transient = h.transient;
}
fn-IsWellFormed r (sets_disable_write_polling disable) h = record {
  log_fields = h.log_fields;
  headers = h.headers;
  transient = h.transient;
}
fn-IsWellFormed r (sets_cc_fetch_url_downgrade downgrade) h = record {
  log_fields = h.log_fields;
  headers = h.headers;
  transient = h.transient;
}
fn-IsWellFormed r (sets_cc_fetch_url_proxy proxy) h = record {
  log_fields = h.log_fields;
  headers = h.headers;
  transient = h.transient;
}
fn-IsWellFormed r sets_singleton h = record {
  log_fields = h.log_fields;
  headers = h.headers;
  transient = h.transient;
}
fn-IsWellFormed r (sets_dependent_block block) h = record {
  log_fields = h.log_fields;
  headers = h.headers;
  transient = h.transient;
}
fn-IsWellFormed r (sets_phylum_version version) h = record {
  log_fields = h.log_fields;
  headers = h.headers;
  transient = h.transient;
}
fn-IsWellFormed r (sets_response_receiver receiver) h = record {
  log_fields = h.log_fields;
  headers = h.headers;
  transient = h.transient;
}

run_configs-IsWellFormed :
    (cs : List Config) (r : RequestOptions)
    → All IsWith cs
    → IsWellFormed r
    → IsWellFormed (run_configs cs r)
unfolding run_configs
run_configs-IsWellFormed [] r made h = h
run_configs-IsWellFormed (c ∷ cs) r (made, rest) h =
    run_configs-IsWellFormed cs (fn c r) rest (fn-IsWellFormed r made h)

-- Whatever configs of the package are applied, in whatever order, the log fields, the headers and
-- the transient data of the options hold at most one entry for each key.
pub apply_configs-IsWellFormed :
    (uuid : String) (log : Option ℕ) (cs : List Config)
    → All IsWith cs
    → IsWellFormed (apply_configs uuid log cs)
unfolding apply_configs
apply_configs-IsWellFormed uuid log cs made =
    run_configs-IsWellFormed cs _ made (record { log_fields = tt; headers = tt; transient = tt })
