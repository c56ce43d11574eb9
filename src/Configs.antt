-- ===== src/Configs.antt =====
-- shiroclient/configs.go: the constructors of configs. A nil map or slice is the empty one.
pub mod Laws
pub mod Maps
use shiroclient_sdk_go.Prelude.{ℕ, String, Bool, Option, some, List, Bytes}
use shiroclient_sdk_go.Prelude.Int.{ℤ}
use shiroclient_sdk_go.Prelude.Dict.{Dict, insert, insert_all}
use shiroclient_sdk_go.Errors.{Result}
use shiroclient_sdk_go.Json.{Value}
use shiroclient_sdk_go.Types.Options.{Ctx, Config, opt}

unfoldable pub with_http_client : Option ℕ → Config
with_http_client client = opt λ r. record r { http_client = client }

unfoldable pub with_log : Option ℕ → Config
with_log log = opt λ r. record r { log = log }

unfoldable pub with_log_field : String → Value → Config
with_log_field key value = opt λ r. record r { log_fields = insert key value r.log_fields }

unfoldable pub with_logrus_fields : Dict Value → Config
with_logrus_fields fields = opt λ r. record r { log_fields = insert_all fields r.log_fields }

unfoldable pub with_header : String → String → Config
with_header key value = opt λ r. record r { headers = insert key value r.headers }

unfoldable pub with_endpoint : String → Config
with_endpoint endpoint = opt λ r. record r { endpoint = endpoint }

unfoldable pub with_id : String → Config
with_id id = opt λ r. record r { id = id }

unfoldable pub with_params : Result Value → Config
with_params params = opt λ r. record r { params = params }

unfoldable pub with_transient_data : String → Bytes → Config
with_transient_data key val = opt λ r. record r { transient = insert key val r.transient }

unfoldable pub with_transient_data_map : Dict Bytes → Config
with_transient_data_map kvs = opt λ r. record r { transient = insert_all kvs r.transient }

unfoldable pub with_response : Option ℕ → Config
with_response target = opt λ r. record r { target = target }

unfoldable pub with_auth_token : String → Config
with_auth_token token = opt λ r. record r { auth_token = token }

unfoldable pub with_timestamp_generator : Option (Ctx → String) → Config
with_timestamp_generator generator = opt λ r. record r { timestamp_generator = generator }

unfoldable pub with_msp_filter : List String → Config
with_msp_filter msp_filter = opt λ r. record r { msp_filter = msp_filter }

unfoldable pub with_target_endpoints : List String → Config
with_target_endpoints names = opt λ r. record r { target_endpoints = names }

unfoldable pub without_target_endpoints : List String → Config
without_target_endpoints names = opt λ r. record r { not_target_endpoints = names }

unfoldable pub with_min_endorsers : ℤ → Config
with_min_endorsers min_endorsers = opt λ r. record r { min_endorsers = min_endorsers }

unfoldable pub with_creator : String → Config
with_creator creator = opt λ r. record r { creator = creator }

unfoldable pub with_dependent_tx_id : String → Config
with_dependent_tx_id tx_id = opt λ r. record r { dependent_tx_id = tx_id }

unfoldable pub with_disable_write_polling : Bool → Config
with_disable_write_polling disable = opt λ r. record r { disable_write_polling = disable }

unfoldable pub with_cc_fetch_url_downgrade : Bool → Config
with_cc_fetch_url_downgrade downgrade = opt λ r. record r { cc_fetch_url_downgrade = downgrade }

unfoldable pub with_cc_fetch_url_proxy : Option String → Config
with_cc_fetch_url_proxy proxy = opt λ r. record r { cc_fetch_url_proxy = proxy }

-- `WithSingleton` makes a config that changes nothing, to be known by its address.
unfoldable pub with_singleton : Config
with_singleton = opt λ r. r

unfoldable pub with_dependent_block : String → Config
with_dependent_block block = opt λ r. record r { dependent_block = block }

unfoldable pub with_phylum_version : String → Config
with_phylum_version version = opt λ r. record r { phylum_version = version }

unfoldable pub with_response_receiver : Option ℕ → Config
with_response_receiver receiver = opt λ r. record r { response_receiver = receiver }
