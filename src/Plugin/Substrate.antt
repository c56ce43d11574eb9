-- ===== src/Plugin/Substrate.antt =====
-- x/plugin/plugin.go: the data that crosses the plugin connection, and the interface `Substrate`.
use shiroclient_sdk_go.Prelude.{ℕ, String, Bool, Option, List, Bytes, map}
use shiroclient_sdk_go.Prelude.Int.{ℤ}
use shiroclient_sdk_go.Prelude.Dict.{Dict}
use shiroclient_sdk_go.Errors.{Result}
use shiroclient_sdk_go.Exec.{Exec}
use shiroclient_sdk_go.Types.Response.{
  ShiroResponse, new_success_response, new_failure_response, Dst, DstKind, proto_message,
  message_v1, plain,
}
use shiroclient_sdk_go.Types.Chain
use shiroclient_sdk_go.Types.Chain.{new_transaction, new_block}
use shiroclient_sdk_go.Types.Options.{Config, opt}

pub record ConcreteRequestOptions : Type 0 where
  pub headers : Dict String
  pub endpoint : String
  pub id : String
  pub auth_token : String
  pub params : Bytes
  pub transient : Dict Bytes
  pub timestamp : String
  pub msp_filter : List String
  pub min_endorsers : ℤ
  pub creator : String
  pub dependent_tx_id : String
  pub disable_write_polling : Bool
  pub cc_fetch_url_downgrade : Bool
  pub cc_fetch_url_proxy : String
  pub dependent_block : String
  pub phylum_version : String
  pub new_phylum_version : String

pub record Response : Type 0 where
  pub result_json : Bytes
  pub has_error : Bool
  pub error_code : ℤ
  pub error_message : String
  pub error_json : Bytes
  pub transaction_id : String

abbrev response_by_kind : {A : Type 0} → DstKind → Bytes → Dst A → Result A
response_by_kind proto_message src dst = dst.protojson src
response_by_kind message_v1 src dst = dst.json src
response_by_kind plain src dst = dst.json src

-- `UnmarshalTo`: only a `proto.Message` is told apart.
unfoldable pub unmarshal_to : {A : Type 0} → Response → Dst A → Result A
unmarshal_to r dst = response_by_kind dst.kind r.result_json dst

pub record Transaction : Type 0 where
  pub id : String
  pub reason : String
  pub event : Bytes
  pub chaincode_id : String

pub record Block : Type 0 where
  pub hash : String
  pub transactions : List Transaction

-- The interface `Substrate`, over the state of an implementation. A nil pointer is `none`.
pub record Substrate : Type 1 where
  pub State : Type 0
  pub health_check : ℤ → Exec State ℤ
  pub new_mock_from : String → String → Bytes → Exec State String
  pub set_creator_with_attributes_mock : String → String → Dict String → Exec State (Unit {0})
  pub snapshot_mock : String → Exec State Bytes
  pub close_mock : String → Exec State (Unit {0})
  pub init : String → String → ConcreteRequestOptions → Exec State (Unit {0})
  pub call : String → String → ConcreteRequestOptions → Exec State (Option Response)
  pub query_info : String → ConcreteRequestOptions → Exec State ℕ
  pub query_block : String → ℕ → ConcreteRequestOptions → Exec State (Option Block)

-- `newShiroClientTransaction`, `NewShiroClientBlock`
unfoldable pub new_shiro_client_transaction : Transaction → Chain.Transaction
new_shiro_client_transaction tx = new_transaction tx.id tx.reason tx.event tx.chaincode_id

unfoldable pub new_shiro_client_block : Block → Chain.Block
unfolding new_shiro_client_transaction
new_shiro_client_block blk = new_block blk.hash (map new_shiro_client_transaction blk.transactions)

-- `plugin.NewSuccessResponse`: no block numbers.
abbrev pub plugin_success_response : Bytes → String → ShiroResponse
plugin_success_response result tx_id = new_success_response result tx_id 0 0

abbrev pub plugin_failure_response : ℤ → String → Bytes → ShiroResponse
plugin_failure_response code message details = new_failure_response code message details

-- `WithNewPhylumVersion`
abbrev pub with_new_phylum_version : String → Config
with_new_phylum_version version = opt λ r. record r { new_phylum_version = version }
