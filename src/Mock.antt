-- ===== src/Mock.antt =====
-- internal/mock/shiroclient.go: a client whose ledger runs in a plugin process.
pub mod Options
pub mod Start
pub mod Quiet
pub mod Served
pub mod Laws
pub mod Launches
pub mod Lifecycle
use shiroclient_sdk_go.Prelude.{
  ℕ, String, Option, some, none, List, [], ◌∷◌, ◌++◌, Bytes, map, concat, ◌==◌, if◌then◌else◌,
}
use shiroclient_sdk_go.Prelude.Dict.{Dict}
use shiroclient_sdk_go.Errors.{Result, ok, err, panic, errors_new, wrapped, wrap_err}
use shiroclient_sdk_go.Exec.{Exec, pure, raise, lift, wrap_exec, ◌>>=◌}
use shiroclient_sdk_go.Json.{Value}
use shiroclient_sdk_go.Types.{ShiroClient}
use shiroclient_sdk_go.Types.Options.{Ctx, Config, RequestOptions, apply_configs}
use shiroclient_sdk_go.Types.Response.{ShiroResponse, new_success_response, new_failure_response}
use shiroclient_sdk_go.Types.Chain.{new_transaction, new_block}
use shiroclient_sdk_go.Types.Chain
use shiroclient_sdk_go.Plugin.Substrate.{ConcreteRequestOptions, Response, Transaction, Block}
use shiroclient_sdk_go.Plugin.Connection.{
  Host, SubstrateConnection, ConnectOption, connect_with_command, connect_with_log_level,
  connect_with_attach_stdamp, new_substrate_connection, get_substrate, close_connection,
}
use Options.{
  MockConfig, MockOption, mock_config, hcp_log_level, default_plugin_env, phylum_name,
  phylum_version,
}

-- What else the mock client asks of Go's library and the operating system: `json.Marshal`,
-- `string(bytes)`, `base64.StdEncoding`, `uuid.NewRandom`, the current time in RFC 3339, an
-- environment variable, a reader read to its end, and a write to a writer.
pub record Machine (S : Type 0) : Type 0 where
  pub json_marshal : Value → Bytes
  pub text_of : Bytes → String
  pub base64_encode : Bytes → String
  pub new_uuid : Exec S String
  pub now : S → String × S
  pub getenv : String → S → String
  pub read_all : ℕ → Exec S Bytes
  pub write : ℕ → Bytes → Exec S (Unit {0})

module _ (h : Host) (m : Machine h.State) where
  open h use {State}

  -- `mockShiroClient`
  pub record MockShiroClient : Type 0 where
    pub base_config : List Config
    pub conn : SubstrateConnection m.text_of h
    pub tag : String
    pub mock_phylum : String

  -- `ApplyConfigs(nil, …)`; it panics if there is no random ID.
  abbrev options_of : List Config → Result String → Result RequestOptions
  options_of configs (ok uuid) = ok (apply_configs uuid none configs)
  options_of configs (err e) = panic "uuid"
  options_of configs (panic t) = panic t

  abbrev marshal_params : Result Value → Result Bytes
  marshal_params (ok v) = ok (m.json_marshal v)
  marshal_params (err e) = err e
  marshal_params (panic t) = panic t

  -- The function `tsg`: the generator's timestamp, or the current time.
  abbrev pub timestamp_of : Ctx → Option (Ctx → String) → Exec State String
  timestamp_of ctx (some tg) s = (ok (tg ctx), s)
  timestamp_of ctx none s = let (time, t) = m.now s in (ok time, t)

  abbrev url_text : Option String → String
  url_text none = ""
  url_text (some url) = url

  abbrev pub concrete_options : RequestOptions → Bytes → String → ConcreteRequestOptions
  concrete_options opt params timestamp = record {
    headers = opt.headers;
    endpoint = opt.endpoint;
    id = opt.id;
    auth_token = opt.auth_token;
    params = params;
    transient = opt.transient;
    timestamp = timestamp;
    msp_filter = opt.msp_filter;
    min_endorsers = opt.min_endorsers;
    creator = opt.creator;
    dependent_tx_id = opt.dependent_tx_id;
    disable_write_polling = opt.disable_write_polling;
    cc_fetch_url_downgrade = opt.cc_fetch_url_downgrade;
    cc_fetch_url_proxy = url_text opt.cc_fetch_url_proxy;
    dependent_block = opt.dependent_block;
    phylum_version = opt.phylum_version;
    new_phylum_version = opt.new_phylum_version;
  }

  unfoldable pub drawn_options : List Config → Exec State RequestOptions
  drawn_options configs s = let (uuid, t) = m.new_uuid s in (options_of configs uuid, t)

  unfoldable pub flatten : MockShiroClient → Ctx → List Config → Exec State ConcreteRequestOptions
  unfolding drawn_options
  flatten c ctx configs = do
    opt ← drawn_options (c.base_config ++ configs)
    params ← lift (marshal_params opt.params)
    timestamp ← timestamp_of ctx opt.timestamp_generator
    pure (concrete_options opt params timestamp)

  unfoldable pub seed : MockShiroClient → Ctx → String → List Config → Exec State (Unit {0})
  seed c ctx version configs = raise (errors_new "Seed(...) is not supported")

  unfoldable pub shiro_phylum : MockShiroClient → Ctx → List Config → Exec State String
  shiro_phylum c ctx configs = pure c.mock_phylum

  unfoldable pub init : MockShiroClient → Ctx → String → List Config → Exec State (Unit {0})
  init c ctx phylum configs = do
    cro ← flatten c ctx configs
    (get_substrate m.text_of h c.conn).init c.tag phylum cro

  -- A nil response is dereferenced.
  unfoldable pub call_response : Option Response → Result ShiroResponse
  call_response none = panic "nil pointer dereference"
  call_response (some resp) = ok (
      if resp.has_error
      then new_failure_response resp.error_code resp.error_message resp.error_json
      else new_success_response resp.result_json resp.transaction_id 0 0)

  unfoldable pub call : MockShiroClient → Ctx → String → List Config → Exec State ShiroResponse
  unfolding call_response
  call c ctx method configs = do
    cro ← flatten c ctx configs
    resp ← (get_substrate m.text_of h c.conn).call c.tag method cro
    lift (call_response resp)

  unfoldable pub query_info : MockShiroClient → Ctx → List Config → Exec State ℕ
  query_info c ctx configs = do
    cro ← flatten c ctx configs
    (get_substrate m.text_of h c.conn).query_info c.tag cro

  abbrev block_transaction : Transaction → Chain.Transaction
  block_transaction tx = new_transaction tx.id tx.reason tx.event tx.chaincode_id

  unfoldable pub block_of : Option Block → Result Chain.Block
  block_of none = panic "nil pointer dereference"
  block_of (some blk) = ok (new_block blk.hash (map block_transaction blk.transactions))

  unfoldable pub query_block : MockShiroClient → Ctx → ℕ → List Config → Exec State Chain.Block
  unfolding block_of
  query_block c ctx block_number configs = do
    cro ← flatten c ctx configs
    blk ← (get_substrate m.text_of h c.conn).query_block c.tag block_number cro
    lift (block_of blk)

  -- `Snapshot`, to the writer of that number.
  unfoldable pub snapshot : MockShiroClient → ℕ → Exec State (Unit {0})
  snapshot c w = do bytes ← (get_substrate m.text_of h c.conn).snapshot_mock c.tag; m.write w bytes

  unfoldable pub set_creator_with_attributes :
      MockShiroClient → String → Dict String → Exec State (Unit {0})
  set_creator_with_attributes c creator attrs =
      (get_substrate m.text_of h c.conn).set_creator_with_attributes_mock c.tag creator attrs

  -- Of two errors, that of the mock is returned.
  abbrev close_result : Result (Unit {0}) → Result (Unit {0}) → Result (Unit {0})
  close_result (err e) err_plugin = err (wrapped "failed to close mock client: " e)
  close_result _ err_plugin = wrap_err "failed to close plugin: " err_plugin

  abbrev pub close_plugin : MockShiroClient → Result (Unit {0}) → Exec State (Unit {0})
  close_plugin c (panic t) s = (panic t, s)
  close_plugin c err_mock s =
      let (err_plugin, t) = close_connection m.text_of h c.conn s in
      (close_result err_mock err_plugin, t)

  unfoldable pub close : MockShiroClient → Exec State (Unit {0})
  close c s =
      let (err_mock, t) = (get_substrate m.text_of h c.conn).close_mock c.tag s in
      close_plugin c err_mock t

  -- The mock client as an implementation of the interface `ShiroClient`.
  abbrev pub mock_shiro_client : MockShiroClient → ShiroClient
  mock_shiro_client c = record {
    State = State;
    seed = seed c;
    shiro_phylum = shiro_phylum c;
    init = init c;
    call = call c;
    query_info = query_info c;
    query_block = query_block c;
  }
