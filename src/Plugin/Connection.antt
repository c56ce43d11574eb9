-- ===== src/Plugin/Connection.antt =====
-- x/plugin/plugin.go: the plugin process, and the host's connection to it.
use shiroclient_sdk_go.Prelude.{ℕ, String, Option, none, List, [], ◌∷◌, Bytes}
use shiroclient_sdk_go.Errors.{Error, Result, ok, err, panic, error_text}
use shiroclient_sdk_go.Exec.{Exec, pure, lift, ◌>>=◌}
use shiroclient_sdk_go.Plugin.Substrate.{Response, Block, Substrate}
use shiroclient_sdk_go.Plugin.Rpc.{
  ArgsHealthCheck, ArgsNewMockFrom, ArgsSetCreatorWithAttributesMock, ArgsSnapshotMock,
  ArgsCloseMock, ArgsInit, ArgsCall, ArgsQueryInfo, ArgsQueryBlock, RespHealthCheck, Resp, Remote,
  server, plugin_rpc,
}

-- The levels of hashicorp's logger that the code names.
pub data HclogLevel : Type 0 where
  hclog_debug hclog_info hclog_warn hclog_error hclog_default : HclogLevel

pub record HandshakeConfig : Type 0 where
  pub protocol_version : ℕ
  pub magic_cookie_key : String
  pub magic_cookie_value : String

abbrev pub handshake_config : HandshakeConfig
handshake_config = record {
  protocol_version = 1;
  magic_cookie_key = "SUBSTRATEHCP1";
  magic_cookie_value = "substratehcp1";
}

-- The names of `pluginMap`, which holds a `Plugin` under its one name.
abbrev pub plugin_map : List String
plugin_map = "substrate" ∷ []

-- What `plugin.NewClient` is given. A writer is known by a number.
pub record ClientConfig : Type 0 where
  pub handshake : HandshakeConfig
  pub plugins : List String
  pub command : String
  pub log_level : HclogLevel
  pub stderr : Option ℕ
  pub sync_stdout : Option ℕ
  pub sync_stderr : Option ℕ

-- hashicorp's go-plugin and the operating system, over the state of everything outside this library.
-- A plugin process is known by a number.
pub record Host : Type 1 where
  pub State : Type 0
  -- `client.Client()`: it starts the process, and connects
  pub launch : ClientConfig → Exec State ℕ
  -- `rpcClient.Dispense(name)`, and `client.Kill()`
  pub dispense : ℕ → String → Exec State (Unit {0})
  pub kill : ℕ → State → State
  -- `client.Call("Plugin.<method>", args, &resp)` on the dispensed connection
  pub health_check : ℕ → ArgsHealthCheck → Exec State RespHealthCheck
  pub new_mock_from : ℕ → ArgsNewMockFrom → Exec State (Resp String)
  pub set_creator : ℕ → ArgsSetCreatorWithAttributesMock → Exec State (Resp (Unit {0}))
  pub snapshot_mock : ℕ → ArgsSnapshotMock → Exec State (Resp Bytes)
  pub close_mock : ℕ → ArgsCloseMock → Exec State (Resp (Unit {0}))
  pub init : ℕ → ArgsInit → Exec State (Resp (Unit {0}))
  pub call : ℕ → ArgsCall → Exec State (Resp (Option Response))
  pub query_info : ℕ → ArgsQueryInfo → Exec State (Resp ℕ)
  pub query_block : ℕ → ArgsQueryBlock → Exec State (Resp (Option Block))

-- `Plugin.Server` and `Plugin.Client`
abbrev pub plugin_server : (Bytes → String) → Substrate → Remote
plugin_server text_of impl = server text_of impl

abbrev pub plugin_client : Remote → Substrate
plugin_client remote = plugin_rpc remote

pub record ConnectOptions : Type 0 where
  pub level : HclogLevel
  pub command : String
  pub attach_stdamp : Option ℕ

-- An option sets fields, or returns an error.
abbrev pub ConnectOption : Type 0
ConnectOption = ConnectOptions → Result ConnectOptions

unfoldable pub connect_with_log_level : HclogLevel → ConnectOption
connect_with_log_level level co = ok (record co { level = level })

unfoldable pub connect_with_command : String → ConnectOption
connect_with_command command co = ok (record co { command = command })

unfoldable pub connect_with_attach_stdamp : Option ℕ → ConnectOption
connect_with_attach_stdamp attach_stdamp co = ok (record co { attach_stdamp = attach_stdamp })

module _ (text_of : Bytes → String) where
  -- `if err := opt(co); err != nil { panic(err) }`
  abbrev or_panic : Result ConnectOptions → Result ConnectOptions
  or_panic (ok co) = ok co
  or_panic (err e) = panic (error_text text_of e)
  or_panic (panic t) = panic t

  unfoldable pub run_connect_options : List ConnectOption → ConnectOptions → Result ConnectOptions
  run_connect_options [] co = ok co
  run_connect_options (opt ∷ opts) co =
      shiroclient_sdk_go.Errors.◌>>=◌ (or_panic (opt co)) (run_connect_options opts)

  -- `if err != nil { log.Fatal(err) }`: the process ends, which is a panic here.
  abbrev pub fatal : {A : Type 0} → Result A → Result A
  fatal (ok a) = ok a
  fatal (err e) = panic (error_text text_of e)
  fatal (panic t) = panic t

  abbrev pub fatally : {S A : Type 0} → Exec S A → Exec S A
  fatally m s = let (r, s') = m s in (fatal r, s')

  module _ (h : Host) where
    open h use {State}

    -- The far end of the connection to a process.
    abbrev pub far_end : ℕ → Remote
    far_end process = record {
      State = State;
      health_check = h.health_check process;
      new_mock_from = h.new_mock_from process;
      set_creator = h.set_creator process;
      snapshot_mock = h.snapshot_mock process;
      close_mock = h.close_mock process;
      init = h.init process;
      call = h.call process;
      query_info = h.query_info process;
      query_block = h.query_block process;
    }

    -- `SubstrateConnection`: its substrate is `GetSubstrate`.
    pub record SubstrateConnection : Type 0 where
      pub client : ℕ

    abbrev pub client_config : ConnectOptions → ClientConfig
    client_config co = record {
      handshake = handshake_config;
      plugins = plugin_map;
      command = co.command;
      log_level = co.level;
      stderr = co.attach_stdamp;
      sync_stdout = co.attach_stdamp;
      sync_stderr = co.attach_stdamp;
    }

    unfoldable pub new_substrate_connection : List ConnectOption → Exec State SubstrateConnection
    unfolding run_connect_options
    new_substrate_connection opts = do
      co ← lift (
          run_connect_options opts
            (record { level = hclog_debug; command = ""; attach_stdamp = none }))
      client ← fatally (h.launch (client_config co))
      _ ← fatally (h.dispense client "substrate")
      pure (record { client = client })

    abbrev pub get_substrate : SubstrateConnection → Substrate
    get_substrate conn = plugin_client (far_end conn.client)

    -- `Close`: it never fails.
    unfoldable pub close_connection : SubstrateConnection → Exec State (Unit {0})
    close_connection conn s = (ok tt, h.kill conn.client s)

    -- `Connect`: the function is given the substrate of the connection.
    unfoldable pub connect :
        (SubstrateConnection → Exec State (Unit {0})) → List ConnectOption → Exec State (Unit {0})
    unfolding new_substrate_connection close_connection
    connect user opts = do
      conn ← new_substrate_connection opts
      _ ← user conn
      close_connection conn
