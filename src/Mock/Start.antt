-- ===== src/Mock/Start.antt =====
-- internal/mock/shiroclient.go: `NewMock`.
use shiroclient_sdk_go.Prelude.{
  ℕ, String, Option, some, none, List, [], ◌∷◌, Bytes, concat, ◌==◌, if◌then◌else◌,
}
use shiroclient_sdk_go.Errors.{errors_new}
use shiroclient_sdk_go.Exec.{Exec, pure, raise, wrap_exec, ◌>>=◌}
use shiroclient_sdk_go.Types.Options.{Config}
use shiroclient_sdk_go.Plugin.Connection.{
  Host, SubstrateConnection, ConnectOption, connect_with_command, connect_with_log_level,
  connect_with_attach_stdamp, new_substrate_connection, get_substrate,
}
use shiroclient_sdk_go.Mock.Options.{
  MockConfig, MockOption, mock_config, hcp_log_level, default_plugin_env, phylum_name,
  phylum_version,
}
use shiroclient_sdk_go.Mock.{Machine, MockShiroClient}

module _ (h : Host) (m : Machine h.State) where
  open h use {State}

  -- The path of the plugin: the option's, or that of the environment.
  abbrev non_empty : String → Exec State String
  non_empty path =
      if path == ""
      then raise (errors_new (concat (default_plugin_env ∷ " not found in environment" ∷ [])))
      else pure path

  abbrev environment_path : Exec State String
  environment_path s = non_empty (m.getenv default_plugin_env s) s

  unfoldable pub plugin_path : MockConfig → Exec State String
  plugin_path config =
      if config.plugin_path == "" then environment_path else pure config.plugin_path

  unfoldable pub read_snapshot : Option ℕ → Exec State Bytes
  read_snapshot none = pure []
  read_snapshot (some r) = wrap_exec "failed to read snapshot: " (m.read_all r)

  abbrev pub plugin_options : MockConfig → String → List ConnectOption
  plugin_options config path =
      connect_with_command path
      ∷ connect_with_log_level (hcp_log_level config.log_level)
      ∷ connect_with_attach_stdamp config.log_writer
      ∷ []

  -- `NewMock`, after the process has been started.
  unfoldable pub mock_on :
      List Config → MockConfig → SubstrateConnection m.text_of h → Exec State (MockShiroClient h m)
  unfolding read_snapshot
  mock_on client_configs config conn = do
    snapshot ← read_snapshot config.snapshot_reader
    tag ←
        wrap_exec "failed to create mock client: "
          ((get_substrate m.text_of h conn).new_mock_from phylum_name phylum_version snapshot)
    pure
        (record { base_config = client_configs; conn = conn; tag = tag; mock_phylum = phylum_name })

  unfoldable pub new_mock : List Config → List MockOption → Exec State (MockShiroClient h m)
  unfolding plugin_path mock_on
  new_mock client_configs opts = do
    path ← plugin_path (mock_config opts)
    conn ←
        wrap_exec "unable to connect to plugin: "
          (new_substrate_connection m.text_of h (plugin_options (mock_config opts) path))
    mock_on client_configs (mock_config opts) conn
