-- ===== src/Mock/Options.antt =====
-- shiroclient/mock/option.go and internal/mockint/mockint.go: the options of a mock client.
use shiroclient_sdk_go.Prelude.{ℕ, String, Option, some, none, List, [], ◌∷◌, if◌then◌else◌}
use shiroclient_sdk_go.Prelude.Int.{ℤ, pos, ◌==ℤ◌}
use shiroclient_sdk_go.Plugin.Connection.{
  HclogLevel, hclog_debug, hclog_info, hclog_warn, hclog_error, hclog_default,
}

abbrev pub default_plugin_env : String
default_plugin_env = "SUBSTRATEHCP_FILE"

abbrev pub phylum_name : String
phylum_name = "test"

abbrev pub phylum_version : String
phylum_version = "test"

-- The values of `LogLevel`; any other integer is one too.
abbrev pub LogLevel : Type 0
LogLevel = ℤ

abbrev pub debug : LogLevel
debug = pos 0

abbrev pub info : LogLevel
info = pos 1

abbrev pub warn : LogLevel
warn = pos 2

abbrev pub error : LogLevel
error = pos 3

-- `mockint.Config`. A writer or a reader is known by a number.
pub record MockConfig : Type 0 where
  pub plugin_path : String
  pub log_writer : Option ℕ
  pub log_level : LogLevel
  pub snapshot_reader : Option ℕ

-- `mock.Option`
abbrev pub MockOption : Type 0
MockOption = MockConfig → MockConfig

unfoldable pub with_plugin_path : String → MockOption
with_plugin_path path config = record config { plugin_path = path }

unfoldable pub with_log_writer : Option ℕ → MockOption
with_log_writer w config = record config { log_writer = w }

unfoldable pub with_log_level : LogLevel → MockOption
with_log_level level config = record config { log_level = level }

unfoldable pub with_snapshot_reader : Option ℕ → MockOption
with_snapshot_reader r config = record config { snapshot_reader = r }

-- The number of `os.Stdout`.
abbrev pub stdout : ℕ
stdout = 1

unfoldable pub run_mock_options : List MockOption → MockConfig → MockConfig
run_mock_options [] config = config
run_mock_options (opt ∷ opts) config = run_mock_options opts (opt config)

-- The configuration at the start of `NewMock`, after its loop over the options.
unfoldable pub mock_config : List MockOption → MockConfig
unfolding run_mock_options
mock_config opts = run_mock_options opts (record {
  plugin_path = "";
  log_writer = some stdout;
  log_level = debug;
  snapshot_reader = none;
})

unfoldable pub hcp_log_level : LogLevel → HclogLevel
hcp_log_level mock_level =
    if mock_level ==ℤ debug
    then hclog_debug
    else if mock_level ==ℤ info
    then hclog_info
    else if mock_level ==ℤ warn
    then hclog_warn
    else if mock_level ==ℤ error
    then hclog_error
    else hclog_default
