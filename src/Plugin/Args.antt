-- ===== src/Plugin/Args.antt =====
-- x/plugin/args.go: how the plugin reads configs.
use shiroclient_sdk_go.Prelude.{String, Bool, Option, none, List, Bytes}
use shiroclient_sdk_go.Prelude.Dict.{Dict}
use shiroclient_sdk_go.Errors.{Result}
use shiroclient_sdk_go.Json.{Value}
use shiroclient_sdk_go.Types.Options.{Ctx, Config, RequestOptions, apply_configs}

pub record PluginArgs : Type 0 where
  pub ro : RequestOptions

-- `PluginArgs(configs)`: no logger. The random ID is an argument.
unfoldable pub plugin_args : String → List Config → PluginArgs
plugin_args uuid configs = record { ro = apply_configs uuid none configs }

abbrev pub plugin_id : PluginArgs → String
plugin_id p = p.ro.id

abbrev pub plugin_timestamp_generator : PluginArgs → Option (Ctx → String)
plugin_timestamp_generator p = p.ro.timestamp_generator

abbrev pub plugin_log_fields : PluginArgs → Dict Value
plugin_log_fields p = p.ro.log_fields

abbrev pub plugin_auth_token : PluginArgs → String
plugin_auth_token p = p.ro.auth_token

abbrev pub plugin_creator : PluginArgs → String
plugin_creator p = p.ro.creator

abbrev pub plugin_params : PluginArgs → Result Value
plugin_params p = p.ro.params

abbrev pub plugin_transient : PluginArgs → Dict Bytes
plugin_transient p = p.ro.transient

abbrev pub plugin_cc_fetch_url_downgrade : PluginArgs → Bool
plugin_cc_fetch_url_downgrade p = p.ro.cc_fetch_url_downgrade

abbrev pub plugin_cc_fetch_url_proxy : PluginArgs → Option String
plugin_cc_fetch_url_proxy p = p.ro.cc_fetch_url_proxy

abbrev pub plugin_phylum_version : PluginArgs → String
plugin_phylum_version p = p.ro.phylum_version

abbrev pub plugin_new_phylum_version : PluginArgs → String
plugin_new_phylum_version p = p.ro.new_phylum_version
