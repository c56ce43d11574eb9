-- ===== src/Tests/PluginTests.antt =====
-- The plugin connection over an implementation whose calls fail.
use shiroclient_sdk_go.Prelude.{String, List, [], ◌∷◌, ◌++◌, none, ◌≡◌}
use shiroclient_sdk_go.Errors.{ok, err, errors_new}
use shiroclient_sdk_go.Plugin.Substrate.{Substrate}
use shiroclient_sdk_go.Plugin.Rpc.{plugin_rpc, server}
use shiroclient_sdk_go.Plugin.Refinement.{seen_by_host, plugin_rpc-refines}

abbrev failing_substrate : Substrate
failing_substrate = record {
  State = List String;
  health_check = λ nat s. (err (errors_new "down"), s);
  new_mock_from = λ name version snapshot s. (ok "tag", s ++ name ∷ []);
  set_creator_with_attributes_mock = λ tag creator attrs s. (ok tt, s);
  snapshot_mock = λ tag s. (ok [], s);
  close_mock = λ tag s. (ok tt, s);
  init = λ tag phylum options s. (ok tt, s);
  call = λ tag command options s. (err (errors_new "no such command"), s ++ command ∷ []);
  query_info = λ tag options s. (ok 3, s);
  query_block = λ tag height options s. (ok none, s);
}

plugin_rpc-refines_example :
    plugin_rpc (server (λ b. "") failing_substrate) ≡ seen_by_host (λ b. "") failing_substrate
plugin_rpc-refines_example = plugin_rpc-refines (λ b. "") failing_substrate
