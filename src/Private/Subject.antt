-- ===== src/Private/Subject.antt =====
-- shiroclient/private/private.go: `Export`, `Purge` and `ProfileToDSID`.
pub mod Laws
pub mod Sent
use shiroclient_sdk_go.Prelude.{
  String, Bool, List, [], ◌∷◌, ◌++◌, Bytes, concat, ◌==◌, if◌then◌else◌,
}
use shiroclient_sdk_go.Prelude.Dict.{Dict}
use shiroclient_sdk_go.Errors.{Result, ok, errors_new}
use shiroclient_sdk_go.Exec.{Exec, pure, raise, lift, ◌>>=◌}
use shiroclient_sdk_go.Json.{Value, str}
use shiroclient_sdk_go.Types.{ShiroClient}
use shiroclient_sdk_go.Types.Options.{Ctx, Config}
use shiroclient_sdk_go.Types.Response.{Dst, unmarshal_to}
use shiroclient_sdk_go.Platform.{Platform}
use shiroclient_sdk_go.Update.{call_accept}
use shiroclient_sdk_go.Private.Seed.{with_param, with_seed}

abbrev pub shiro_endpoint_purge : String
shiro_endpoint_purge = "private_purge"

abbrev pub shiro_endpoint_export : String
shiro_endpoint_export = "private_export"

abbrev pub shiro_endpoint_profile_to_dsid : String
shiro_endpoint_profile_to_dsid = "private_get_dsid"

module _ (p : Platform) (client : ShiroClient) where
  open client use {State}

  abbrev expect_dsid : String → Exec State (Unit {0})
  expect_dsid dsid = if dsid == "" then raise (errors_new "invalid empty DSID") else pure tt

  unfoldable pub export : Dst (Dict Value) → Ctx → String → List Config → Exec State (Dict Value)
  export dst ctx dsid configs = do
    _ ← expect_dsid dsid
    resp ←
        call_accept p client ctx shiro_endpoint_export (configs ++ with_param (ok (str dsid)) ∷ [])
    lift (unmarshal_to resp dst)

  abbrev expect_same : String → String → Exec State (Unit {0})
  expect_same got dsid =
      if got == dsid
      then pure tt
      else raise (
          errors_new
            (concat ("unexpected response from purge: got " ∷ got ∷ " != expected " ∷ dsid ∷ [])))

  unfoldable pub purge :
      Exec State Bytes → Dst String → Ctx → String → List Config → Exec State (Unit {0})
  purge seed_gen dst ctx dsid configs = do
    _ ← expect_dsid dsid
    seed_config ← with_seed p seed_gen
    resp ←
        call_accept p client ctx shiro_endpoint_purge
          ((configs ++ with_param (ok (str dsid)) ∷ []) ++ seed_config ∷ [])
    got ← lift (unmarshal_to resp dst)
    expect_same got dsid

  unfoldable pub profile_to_dsid : Dst String → Ctx → Result Value → List Config → Exec State String
  profile_to_dsid dst ctx profile configs = do
    resp ←
        call_accept p client ctx shiro_endpoint_profile_to_dsid (configs ++ with_param profile ∷ [])
    lift (unmarshal_to resp dst)
