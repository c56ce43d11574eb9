-- ===== src/Update.antt =====
-- shiroclient/update/update.go: the phylum versions installed on substrate, over any client.
pub mod Laws
pub mod OverRpc
use shiroclient_sdk_go.Prelude.{String, Option, none, some, List, [], ◌∷◌, ◌++◌, Bytes}
use shiroclient_sdk_go.Errors.{FailureError, Result, ok, err, errors_new}
use shiroclient_sdk_go.Exec.{Exec, lift, ◌>>=◌}
use shiroclient_sdk_go.Json.{Value, strings}
use shiroclient_sdk_go.Types.{ShiroClient}
use shiroclient_sdk_go.Types.Options.{Ctx, Config, opt}
use shiroclient_sdk_go.Types.Response.{ShiroResponse, Dst, response_error, unmarshal_to}
use shiroclient_sdk_go.Configs.{with_params}
use shiroclient_sdk_go.Platform.{Platform}

abbrev pub get_phyla_method : String
get_phyla_method = "get_phyla"

abbrev pub update_method : String
update_method = "update"

abbrev pub enable_method : String
enable_method = "enable"

abbrev pub disable_method : String
disable_method = "disable"

abbrev pub latest_phylum_version : String
latest_phylum_version = "latest"

abbrev pub status_in_service : String
status_in_service = "IN_SERVICE"

abbrev pub status_disabled : String
status_disabled = "DISABLED"

pub record PhylumSettings : Type 0 where
  pub fingerprint : String
  pub init_timestamp : String
  pub phylum_id : String
  pub status : String

pub record Phyla : Type 0 where
  pub phyla : List PhylumSettings

-- `withNewPhylumVersion`
unfoldable pub with_new_phylum_version : String → Config
with_new_phylum_version version = opt λ r. record r { new_phylum_version = version }

module _ (p : Platform) where
  -- `if resp.Error() != nil { return fmt.Errorf(resp.Error().Message()) }`: the message is the
  -- format.
  unfoldable pub accept : ShiroResponse → Result ShiroResponse
  accept resp = elim (response_error resp) [
    | none ↦ ok resp
    | some e ↦ err (errors_new (p.sprintf e.message))
  ]

  module _ (client : ShiroClient) where
    open client use {State}

    -- A call whose response is only looked at for an error.
    unfoldable pub call_accept : Ctx → String → List Config → Exec State ShiroResponse
    unfolding accept
    call_accept ctx method configs = do resp ← client.call ctx method configs; lift (accept resp)

    unfoldable pub get_phyla : Dst Phyla → Ctx → List Config → Exec State Phyla
    get_phyla dst ctx configs = do
      resp ← call_accept ctx get_phyla_method (configs ++ with_params (ok (strings ("" ∷ []))) ∷ [])
      lift (unmarshal_to resp dst)

    unfoldable pub enable : Ctx → String → List Config → Exec State (Unit {0})
    enable ctx version configs = do
      _ ← call_accept ctx enable_method (configs ++ with_params (ok (strings (version ∷ []))) ∷ [])
      lift (ok tt)

    unfoldable pub disable : Ctx → String → List Config → Exec State (Unit {0})
    disable ctx version configs = do
      _ ← call_accept ctx disable_method (configs ++ with_params (ok (strings (version ∷ []))) ∷ [])
      lift (ok tt)

    -- `Install`: its own configs go before the caller's.
    unfoldable pub install : Ctx → String → Bytes → List Config → Exec State (Unit {0})
    install ctx version phylum client_configs = do
      _ ← call_accept ctx update_method (
          with_params (ok (strings (p.base64_encode phylum ∷ [])))
          ∷ with_new_phylum_version version
          ∷ client_configs)
      lift (ok tt)
