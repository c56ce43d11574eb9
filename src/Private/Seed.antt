-- ===== src/Private/Seed.antt =====
-- shiroclient/private/private.go: seeds, the skip-encode singleton, and the configs of an encode.
use shiroclient_sdk_go.Prelude.{
  ℕ, String, Bool, true, false, ◌||◌, Option, none, some, List, [], ◌∷◌, Bytes,
}
use shiroclient_sdk_go.Errors.{Result, ok}
use shiroclient_sdk_go.Exec.{Exec, pure, lift, ◌>>=◌}
use shiroclient_sdk_go.Json.{Value, null, arr, of_elems}
use shiroclient_sdk_go.Errors
use shiroclient_sdk_go.Types.Options.{Config, standard_config, Ptr, allocated, skip_encode_ptr}
use shiroclient_sdk_go.Configs.{with_params, with_transient_data}
use shiroclient_sdk_go.Platform.{Platform}
use shiroclient_sdk_go.Private.Message.{EncodeRequest, encode_request_value}

abbrev pub hkdf_seed_size : ℕ
hkdf_seed_size = 32

abbrev pub seed_key : String
seed_key = "csprng_seed_private"

abbrev pub mxf_key : String
mxf_key = "mxf"

-- The default `SeedGen`; `read` fills a buffer of the given size with random bytes.
unfoldable pub default_seed_gen : {S : Type 0} → (ℕ → Exec S Bytes) → Exec S Bytes
default_seed_gen read = read hkdf_seed_size

-- `skipEncodeConfig`: a singleton of this package, which changes nothing.
abbrev pub skip_encode_config : Config
skip_encode_config = standard_config skip_encode_ptr λ r. r

-- `WithSkipEncodeTx`
abbrev pub with_skip_encode_tx : Config
with_skip_encode_tx = skip_encode_config

-- `config == skipEncodeConfig` compares addresses.
abbrev is_skip_encode_ptr : Ptr → Bool
is_skip_encode_ptr skip_encode_ptr = true
is_skip_encode_ptr allocated = false

abbrev pub is_skip_encode : Config → Bool
is_skip_encode (standard_config ptr f) = is_skip_encode_ptr ptr

unfoldable pub do_skip_encode_tx : List Config → Bool
do_skip_encode_tx [] = false
do_skip_encode_tx (c ∷ cs) = is_skip_encode c || do_skip_encode_tx cs

-- `withParam`: the parameters are an array of one element.
unfoldable pub with_param : Result Value → Config
with_param arg = with_params (Errors.◌>>=◌ arg λ v. ok (arr (of_elems (v ∷ []))))

module _ (p : Platform) {S : Type 0} (seed_gen : Exec S Bytes) where
  unfoldable pub with_seed : Exec S Config
  with_seed = do seed ← seed_gen; pure (with_transient_data seed_key seed)

  abbrev or_empty_request : Option EncodeRequest → EncodeRequest
  or_empty_request none = record { message = ok null; transforms = [] }
  or_empty_request (some req) = req

  unfoldable pub with_transient_mxf : Option EncodeRequest → Exec S (List Config)
  with_transient_mxf req = do
    seed_config ← with_seed
    v ← lift (encode_request_value (or_empty_request req))
    pure (seed_config ∷ with_transient_data mxf_key (p.json_marshal v) ∷ [])
