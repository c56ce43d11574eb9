-- ===== src/Types/Options.antt =====
-- internal/types/types.go: `RequestOptions`, `Config`, `Opt` and `ApplyConfigs`.
use shiroclient_sdk_go.Prelude.{ℕ, String, Bool, false, Option, none, List, [], ◌∷◌, Bytes}
use shiroclient_sdk_go.Prelude.Int.{ℤ, pos}
use shiroclient_sdk_go.Prelude.Dict.{Dict}
use shiroclient_sdk_go.Errors.{Result, ok}
use shiroclient_sdk_go.Json.{Value, null}

-- A handle for a `context.Context`: what the code learns of one, it asks of its environment.
pub record Ctx : Type 0 where
  pub handle : ℕ

-- `params` is what `json.Marshal` makes of the Go value, which may be an error. A logger, an HTTP
-- client, a target cell and a receiver are known by a number, a proxy URL by its text.
pub record RequestOptions : Type 0 where
  pub params : Result Value
  pub target : Option ℕ
  pub log : Option ℕ
  pub log_fields : Dict Value
  pub headers : Dict String
  pub cc_fetch_url_proxy : Option String
  pub http_client : Option ℕ
  pub timestamp_generator : Option (Ctx → String)
  pub transient : Dict Bytes
  pub id : String
  pub endpoint : String
  pub new_phylum_version : String
  pub phylum_version : String
  pub dependent_block : String
  pub auth_token : String
  pub creator : String
  pub dependent_tx_id : String
  pub not_target_endpoints : List String
  pub target_endpoints : List String
  pub msp_filter : List String
  pub min_endorsers : ℤ
  pub disable_write_polling : Bool
  pub cc_fetch_url_downgrade : Bool
  pub response_receiver : Option ℕ

-- The address of a `*standardConfig`: that of a package's one singleton, or of another object.
pub data Ptr : Type 0 where
  allocated : Ptr
  skip_encode_ptr : Ptr

pub data Config : Type 0 where
  standard_config : Ptr → (RequestOptions → RequestOptions) → Config

-- `config.Fn(r)`
abbrev pub fn : Config → RequestOptions → RequestOptions
fn (standard_config ptr f) r = f r

-- `Opt(fn)`
abbrev pub opt : (RequestOptions → RequestOptions) → Config
opt f = standard_config allocated f

-- The options before any config: the zero values, empty maps, the logger and the random ID.
abbrev pub base_options : String → Option ℕ → RequestOptions
base_options uuid log = record {
  params = ok null;
  target = none;
  log = log;
  log_fields = [];
  headers = [];
  cc_fetch_url_proxy = none;
  http_client = none;
  timestamp_generator = none;
  transient = [];
  id = uuid;
  endpoint = "";
  new_phylum_version = "";
  phylum_version = "";
  dependent_block = "";
  auth_token = "";
  creator = "";
  dependent_tx_id = "";
  not_target_endpoints = [];
  target_endpoints = [];
  msp_filter = [];
  min_endorsers = pos 0;
  disable_write_polling = false;
  cc_fetch_url_downgrade = false;
  response_receiver = none;
}

-- `for _, config := range configs { config.Fn(opt) }`
unfoldable pub run_configs : List Config → RequestOptions → RequestOptions
run_configs [] r = r
run_configs (c ∷ cs) r = run_configs cs (fn c r)

-- `ApplyConfigs`. The random ID is an argument; where there is none the source panics.
unfoldable pub apply_configs : String → Option ℕ → List Config → RequestOptions
unfolding run_configs
apply_configs uuid log configs = run_configs configs (base_options uuid log)
