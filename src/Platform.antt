-- ===== src/Platform.antt =====
-- What the client asks of its environment: Go's codecs, the network, random IDs and trace headers.
use shiroclient_sdk_go.Prelude.{ℕ, String, Option, List, Bytes}
use shiroclient_sdk_go.Prelude.Int.{ℤ}
use shiroclient_sdk_go.Prelude.Dict.{Dict}
use shiroclient_sdk_go.Errors.{Error, Result}
use shiroclient_sdk_go.Json.{Value}
use shiroclient_sdk_go.Json.Float.{Float64}
use shiroclient_sdk_go.Types.Options.{Ctx}

pub record HttpRequest : Type 0 where
  pub method : String
  pub url : String
  pub headers : Dict String
  pub body : Bytes

-- A received response: what `io.ReadAll` and `Body.Close` return.
pub record HttpResponse : Type 0 where
  pub body : Bytes
  pub read_err : Option Error
  pub close_err : Option Error

-- What `httpClient.Do` returns.
pub data Fetch : Type 0 where
  do_failed : Error → Fetch
  responded : HttpResponse → Fetch

-- Which case of the `select` fires.
pub data Arrival : Type 0 where
  ctx_done result_received : Arrival

-- One run of the goroutine beside its caller: `ctx_err` is `ctx.Err()` when the `select` has fired.
pub record Exchange : Type 0 where
  pub fetch : Fetch
  pub arrival : Arrival
  pub ctx_err : Option Error

-- A parsed URL: the parts that the code reads or writes, and the rest.
pub record Url : Type 0 where
  pub origin : String
  pub path : String
  pub raw_query : String

-- The struct that `unmarshalHealthResponse` decodes into.
pub record HealthBody : Type 0 where
  pub reports : List Value
  pub exception : Option Bytes

pub record Platform : Type 1 where
  pub World : Type 0
  -- `json.Marshal` and `json.Unmarshal` at `interface{}`
  pub json_marshal : Value → Bytes
  pub json_unmarshal : Bytes → Result Value
  -- `json.Unmarshal` into that struct
  pub json_unmarshal_health : Bytes → Result HealthBody
  -- `string(bytes)`, and `fmt.Errorf(s)` with `s` for the format and no argument
  pub text_of : Bytes → String
  pub sprintf : String → String
  -- `base64.StdEncoding`
  pub base64_encode : Bytes → String
  pub base64_decode : String → Option Bytes
  -- the conversions of a `float64` that the language leaves to the implementation
  pub int_out_of_range : Float64 → ℤ
  pub uint64_out_of_range : Float64 → ℕ
  -- `http.NewRequest` refuses some URLs; `Header.Set` brings a key into its canonical form
  pub new_request_err : String → Option Error
  pub canonical_header : String → String
  -- the trace headers of the context
  pub inject : Ctx → Dict String → Dict String
  -- `url.Parse`, `u.String()`, `url.ParseQuery`, `path.Join`, `url.QueryEscape`
  pub parse_url : String → Result Url
  pub url_string : Url → String
  pub parse_query_err : String → Option Error
  pub path_join : String → String → String
  pub query_escape : String → String
  -- `uuid.NewRandom`, and one HTTP request by the given client in the given context
  pub new_uuid : World → Result String × World
  pub exchange : Ctx → Option ℕ → HttpRequest → World → Exchange × World
