-- ===== src/Rpc/Reply/Laws.antt =====
-- Which values decode to a reply, and which errors are timeouts.
use shiroclient_sdk_go.Prelude.{
  String, true, Option, none, some, List, [], ◌∷◌, ◌≡◌, ◌↔◌, refl, arith, eq_iff,
}
use shiroclient_sdk_go.Prelude.Int.{pos}
use shiroclient_sdk_go.Prelude.Dict.{Dict, lookup}
use shiroclient_sdk_go.Errors.{Error, ok, wrapped}
use shiroclient_sdk_go.Json.{Value, num, str, as_object, as_string, as_float}
use shiroclient_sdk_go.Json.Float.{Float64, of_ℕ}
use shiroclient_sdk_go.Platform.{Platform}
use shiroclient_sdk_go.Rpc.Numbers.{convert_to_uint64, int_of_float, decoded}
use shiroclient_sdk_go.Rpc.Reply.{
  Rpcres, or_null, or_empty, at, decode_reply, sc_error_of, get_shiro_client_error,
  is_timeout_error,
}

abbrev some_or {ℓ} : {A : Type ℓ} → A → Option A → A
some_or d none = d
some_or d (some a) = a

module _ (p : Platform) where
  -- `v` is a reply that says `r`: a JSON-RPC 2.0 object whose "result" is an object with a numeric
  -- level and the four other fields. The transaction and block numbers are optional.
  pub record IsReply (v : Value) (r : Rpcres) : Type 0 where
    pub outer : Dict Value
    pub body : Value
    pub inner : Dict Value
    pub level : Float64
    pub is_object : as_object v ≡ some outer
    pub version : lookup "jsonrpc" outer ≡ some (str "2.0")
    pub has_body : lookup "result" outer ≡ some body
    pub body_is_object : as_object body ≡ some inner
    pub has_level : lookup "error_level" inner ≡ some (num level)
    pub has_result : lookup "result" inner ≡ some r.result
    pub has_code : lookup "code" inner ≡ some r.code
    pub has_message : lookup "message" inner ≡ some r.message
    pub has_details : lookup "data" inner ≡ some r.details
    pub level_eq : r.error_level ≡ int_of_float p level
    pub tx_id_eq : r.tx_id ≡ or_empty (as_string (at outer "$commit_tx_id"))
    pub com_eq : r.com_block_num ≡ (convert_to_uint64 p (decoded (at outer "$com_block_num"))).0
    pub sim_eq : r.sim_block_num ≡ (convert_to_uint64 p (decoded (at outer "$sim_block_num"))).0

  outer_of : Value → Dict Value
  outer_of v = some_or [] (as_object v)

  version_of : Value → String
  unfolding outer_of
  version_of v = or_empty (as_string (or_null (lookup "jsonrpc" (outer_of v))))

  body_of : Value → Value
  unfolding outer_of
  body_of v = or_null (lookup "result" (outer_of v))

  inner_of : Value → Dict Value
  unfolding body_of
  inner_of v = some_or [] (as_object (body_of v))

  level_in : Value → Float64
  unfolding inner_of
  level_in v = some_or (of_ℕ 0) (as_float (or_null (lookup "error_level" (inner_of v))))

  decode_reply-IsReply : (v : Value) (r : Rpcres) → decode_reply p v ≡ ok r → IsReply v r
  unfolding decode_reply level_in version_of
  decode_reply-IsReply v r h = record {
    outer = outer_of v;
    body = body_of v;
    inner = inner_of v;
    level = level_in v;
    is_object = ground arith;
    version = ground (arith, eq_iff (version_of v) "2.0");
    has_body = ground arith;
    body_is_object = ground arith;
    has_level = ground arith;
    has_result = ground arith;
    has_code = ground arith;
    has_message = ground arith;
    has_details = ground arith;
    level_eq = ground arith;
    tx_id_eq = ground arith;
    com_eq = ground arith;
    sim_eq = ground arith;
  }

  IsReply-decode_reply : (v : Value) (r : Rpcres) → IsReply v r → decode_reply p v ≡ ok r
  unfolding decode_reply
  IsReply-decode_reply v r h =
      rw
        (
          h.is_object, h.version, h.has_body, h.body_is_object, h.has_level, h.has_result,
          h.has_code, h.has_message, h.has_details,
        )
        (ground arith)

  -- `reqres` accepts exactly the replies of that form, and reads each field from its place.
  pub decode_reply_iff : (v : Value) (r : Rpcres) → (decode_reply p v ≡ ok r) ↔ IsReply v r
  decode_reply_iff v r = (decode_reply-IsReply v r, IsReply-decode_reply v r)

  -- `code, _ := r.code.(float64)` gives 1.
  abbrev pub SaysTimeout : Rpcres → Type 0
  SaysTimeout r =
      (message : String) × (code : Float64) × (r.message ≡ str message)
      × (r.code ≡ num code)
      × (int_of_float p code ≡ pos 1)

-- `fmt.Errorf` with %w, as many times as there are prefixes.
abbrev pub wrap_all : List String → Error → Error
wrap_all [] e = e
wrap_all (prefix ∷ rest) e = wrapped prefix (wrap_all rest e)

pub is_timeout_error-wrap_all :
    (prefixes : List String) (e : Error)
    → is_timeout_error (wrap_all prefixes e) ≡ is_timeout_error e
unfolding is_timeout_error
is_timeout_error-wrap_all [] e = refl
is_timeout_error-wrap_all (prefix ∷ rest) e = is_timeout_error-wrap_all rest e

module _ (p : Platform) where
  timeout_of :
      (r : Rpcres) (c m : Value)
      → r.code ≡ c
      → r.message ≡ m
      → is_timeout_error (sc_error_of p c m) ≡ true
      → SaysTimeout p r
  unfolding is_timeout_error sc_error_of
  timeout_of r (num c) (str m) ec em h = (m, c, em, ec, ground arith)
  timeout_of r _ (str m) ec em h = cc
  timeout_of r _ _ ec em h = cc

  says_timeout :
      (r : Rpcres) → is_timeout_error (get_shiro_client_error p r) ≡ true → SaysTimeout p r
  unfolding get_shiro_client_error
  says_timeout r h = timeout_of r r.code r.message refl refl h

  timeout_said :
      (r : Rpcres) → SaysTimeout p r → is_timeout_error (get_shiro_client_error p r) ≡ true
  unfolding is_timeout_error get_shiro_client_error
  timeout_said r (message, code, em, ec, e) = rw (em, ec, e)

  -- A reply's client error, wrapped with %w however often, is a timeout for `IsTimeoutError`
  -- exactly if the reply has a text message and the numeric code 1.
  pub timeout_iff :
      (prefixes : List String) (r : Rpcres)
      → (is_timeout_error (wrap_all prefixes (get_shiro_client_error p r)) ≡ true) ↔ SaysTimeout p r
  timeout_iff prefixes r = rw is_timeout_error-wrap_all (says_timeout r, timeout_said r)
