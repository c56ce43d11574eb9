-- ===== src/Private/Message.antt =====
-- shiroclient/private/private.go: the exported types, their JSON, and `EncodedResponse`.
use shiroclient_sdk_go.Prelude.{
  String, Option, none, some, List, [], ◌∷◌, Bytes, map, ◌==◌, if◌then◌else◌,
}
use shiroclient_sdk_go.Errors.{Error, Result, ok, err, panic, errors_new, ◌>>=◌}
use shiroclient_sdk_go.Json.{Value, null, str, arr, obj, of_members, of_elems}
use shiroclient_sdk_go.Types.Response.{Dst, plain}

abbrev pub encryptor_none : String
encryptor_none = "none"

abbrev pub encryptor_aes256 : String
encryptor_aes256 = "AES-256"

abbrev pub compressor_none : String
compressor_none = "none"

abbrev pub compressor_zlib : String
compressor_zlib = "zlib"

pub record TransformHeader : Type 0 where
  pub profile_paths : List String
  pub private_paths : List String
  pub encryptor : String
  pub compressor : String

pub record TransformBody : Type 0 where
  pub dsid : String
  pub encrypted_base64 : String

-- A nil pointer is `none`.
pub record Transform : Type 0 where
  pub context_path : String
  pub header : Option TransformHeader
  pub body : Option TransformBody

-- `message` is what `json.Marshal` makes of the Go value, which may be an error.
pub record EncodedMessage : Type 0 where
  pub mxf : String
  pub message : Result Value
  pub transforms : List Transform

pub record EncodeRequest : Type 0 where
  pub message : Result Value
  pub transforms : List Transform

pub record EncodedResponse : Type 0 where
  pub encoded_message : Option EncodedMessage
  pub raw_message : Option Bytes

-- An empty slice counts as a nil one, which is marshalled to `null`.
abbrev slice_value : List Value → Value
slice_value [] = null
slice_value (v ∷ vs) = arr (of_elems (v ∷ vs))

abbrev pointer_value {ℓ} : {A : Type ℓ} → (A → Value) → Option A → Value
pointer_value f none = null
pointer_value f (some a) = f a

header_value : TransformHeader → Value
header_value h = obj (
    of_members (
      ("profile_paths", slice_value (map str h.profile_paths))
      ∷ ("private_paths", slice_value (map str h.private_paths))
      ∷ ("encryptor", str h.encryptor)
      ∷ ("compressor", str h.compressor)
      ∷ []))

body_value : TransformBody → Value
body_value b =
    obj (of_members (("dsid", str b.dsid) ∷ ("encrypted_base64", str b.encrypted_base64) ∷ []))

transform_value : Transform → Value
unfolding header_value body_value
transform_value t = obj (
    of_members (
      ("context_path", str t.context_path)
      ∷ ("header", pointer_value header_value t.header)
      ∷ ("body", pointer_value body_value t.body)
      ∷ []))

-- `json.Marshal(req)`
unfoldable pub encode_request_value : EncodeRequest → Result Value
unfolding transform_value
encode_request_value r = do
  m ← r.message
  ok (
      obj (
        of_members
          (("message", m) ∷ ("transforms", slice_value (map transform_value r.transforms)) ∷ [])))

unfoldable pub encoded_message_value : EncodedMessage → Result Value
unfolding transform_value
encoded_message_value e = do
  m ← e.message
  ok (
      obj (
        of_members (
          ("mxf", str e.mxf)
          ∷ ("message", m)
          ∷ ("transforms", slice_value (map transform_value e.transforms))
          ∷ [])))

-- What `encoding/json` does at the types of this package.
pub record Codec : Type 0 where
  -- `json.Unmarshal` into an `EncodedMessage`, and into a `json.RawMessage`
  pub unmarshal_encoded : Bytes → Result EncodedMessage
  pub unmarshal_raw : Bytes → Result Bytes
  -- the validity check that goes before a custom `UnmarshalJSON`
  pub check_valid : Bytes → Option Error
  -- `json.Marshal` of a `json.RawMessage`, and the value that its text stands for
  pub compact : Bytes → Result Bytes
  pub raw_value : Bytes → Result Value

module _ (codec : Codec) where
  -- `MarshalJSON` of an `EncodedResponse`, as a value
  unfoldable pub encoded_response_value : EncodedResponse → Result Value
  unfolding encoded_message_value
  encoded_response_value r = elim r.encoded_message [
    | some e ↦ encoded_message_value e
    | none ↦ elim r.raw_message [
      | some raw ↦ codec.raw_value raw
      | none ↦ err (errors_new "empty response")
    ]
  ]

  abbrev pub empty_response : EncodedResponse
  empty_response = record { encoded_message = none; raw_message = none }

  -- `raw := &json.RawMessage{}; err = json.Unmarshal(b, raw)`
  unfoldable pub keep_raw : EncodedResponse → Bytes → Result EncodedResponse
  keep_raw r b = do raw ← codec.unmarshal_raw b; ok (record r { raw_message = some raw })

  unfoldable pub by_mxf : Result EncodedMessage → EncodedResponse → Bytes → Result EncodedResponse
  unfolding keep_raw
  by_mxf (ok e) r b =
      if e.mxf == "" then keep_raw r b else ok (record r { encoded_message = some e })
  by_mxf (err e) r b = keep_raw r b
  by_mxf (panic t) r b = panic t

  -- `UnmarshalJSON`
  unfoldable pub unmarshal_json : EncodedResponse → Bytes → Result EncodedResponse
  unfolding by_mxf
  unmarshal_json r b = by_mxf (codec.unmarshal_encoded b) r b

  abbrev checked : Option Error → Bytes → Result EncodedResponse
  checked (some e) b = err e
  checked none b = unmarshal_json empty_response b

  -- `json.Unmarshal(b, &EncodedResponse{})`
  unfoldable pub decode_response : Bytes → Result EncodedResponse
  unfolding unmarshal_json
  decode_response b = checked (codec.check_valid b) b

  -- A `*EncodedResponse` is no protobuf message.
  abbrev pub response_dst : Dst EncodedResponse
  response_dst = record {
    kind = plain;
    protojson = decode_response;
    jsonpb = decode_response;
    json = decode_response;
  }
