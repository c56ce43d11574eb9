-- ===== src/Private/Encode.antt =====
-- shiroclient/private/private.go: `encodeHelper`, `Encode` and `Decode`.
pub mod Laws
pub mod Params
use shiroclient_sdk_go.Prelude.{
  String, Bool, true, false, Option, none, some, List, [], ◌∷◌, ◌++◌, Bytes, if◌then◌else◌,
}
use shiroclient_sdk_go.Errors.{Result, ok, errors_new}
use shiroclient_sdk_go.Exec.{Exec, pure, raise, lift, ◌>>=◌}
use shiroclient_sdk_go.Json.{Value, null}
use shiroclient_sdk_go.Types.{ShiroClient}
use shiroclient_sdk_go.Types.Options.{Ctx, Config}
use shiroclient_sdk_go.Types.Response.{Dst, unmarshal_to, unmarshal_proto, transaction_id}
use shiroclient_sdk_go.Configs.{with_dependent_tx_id}
use shiroclient_sdk_go.Platform.{Platform}
use shiroclient_sdk_go.Update.{call_accept}
use shiroclient_sdk_go.Private.Message.{
  Transform, EncodedMessage, EncodeRequest, EncodedResponse, Codec, encoded_message_value,
  encoded_response_value, empty_response, decode_response, response_dst,
}
use shiroclient_sdk_go.Private.Seed.{do_skip_encode_tx, with_param, with_transient_mxf}

abbrev pub shiro_endpoint_decode : String
shiro_endpoint_decode = "private_decode"

abbrev pub shiro_endpoint_encode : String
shiro_endpoint_encode = "private_encode"

-- `skipEncodeRequest`
abbrev pub skip_encode_request : EncodedResponse
skip_encode_request = record {
  encoded_message = some (record { mxf = "transient"; message = ok null; transforms = [] });
  raw_message = none;
}

module _ (p : Platform) (codec : Codec) (client : ShiroClient)
    (seed_gen : Exec client.State Bytes) where
  open client use {State}

  -- The response, nil for a nil message, and the configs for the call that follows.
  abbrev pub Encoding : Type 0
  Encoding = Option EncodedResponse × List Config

  -- The fast path: no transforms.
  unfoldable pub encode_raw : Result Value → Exec State Encoding
  encode_raw message = do
    v ← lift message
    enc ← lift (decode_response codec (p.json_marshal v))
    pure (some enc, with_param (encoded_response_value codec enc) ∷ [])

  -- The encode transaction.
  unfoldable pub encode_tx : Ctx → List Config → List Config → Exec State Encoding
  encode_tx ctx configs transient_configs = do
    resp ← call_accept p client ctx shiro_endpoint_encode (configs ++ transient_configs)
    enc ← lift (unmarshal_to resp (response_dst codec))
    pure (
      some enc,
      with_dependent_tx_id (transaction_id resp)
          ∷ with_param (encoded_response_value codec enc)
          ∷ [],
    )

  -- Without the transaction: the message goes along in the transient data, and the argument says so.
  unfoldable pub encode_skip : List Config → Exec State Encoding
  encode_skip transient_configs = pure (
    some (empty_response codec),
    transient_configs ++ with_param (encoded_response_value codec skip_encode_request) ∷ [],
  )

  unfoldable pub encode_transforms :
      Ctx → Result Value → List Transform → List Config → Exec State Encoding
  unfolding encode_tx encode_skip
  encode_transforms ctx message transforms configs = do
    transient_configs ←
        with_transient_mxf p seed_gen (some (record { message = message; transforms = transforms }))
    (if do_skip_encode_tx configs
        then encode_skip transient_configs
        else encode_tx ctx configs transient_configs)

  -- `encodeHelper`; `none` is a nil message.
  unfoldable pub encode_helper :
      Ctx → Option (Result Value) → List Transform → List Config → Exec State Encoding
  unfolding encode_raw encode_transforms
  encode_helper ctx none transforms configs = pure (none, [])
  encode_helper ctx (some message) [] configs = encode_raw message
  encode_helper ctx (some message) (t ∷ ts) configs = encode_transforms ctx message (t ∷ ts) configs

  unfoldable pub encode :
      Ctx
      → Option (Result Value)
      → List Transform
      → List Config
      → Exec State (Option EncodedResponse)
  unfolding encode_helper
  encode ctx message transforms configs = do
    enc ← encode_helper ctx message transforms configs
    pure enc.0

  module _ {A : Type 0} (dst : Dst A) where
    decode_raw : Option Bytes → Exec State A
    decode_raw none = raise (errors_new "missing raw message")
    decode_raw (some raw) = do
      raw_bytes ← lift (codec.compact raw)
      lift (unmarshal_proto raw_bytes dst)

    decode_tx : Ctx → EncodedMessage → List Config → Exec State A
    decode_tx ctx message configs = do
      resp ←
          call_accept p client ctx shiro_endpoint_decode
            (configs ++ with_param (encoded_message_value message) ∷ [])
      lift (unmarshal_to resp dst)

    decode_some : Ctx → Option EncodedMessage → Option Bytes → List Config → Exec State A
    unfolding decode_raw decode_tx
    decode_some ctx none raw configs = decode_raw raw
    decode_some ctx (some message) raw configs = decode_tx ctx message configs

    -- `Decode`; `none` is a nil message.
    unfoldable pub decode : Ctx → Option EncodedResponse → List Config → Exec State A
    unfolding decode_some
    decode ctx none configs = raise (errors_new "nil encoded message")
    decode ctx (some encoded) configs =
        decode_some ctx encoded.encoded_message encoded.raw_message configs
