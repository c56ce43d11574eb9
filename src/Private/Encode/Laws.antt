-- ===== src/Private/Encode/Laws.antt =====
-- The fast path of `Encode` and `Decode`, and what `encodeHelper` asks the next call to carry.
use shiroclient_sdk_go.Prelude.{none, some, List, [], Bytes, ◌≡◌, refl, arith, eq_iff}
use shiroclient_sdk_go.Errors.{Result, ok, err, panic}
use shiroclient_sdk_go.Exec.{Exec, ◌>>=◌}
use shiroclient_sdk_go.Json.{Value}
use shiroclient_sdk_go.Types.{ShiroClient}
use shiroclient_sdk_go.Types.Options.{Ctx, Config}
use shiroclient_sdk_go.Types.Response.{Dst, unmarshal_proto}
use shiroclient_sdk_go.Platform.{Platform}
use shiroclient_sdk_go.Private.Message.{
  EncodedMessage, EncodedResponse, Codec, decode_response, empty_response, by_mxf, keep_raw,
  unmarshal_json,
}
use shiroclient_sdk_go.Private.Encode.{encode, decode}

-- The text is no encoded message: it does not decode as one, or has no "mxf".
abbrev pub IsPlain : Result EncodedMessage → Type 0
IsPlain (ok e) = e.mxf ≡ ""
IsPlain (err e) = Unit
IsPlain (panic t) = ⊥

abbrev raw_response : Bytes → EncodedResponse
raw_response b = record { encoded_message = none; raw_message = some b }

module _ (p : Platform) (codec : Codec) (client : ShiroClient)
    (seed_gen : Exec client.State Bytes) where
  by_mxf-plain :
      (r : Result EncodedMessage) (b : Bytes)
      → IsPlain r
      → codec.unmarshal_raw b ≡ ok b
      → by_mxf codec r (empty_response codec) b ≡ ok (raw_response b)
  unfolding by_mxf keep_raw
  by_mxf-plain (ok e) b plain raw = ground (arith, eq_iff e.mxf "")
  by_mxf-plain (err e) b plain raw = rw raw
  by_mxf-plain (panic t) b i raw = elim i [ ]

  decode_response-raw :
      (b : Bytes)
      → codec.check_valid b ≡ none
      → IsPlain (codec.unmarshal_encoded b)
      → codec.unmarshal_raw b ≡ ok b
      → decode_response codec b ≡ ok (raw_response b)
  unfolding decode_response unmarshal_json
  decode_response-raw b valid plain raw = rw (valid, by_mxf-plain _ b plain raw)

  -- With no transforms, `Encode` makes no call and keeps the text of the message, if that is no
  -- encoded message itself. `Decode` makes no call either and decodes that text into its target.
  pub encode-decode_fast :
      (ctx : Ctx) (v : Value) (configs decode_configs : List Config) (s : client.State) {A : Type 0}
      (dst : Dst A)
      → codec.check_valid (p.json_marshal v) ≡ none
      → IsPlain (codec.unmarshal_encoded (p.json_marshal v))
      → codec.unmarshal_raw (p.json_marshal v) ≡ ok (p.json_marshal v)
      → codec.compact (p.json_marshal v) ≡ ok (p.json_marshal v)
      → (encode p codec client seed_gen ctx (some (ok v)) [] configs >>= λ enc.
            decode p codec client seed_gen dst ctx enc decode_configs)
          s
        ≡ (unmarshal_proto (p.json_marshal v) dst, s)
  unfolding encode decode ◌>>=◌
  encode-decode_fast ctx v configs decode_configs s dst valid plain raw compact =
      rw (decode_response-raw (p.json_marshal v) valid plain raw, compact) refl
