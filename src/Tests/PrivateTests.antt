-- ===== src/Tests/PrivateTests.antt =====
-- Runs of private.go over a client that answers each call alike.
use shiroclient_sdk_go.Prelude.{String, none, some, List, [], ◌∷◌, ◌++◌, ◌≡◌, ◌↔◌, refl}
use shiroclient_sdk_go.Prelude.Dict.{Dict}
use shiroclient_sdk_go.Errors.{ok, err, external}
use shiroclient_sdk_go.Exec.{◌>>=◌}
use shiroclient_sdk_go.Json.{Value, null, str}
use shiroclient_sdk_go.Types.Options.{Config, RequestOptions, base_options, fn, run_configs}
use shiroclient_sdk_go.Configs.{with_params, with_transient_data}
use shiroclient_sdk_go.Private.Message.{
  Transform, EncodedResponse, Codec, empty_response, encoded_response_value,
}
use shiroclient_sdk_go.Private.Seed.{seed_key, with_skip_encode_tx, do_skip_encode_tx, with_param}
use shiroclient_sdk_go.Private.Encode.{encode, decode, encode_helper, skip_encode_request}
use shiroclient_sdk_go.Private.Encode.Laws.{encode-decode_fast}
use shiroclient_sdk_go.Private.Encode.Params.{encode_helper-CarriesArgument}
use shiroclient_sdk_go.Private.Subject.{export, purge}
use shiroclient_sdk_go.Private.Subject.Laws.{Purges, Exports, purge_iff, export_iff}
use shiroclient_sdk_go.Private.Subject.Sent.{Carries, purge-Carries}
use shiroclient_sdk_go.Types.Recorded.{over, recorded}
use shiroclient_sdk_go.Private.Wrap.{CallResult, wrap_call}
use shiroclient_sdk_go.Private.Wrap.Laws.{Wrapped, wrap_call-Wrapped}
use shiroclient_sdk_go.Tests.{test_ctx, good_reply, gateway, good_client, test_seed, fixed_dst}

-- No text is an encoded message; a raw message is its own text.
abbrev raw_codec : Codec
raw_codec = record {
  unmarshal_encoded = λ b. err (external "no encoded message");
  unmarshal_raw = λ b. ok b;
  check_valid = λ b. none;
  compact = λ b. ok b;
  raw_value = λ b. ok (str "raw");
}

abbrev decoded : String
decoded = "decoded"

encode-decode_fast_example :
    (encode
          (gateway good_reply)
          raw_codec
          good_client
          test_seed
          test_ctx
          (some (ok (str "secret")))
          []
          []
        >>= λ enc.
            decode
              (gateway good_reply)
              raw_codec
              good_client
              test_seed
              (fixed_dst decoded)
              test_ctx
              enc
              [])
      ("before" ∷ [])
    ≡ (ok decoded, "before" ∷ [])
encode-decode_fast_example =
    encode-decode_fast (gateway good_reply) raw_codec good_client test_seed test_ctx (str "secret")
      [] [] ("before" ∷ []) (fixed_dst "decoded") refl tt refl refl

abbrev transform : Transform
transform = record { context_path = "."; header = none; body = none }

-- The caller sets parameters of its own and skips the encode transaction.
abbrev caller_configs : List Config
caller_configs = with_params (ok null) ∷ with_skip_encode_tx ∷ []

abbrev new_configs : List Config
new_configs =
    with_transient_data seed_key (5 ∷ [])
    ∷ with_transient_data "mxf" (0x7b ∷ 0x7d ∷ [])
    ∷ with_param (encoded_response_value raw_codec skip_encode_request)
    ∷ []

encode_helper_runs :
    encode_helper
      (gateway good_reply)
      raw_codec
      good_client
      test_seed
      test_ctx
      (some (ok (str "secret")))
      (transform ∷ [])
      caller_configs
      []
    ≡ (ok (some (empty_response raw_codec), new_configs), "seed" ∷ [])
unfolding encode_helper ◌>>=◌ shiroclient_sdk_go.Private.Seed.with_transient_mxf
    shiroclient_sdk_go.Private.Seed.with_seed
    shiroclient_sdk_go.Private.Message.encode_request_value do_skip_encode_tx with_params
encode_helper_runs = refl

abbrev base : RequestOptions
base = base_options "id" none

encode_helper-CarriesArgument_example :
    (run_configs (caller_configs ++ new_configs) base).params
    ≡ (fn (with_param (encoded_response_value raw_codec skip_encode_request)) base).params
unfolding do_skip_encode_tx with_params
encode_helper-CarriesArgument_example =
    encode_helper-CarriesArgument (gateway good_reply) raw_codec good_client test_seed test_ctx
      (ok (str "secret")) caller_configs [] (transform ∷ []) encode_helper_runs base

purge_iff_example :
    (purge (gateway good_reply) good_client test_seed (fixed_dst "user-7") test_ctx "user-7" [] []
      ≡ (ok tt, "seed" ∷ "private_purge" ∷ []))
    ↔ Purges
        (gateway good_reply)
        good_client
        test_seed
        (fixed_dst "user-7")
        test_ctx
        "user-7"
        []
        []
        ("seed" ∷ "private_purge" ∷ [])
purge_iff_example =
    purge_iff (gateway good_reply) good_client test_seed (fixed_dst "user-7") test_ctx "user-7" []
      [] ("seed" ∷ "private_purge" ∷ [])

abbrev user_data : Dict Value
user_data = ("name", str "ann") ∷ []

export_iff_example :
    (export (gateway good_reply) good_client (fixed_dst user_data) test_ctx "user-7" [] []
      ≡ (ok user_data, "private_export" ∷ []))
    ↔ Exports
        (gateway good_reply)
        good_client
        (fixed_dst user_data)
        test_ctx
        "user-7"
        []
        user_data
        []
        ("private_export" ∷ [])
export_iff_example =
    export_iff (gateway good_reply) good_client (fixed_dst user_data) test_ctx "user-7" [] user_data
      [] ("private_export" ∷ [])

abbrev purge_start : (recorded good_client).State
purge_start = ([], [])

abbrev purged : (recorded good_client).State
purged =
    (purge (gateway good_reply) (recorded good_client) (over test_seed) (fixed_dst "user-7")
      test_ctx "user-7" caller_configs purge_start).1

purge_runs :
    purge
      (gateway good_reply)
      (recorded good_client)
      (over test_seed)
      (fixed_dst "user-7")
      test_ctx
      "user-7"
      caller_configs
      purge_start
    ≡ (ok tt, purged)
unfolding purge ◌>>=◌ shiroclient_sdk_go.Private.Seed.with_seed
    shiroclient_sdk_go.Update.call_accept shiroclient_sdk_go.Types.Response.unmarshal_to
purge_runs = refl

purge-Carries_example :
    Carries
      (gateway good_reply)
      good_client
      test_seed
      (fixed_dst "user-7")
      test_ctx
      "user-7"
      caller_configs
      purge_start
      purged
purge-Carries_example =
    purge-Carries (gateway good_reply) good_client test_seed (fixed_dst "user-7") test_ctx "user-7"
      caller_configs purge_start purged purge_runs

abbrev call_result : CallResult
call_result = record { transaction_id = "tx-9"; max_sim_block_num = 0; commit_block_num = 7 }

wrap_call_runs :
    wrap_call
      (gateway good_reply)
      raw_codec
      good_client
      test_seed
      (fixed_dst decoded)
      "m"
      []
      test_ctx
      (some (ok (str "secret")))
      []
      []
    ≡ (ok (call_result, decoded), "m" ∷ [])
unfolding wrap_call ◌>>=◌ encode_helper shiroclient_sdk_go.Private.Message.decode_response
    shiroclient_sdk_go.Types.Response.unmarshal_to decode
wrap_call_runs = refl

wrap_call-Wrapped_example :
    Wrapped
      (gateway good_reply)
      raw_codec
      good_client
      test_seed
      (fixed_dst decoded)
      "m"
      []
      test_ctx
      (some (ok (str "secret")))
      []
      []
      call_result
      decoded
      ("m" ∷ [])
wrap_call-Wrapped_example =
    wrap_call-Wrapped (gateway good_reply) raw_codec good_client test_seed (fixed_dst decoded) "m"
      [] test_ctx (some (ok (str "secret"))) [] [] call_result decoded ("m" ∷ []) wrap_call_runs
