-- ===== src/Tests/UpdateTests.antt =====
-- Runs of update.go over a client that answers each call alike.
use shiroclient_sdk_go.Prelude.{[], ◌∷◌, ◌≡◌, ◌↔◌}
use shiroclient_sdk_go.Errors.{ok}
use shiroclient_sdk_go.Update.{Phyla, enable, disable, install, get_phyla, with_new_phylum_version}
use shiroclient_sdk_go.Update.Laws.{Succeeds, Gets, one_param, updates_iff, get_phyla_iff}
use shiroclient_sdk_go.Tests.{test_ctx, good_reply, gateway, good_client, fixed_dst}

abbrev phyla : Phyla
phyla = record { phyla = [] }

updates_iff_example :
    ((enable (gateway good_reply) good_client test_ctx "v2" [] [] ≡ (ok tt, "enable" ∷ []))
      ↔ Succeeds
          (gateway good_reply)
          good_client
          test_ctx
          "enable"
          (one_param (gateway good_reply) good_client "v2" ∷ [])
          []
          ("enable" ∷ []))
    × ((disable (gateway good_reply) good_client test_ctx "v2" [] [] ≡ (ok tt, "enable" ∷ []))
        ↔ Succeeds
            (gateway good_reply)
            good_client
            test_ctx
            "disable"
            (one_param (gateway good_reply) good_client "v2" ∷ [])
            []
            ("enable" ∷ []))
    × ((install (gateway good_reply) good_client test_ctx "v2" (7 ∷ []) [] []
          ≡ (ok tt, "enable" ∷ []))
        ↔ Succeeds
            (gateway good_reply)
            good_client
            test_ctx
            "update"
            (one_param (gateway good_reply) good_client "Bw==" ∷ with_new_phylum_version "v2" ∷ [])
            []
            ("enable" ∷ []))
updates_iff_example =
    updates_iff (gateway good_reply) good_client test_ctx "v2" (7 ∷ []) [] [] ("enable" ∷ [])

get_phyla_iff_example :
    (get_phyla (gateway good_reply) good_client (fixed_dst phyla) test_ctx [] []
      ≡ (ok phyla, "get_phyla" ∷ []))
    ↔ Gets
        (gateway good_reply)
        good_client
        (fixed_dst phyla)
        test_ctx
        []
        phyla
        []
        ("get_phyla" ∷ [])
get_phyla_iff_example =
    get_phyla_iff (gateway good_reply) good_client (fixed_dst phyla) test_ctx [] phyla []
      ("get_phyla" ∷ [])
