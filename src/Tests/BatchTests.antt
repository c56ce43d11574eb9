-- ===== src/Tests/BatchTests.antt =====
-- A tick of two requests, interleaved, and a ticker that is paused.
use shiroclient_sdk_go.Prelude.{
  ℕ, zero, suc, ◌<◌, ◌≤◌, count, arith, String, none, some, List, [], ◌∷◌, ◌++◌, ◌≡◌, refl,
}
use shiroclient_sdk_go.Errors.{ok, errors_new}
use shiroclient_sdk_go.Json.{str}
use shiroclient_sdk_go.Batch.Driver.{RequestEnvelope, ResponseEnvelope, new_driver, with_log_field}
use shiroclient_sdk_go.Batch.Tick.{Codec, failed, Poller, tick, tick_start, returned}
use shiroclient_sdk_go.Batch.Tick.Spawns.{IsSpawn, spawned-IsSpawn}
use shiroclient_sdk_go.Batch.Tick.Answers.{Ticked}
use shiroclient_sdk_go.Batch.Tick.Returns.{tick-Ticked}
use shiroclient_sdk_go.Batch.Tick.Trace.{called, traced_poller}
use shiroclient_sdk_go.Types.Recorded.{traced}
use shiroclient_sdk_go.Batch.Tick.Fairness.{fair_tick-Ticked}
use shiroclient_sdk_go.Batch.Tick.Left.{NeverPanics}
use shiroclient_sdk_go.Batch.Ticker.{
  TickerEvent, timer, override, pause, resume, registered, ticks, owed, reverse_onto, ticks-owed,
}
use shiroclient_sdk_go.Tests.{test_ctx, good_reply, gateway, good_client}

abbrev request : String → RequestEnvelope
request id = record { batch_id = "b"; request_id = id; message = 1 ∷ [] }

abbrev blank_request : RequestEnvelope
blank_request = record { batch_id = ""; request_id = "r3"; message = 1 ∷ [] }

abbrev polled : List RequestEnvelope
polled = request "r1" ∷ request "r2" ∷ blank_request ∷ request "r4" ∷ []

spawned-IsSpawn_example : IsSpawn polled
spawned-IsSpawn_example = spawned-IsSpawn polled

abbrev batch_codec : Codec
batch_codec = record { unmarshal_envs = λ b. some polled; raw_value = λ b. ok (str "raw") }

-- The callback notes that it ran, and fails.
abbrev poller : Poller (gateway good_reply) batch_codec good_client
poller = record {
  driver = new_driver none (with_log_field "k" (str "v") ∷ []);
  batch_name = "jobs";
  callback = λ batch_id request_id message s. (failed (errors_new "no"), s ++ request_id ∷ []);
  client_configs = [];
}

-- Both callbacks run before either response is sent.
abbrev schedule : List ℕ
schedule = 0 ∷ 1 ∷ 1 ∷ 0 ∷ []

abbrev traced_jobs : Poller (gateway good_reply) batch_codec (traced called good_client)
traced_jobs = traced_poller (gateway good_reply) batch_codec good_client poller

abbrev tick_end : (traced called good_client).State
tick_end =
    (tick (gateway good_reply) batch_codec (traced called good_client) traced_jobs test_ctx schedule
      ([], [])).1

tick_runs :
    tick
      (gateway good_reply)
      batch_codec
      (traced called good_client)
      traced_jobs
      test_ctx
      schedule
      ([], [])
    ≡ (ok returned, tick_end)
unfolding tick shiroclient_sdk_go.Exec.◌>>=◌ shiroclient_sdk_go.Batch.Driver.call
tick_runs = refl

tick-Ticked_example :
    Ticked (gateway good_reply) batch_codec good_client poller test_ctx ([], []) tick_end
tick-Ticked_example =
    tick-Ticked (gateway good_reply) batch_codec good_client poller test_ctx schedule ([], [])
      tick_end tick_runs

-- Each task has two steps, and one of them a third.
abbrev fair_schedule : List ℕ
fair_schedule = 1 ∷ 0 ∷ 1 ∷ 1 ∷ 0 ∷ []

is_fair : (i : ℕ) → i < 2 → 2 ≤ count i fair_schedule
is_fair zero h = omega arith
is_fair (suc zero) h = omega arith
is_fair (suc (suc i)) h = omega (arith, h)

calm : NeverPanics good_client
calm ctx method configs s text e = cc

abbrev after_poll : (traced called good_client).State
after_poll =
    (tick_start (gateway good_reply) batch_codec (traced called good_client) traced_jobs test_ctx
      ([], [])).1

poll_starts :
    tick_start
      (gateway good_reply)
      batch_codec
      (traced called good_client)
      traced_jobs
      test_ctx
      ([], [])
    ≡ (ok (request "r1" ∷ request "r2" ∷ []), after_poll)
unfolding tick_start shiroclient_sdk_go.Exec.◌>>=◌ shiroclient_sdk_go.Batch.Driver.call
poll_starts = refl

fair_tick-Ticked_example :
    (u : (traced called good_client).State) × (tick
        (gateway good_reply)
        batch_codec
        (traced called good_client)
        traced_jobs
        test_ctx
        fair_schedule
        ([], [])
      ≡ (ok returned, u))
    × Ticked (gateway good_reply) batch_codec good_client poller test_ctx ([], []) u
fair_tick-Ticked_example =
    fair_tick-Ticked (gateway good_reply) batch_codec good_client poller test_ctx ([], [])
      after_poll (request "r1" ∷ request "r2" ∷ []) fair_schedule calm poll_starts is_fair

abbrev events : List TickerEvent
events = timer ∷ pause ∷ timer ∷ override ∷ resume ∷ timer ∷ []

ticks-owed_example : ticks events registered ≡ owed (reverse_onto events [])
ticks-owed_example = ticks-owed events
