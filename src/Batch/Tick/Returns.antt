-- ===== src/Batch/Tick/Returns.antt =====
-- shiroclient/batch/batch.go: what a `Tick` that returns leaves in the trace.
use shiroclient_sdk_go.Prelude.{
  ℕ, zero, suc, List, [], ◌∷◌, ◌++◌, ◌≡◌, refl, sym, ap, ◌∙◌, map, length, arith,
}
use shiroclient_sdk_go.Errors.{Result, ok, err, panic}
use shiroclient_sdk_go.Exec.Laws.{bind-eq-ok}
use shiroclient_sdk_go.Json.{strings}
use shiroclient_sdk_go.Types.{ShiroClient}
use shiroclient_sdk_go.Types.Options.{Ctx}
use shiroclient_sdk_go.Types.Recorded.{Request}
use shiroclient_sdk_go.Platform.{Platform}
use shiroclient_sdk_go.Batch.Driver.{
  RequestEnvelope, call, call_configs, call_fields, batch_get_requests_method,
}
use shiroclient_sdk_go.Batch.Tick.{
  Codec, returned, Poller, tick_tasks, tick, tick_start, run, wait, waiting,
}
use shiroclient_sdk_go.Batch.Tick.Trace.{
  called, queued, env_of, traced_client, traced_poller, task_of,
}
use shiroclient_sdk_go.Batch.Tick.Steps.{all_owe, all_made, Runs, TickOver, run-Runs}
use shiroclient_sdk_go.Batch.Tick.Answers.{IsCall, Ticked, ended, call_configs-IsCall}

module _ (p : Platform) (codec : Codec) (client : ShiroClient) (t : Poller p codec client)
    (ctx : Ctx) where
  queued-waiting :
      (envs : List RequestEnvelope)
      → map waiting envs ≡ map (task_of p codec client t ctx) (map queued envs)
  queued-waiting [] = refl
  queued-waiting (env ∷ envs) = ap (λ tasks. waiting env ∷ tasks) (queued-waiting envs)

  queued-owe : (envs : List RequestEnvelope) → length envs ≡ all_owe (map queued envs)
  queued-owe [] = refl
  queued-owe (env ∷ envs) = omega (arith, queued-owe envs)

  queued-made : (envs : List RequestEnvelope) → all_made p codec client t ctx (map queued envs) ≡ []
  queued-made [] = refl
  queued-made (env ∷ envs) = queued-made envs

  queued-env_of : (envs : List RequestEnvelope) → map env_of (map queued envs) ≡ envs
  queued-env_of [] = refl
  queued-env_of (env ∷ envs) = ap (λ rest. env ∷ rest) (queued-env_of envs)

  wait-returned :
      (r : Result (Unit {0})) (n : ℕ)
      → wait p codec client r n ≡ ok returned
      → (r ≡ ok tt) × (n ≡ 0)
  wait-returned (ok x) zero h = (refl, refl)
  wait-returned (ok x) (suc n) h = cc
  wait-returned (err e) n h = cc
  wait-returned (panic x) n h = cc

  poll_request : Request
  poll_request = record {
    ctx = ctx;
    method = batch_get_requests_method;
    configs =
        call_configs t.driver (ok (strings (t.batch_name ∷ []))) (call_fields t.batch_name "" "")
          t.client_configs;
  }

  poll-IsCall :
      IsCall p codec client t ctx "batch_get_requests"
        (ok (strings (t.batch_name ∷ [])))
        poll_request
  unfolding poll_request
  poll-IsCall =
      call_configs-IsCall p codec client t ctx "batch_get_requests"
        (ok (strings (t.batch_name ∷ []))) _ (call_fields t.batch_name "" "") refl

  tick_start-trace :
      (s u : (traced_client p codec client).State) (envs : List RequestEnvelope)
      → tick_start p codec (traced_client p codec client) (traced_poller p codec client t) ctx s
        ≡ (ok envs, u)
      → u.1 ≡ s.1 ++ called poll_request ∷ []
  unfolding tick_start call poll_request
  tick_start-trace s u envs h =
      let (res, v, e, k) = bind-eq-ok _ _ s h in sym (ap (λ x. x.1.1) k) ∙ sym (ap (λ x. x.1.1) e)

  tasks-Runs :
      (schedule : List ℕ) (envs : List RequestEnvelope) (v : (traced_client p codec client).State)
      (st : TickOver p codec client t ctx)
      → run p codec
          (traced_client p codec client)
          (traced_poller p codec client t)
          ctx
          schedule
          (tick_tasks p codec (traced_client p codec client) envs v)
        ≡ (ok tt, st)
      → Runs p codec client t ctx (map queued envs) v.1 st
  tasks-Runs schedule envs v st =
      run-Runs p codec client t ctx schedule (map queued envs)
        (tick_tasks p codec (traced_client p codec client) envs v) st (queued-waiting envs)
        (queued-owe envs)

  -- In whatever order its tasks run: when `Tick` returns, it has made one poll of the batch, and for
  -- each request that got a task, as often as there are such requests, it has run the callback once
  -- and made one call that answers the request; it has done nothing else. The answer has the batch
  -- name and the two IDs of the request for its parameters, with the response of the callback or the
  -- text of its error, which is that of an empty response too; the configs of the ticker come after.
  pub tick-Ticked :
      (schedule : List ℕ) (s u : (traced_client p codec client).State)
      → tick p codec (traced_client p codec client) (traced_poller p codec client t) ctx schedule s
        ≡ (ok returned, u)
      → Ticked p codec client t ctx s u
  unfolding tick
  tick-Ticked schedule s u h =
      let (envs, v, e, k) = bind-eq-ok _ _ s h in
      let out =
        run p codec (traced_client p codec client) (traced_poller p codec client t) ctx schedule
          (tick_tasks p codec (traced_client p codec client) envs v) in
      let (done, none_owed) = wait-returned out.0 out.1.wait_count (ap (λ x. x.0) k) in
      let a = tasks-Runs schedule envs v out.1 (ap (λ r. (r, out.1)) done) in
      let b = ended p codec client t ctx a.moves.next (sym a.counts ∙ none_owed) in
      record {
        poll = poll_request;
        polls = poll-IsCall;
        envs = envs;
        polled = v;
        starts = e;
        poll_trace = tick_start-trace s v envs e;
        turns = b.turns;
        turns_are = b.same ∙ a.moves.same ∙ queued-env_of envs;
        answers = b.answers;
        new = a.moves.new;
        trace = sym (ap (λ x. x.1.1) k) ∙ a.moves.trace;
        events = rw (queued-made envs, b.events) at a.moves.events;
      }
