-- ===== src/Rpc/Transport/Laws.antt =====
-- When a request counts as cancelled.
use shiroclient_sdk_go.Prelude.{◌||◌, ◌≡◌, arith}
use shiroclient_sdk_go.Errors.{Error, err, Fails, is_canceled}
use shiroclient_sdk_go.Platform.{Exchange, result_received}
use shiroclient_sdk_go.Rpc.Transport.{outcome, is_ctx_canceled, fetch_result}

-- If the exchange fails and the result is taken, the error returned counts as a cancellation
-- exactly if the error of the exchange does or the context was cancelled.
pub outcome_canceled :
    (x : Exchange) (e : Error)
    → x.arrival ≡ result_received
    → fetch_result x.fetch ≡ err e
    → Fails (outcome x) (λ f. is_canceled f ≡ (is_canceled e || is_ctx_canceled x.ctx_err))
unfolding outcome
outcome_canceled x e a h = ground arith
