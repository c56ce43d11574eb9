-- ===== src/Private/Wrap.antt =====
-- shiroclient/private/private.go: `WrapCall` and its result.
pub mod Laws
use shiroclient_sdk_go.Prelude.{
  ℕ, String, Bool, Option, none, some, List, [], ◌∷◌, ◌++◌, Bytes, concat, ◌==◌, if◌then◌else◌,
}
use shiroclient_sdk_go.Errors.{Result, ok, err, errors_new}
use shiroclient_sdk_go.Exec.{Exec, pure, lift, wrap_exec, ◌>>=◌}
use shiroclient_sdk_go.Json.{Value}
use shiroclient_sdk_go.Types.{ShiroClient}
use shiroclient_sdk_go.Types.Options.{Ctx, Config}
use shiroclient_sdk_go.Types.Response.{
  ShiroResponse, Dst, unmarshal_to, transaction_id, response_error, max_sim_block_num,
  commit_block_num,
}
use shiroclient_sdk_go.Configs.{with_dependent_tx_id}
use shiroclient_sdk_go.Platform.{Platform}
use shiroclient_sdk_go.Private.Message.{Transform, Codec, response_dst}
use shiroclient_sdk_go.Private.Encode.{encode_helper, decode}

pub record CallResult : Type 0 where
  pub transaction_id : String
  pub max_sim_block_num : ℕ
  pub commit_block_num : ℕ

-- The accessors, which serve a nil result too.
abbrev pub result_max_sim_block_num : Option CallResult → ℕ
result_max_sim_block_num none = 0
result_max_sim_block_num (some r) = r.max_sim_block_num

abbrev pub result_commit_block_num : Option CallResult → ℕ
result_commit_block_num none = 0
result_commit_block_num (some r) = r.commit_block_num

-- `if resp.TransactionID() != "" { configs = append(configs, WithDependentTxID(…)) }`
abbrev pub depend_on : String → List Config → List Config
depend_on tx_id configs =
    if tx_id == "" then configs else configs ++ with_dependent_tx_id tx_id ∷ []

abbrev pub accept_wrapped : ShiroResponse → Result (Unit {0})
accept_wrapped resp = elim (response_error resp) [
  | none ↦ ok tt
  | some e ↦ err (errors_new (concat ("wrap call response error: " ∷ e.message ∷ [])))
]

module _ (p : Platform) (codec : Codec) (client : ShiroClient) (seed_gen : Exec client.State Bytes)
    {A : Type 0} (output : Dst A) where
  open client use {State}

  -- What follows the call.
  unfoldable pub finish_call : Ctx → List Config → ShiroResponse → Exec State (CallResult × A)
  finish_call ctx configs resp = do
    _ ← lift (accept_wrapped resp)
    enc_resp ← lift (unmarshal_to resp (response_dst codec))
    decoded ← wrap_exec "wrap decode error: " (
        decode p codec client seed_gen output ctx (some enc_resp)
          (depend_on (transaction_id resp) configs))
    pure (
      record {
        transaction_id = transaction_id resp;
        max_sim_block_num = max_sim_block_num resp;
        commit_block_num = commit_block_num resp;
      },
      decoded,
    )

  -- The function that `WrapCall` returns; the decoded output comes beside the result.
  unfoldable pub wrap_call :
      String
      → List Transform
      → Ctx
      → Option (Result Value)
      → List Config
      → Exec State (CallResult × A)
  unfolding finish_call
  wrap_call method enc_transforms ctx message configs = do
    enc ←
        wrap_exec "wrap encode error: "
          (encode_helper p codec client seed_gen ctx message enc_transforms configs)
    resp ← wrap_exec "wrap call error: " (client.call ctx method (configs ++ enc.1))
    finish_call ctx configs resp
