-- ===== src/Rpc/Blocks.antt =====
-- internal/rpc/shiroclient.go: what `QueryBlock` makes of a result.
pub mod Laws
use shiroclient_sdk_go.Prelude.{
  ℕ, zero, suc, String, Bool, Option, none, some, List, [], ◌∷◌, Bytes, length, get_elem?, leb, ltb,
  ◌||◌, if◌then◌else◌,
}
use shiroclient_sdk_go.Prelude.Dict.{Dict, lookup}
use shiroclient_sdk_go.Errors.{Result, ok, err, panic, errors_new, require, ◌>>=◌}
use shiroclient_sdk_go.Json.{Value, as_object, as_string, as_array}
use shiroclient_sdk_go.Types.Chain.{Transaction, Block, new_transaction, new_block}
use shiroclient_sdk_go.Platform.{Platform}

-- The loops over the JSON arrays: the first element that is refused ends them.
module _ {A : Type 0} (convert : Value → Result A) where
  unfoldable pub convert_all : List Value → Result (List A)
  convert_all [] = ok []
  convert_all (v ∷ vs) = do a ← convert v; rest ← convert_all vs; ok (a ∷ rest)

abbrev pub string_member : String → Value → Result String
string_member what v = require (as_string v) what

-- The field `key` as an array.
abbrev pub array_field : Dict Value → String → String → String → Result (List Value)
array_field m key missing not_array = do
  arb ← require (lookup key m) missing
  require (as_array arb) not_array

-- `xs[i]`, which panics out of range
abbrev pub index {ℓ} : {A : Type ℓ} → List A → ℕ → Result A
index xs i = elim (get_elem? xs i) [ none ↦ panic "index out of range" | some x ↦ ok x ]

-- `for i, txid := range txidsOut`, from `i` on
unfoldable pub build_transactions :
    ℕ → List String → List String → List Bytes → List String → Result (List Transaction)
build_transactions i [] reasons events ccids = ok []
build_transactions i (txid ∷ txids) reasons events ccids = do
  reason ← index reasons i
  event ← index events i
  ccid ← index ccids i
  rest ← build_transactions (suc i) txids reasons events ccids
  ok (new_transaction txid reason event ccid ∷ rest)

-- `if len(txidsOut) != len(reasonsOut)`
abbrev same_length : List String → List String → Result (Unit {0})
same_length txids reasons =
    if ltb (length txids) (length reasons) || ltb (length reasons) (length txids)
    then err (errors_new "ShiroClient.QueryBlock: mismatched parallel arrays")
    else ok tt

module _ (p : Platform) where
  abbrev decode_base64 : String → Result Bytes
  decode_base64 s =
      require (p.base64_decode s)
        "ShiroClient.QueryBlock expected a base64 string transaction_event member"

  unfoldable pub event_member : Value → Result Bytes
  event_member v = do
    event ← string_member "ShiroClient.QueryBlock expected a string transaction_event member" v
    decode_base64 event

  unfoldable pub decode_block : Value → Result Block
  unfolding convert_all build_transactions event_member
  decode_block result = do
    res ← require (as_object result) "ShiroClient.QueryBlock expected an object result field"
    block_hash_arb ←
        require (lookup "block_hash" res) "ShiroClient.QueryBlock expected a block_hash field"
    block_hash ←
        require (as_string block_hash_arb)
          "ShiroClient.QueryBlock expected a string block_hash field"
    txids ←
        array_field res "transaction_ids" "ShiroClient.QueryBlock expected a transaction_ids field"
          "ShiroClient.QueryBlock expected an array transaction_ids field"
    txids_out ←
        convert_all (string_member "ShiroClient.QueryBlock expected a string transaction_id member")
          txids
    reasons ←
        array_field res "transaction_reasons"
          "ShiroClient.QueryBlock expected a transaction_reasons field"
          "ShiroClient.QueryBlock expected an array transaction_reasons field"
    reasons_out ←
        convert_all
          (string_member "ShiroClient.QueryBlock expected a string transaction_reason member")
          reasons
    events ←
        array_field res "transaction_events"
          "ShiroClient.QueryBlock expected a transaction_events field"
          "ShiroClient.QueryBlock expected an array transaction_events field"
    events_out ← convert_all event_member events
    ccids ←
        array_field res "chaincode_ids" "ShiroClient.QueryBlock expected a chaincode_ids field"
          "ShiroClient.QueryBlock expected an array chaincode_ids field"
    ccids_out ←
        convert_all (string_member "ShiroClient.QueryBlock expected a string chaincode_id member")
          ccids
    _ ← same_length txids_out reasons_out
    transactions ← build_transactions 0 txids_out reasons_out events_out ccids_out
    ok (new_block block_hash transactions)
