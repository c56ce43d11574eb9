-- ===== src/Rpc/Blocks/Laws.antt =====
-- When `QueryBlock` returns a block, and when it panics.
use shiroclient_sdk_go.Prelude.{
  ℕ, zero, suc, ◌+◌, ◌≤◌, ◌<◌, String, Option, none, some, List, [], ◌∷◌, ◌≡◌, refl, Bytes, length,
  get_elem?, arith, ◌⊎◌, ◌∙◌, ap, map, inl, inr,
}
use native.Mathlib.Decide.{dec_lt}
use shiroclient_sdk_go.Errors.{ok, panic, ◌>>=◌}
use shiroclient_sdk_go.Types.Chain.{Transaction, new_transaction, new_block}
use shiroclient_sdk_go.Rpc.Blocks.{
  convert_all, string_member, event_member, build_transactions, decode_block, same_length,
}
use shiroclient_sdk_go.Platform.{Platform}
use shiroclient_sdk_go.Json.{Value, str, arr, strings, of_elems, elems-of_elems, as_object}
use shiroclient_sdk_go.Prelude.Dict.{Dict, lookup}

-- The transactions hold, at each place, what the four arrays hold `i` places on.
pub data Aligned (reasons : List String) (events : List Bytes) (ccids : List String)
    : ℕ → List String → List Transaction → Type 0 where
  done : {i : ℕ} → Aligned reasons events ccids i [] []
  more :
      {i : ℕ} {txid reason ccid : String} {event : Bytes} {txids : List String}
      {txs : List Transaction}
      → get_elem? reasons i ≡ some reason
      → get_elem? events i ≡ some event
      → get_elem? ccids i ≡ some ccid
      → Aligned reasons events ccids (suc i) txids txs
      → Aligned reasons events ccids i (txid ∷ txids) (new_transaction txid reason event ccid ∷ txs)

get_elem?_in {ℓ} :
    {A : Type ℓ} (xs : List A) (i : ℕ) → i < length xs → (x : A) × (get_elem? xs i ≡ some x)
get_elem?_in [] i h = absurd (omega arith)
get_elem?_in (x ∷ xs) zero h = (x, refl)
get_elem?_in (x ∷ xs) (suc i) h = get_elem?_in xs i (omega arith)

get_elem?_out {ℓ} : {A : Type ℓ} (xs : List A) (i : ℕ) → length xs ≤ i → get_elem? xs i ≡ none
get_elem?_out [] i h = refl
get_elem?_out (x ∷ xs) zero h = absurd (omega arith)
get_elem?_out (x ∷ xs) (suc i) h = get_elem?_out xs i (omega arith)

module _ (reasons : List String) (events : List Bytes) (ccids : List String) where
  build_step :
      (i : ℕ) (txid reason ccid : String) (event : Bytes) (txids : List String)
      (txs : List Transaction)
      → get_elem? reasons i ≡ some reason
      → get_elem? events i ≡ some event
      → get_elem? ccids i ≡ some ccid
      → build_transactions (suc i) txids reasons events ccids ≡ ok txs
      → build_transactions i (txid ∷ txids) reasons events ccids
        ≡ ok (new_transaction txid reason event ccid ∷ txs)
  unfolding build_transactions
  build_step i txid reason ccid event txids txs er ee ec h = ground arith

  -- The next index is in range for the reasons, and out of range for another array, or the rest
  -- panics.
  panic_step :
      (i : ℕ) (txid reason : String) (txids : List String)
      → get_elem? reasons i ≡ some reason
      → (get_elem? events i ≡ none)
        ⊎ (get_elem? ccids i ≡ none)
        ⊎ (build_transactions (suc i) txids reasons events ccids ≡ panic "index out of range")
      → build_transactions i (txid ∷ txids) reasons events ccids ≡ panic "index out of range"
  unfolding build_transactions
  panic_step i txid reason txids er h = ground arith

  -- If each array reaches as far as the transaction IDs do, the block is built.
  build_all :
      (i : ℕ) (txids : List String)
      → i + length txids ≤ length reasons
      → i + length txids ≤ length events
      → i + length txids ≤ length ccids
      → (txs : List Transaction) × (build_transactions i txids reasons events ccids ≡ ok txs)
        × Aligned reasons events ccids i txids txs
  build_all i [] hr he hc = ([], unfold build_transactions in refl, done)
  build_all i (txid ∷ txids) hr he hc =
      let (reason, er) = get_elem?_in reasons i (omega arith) in
      let (event, ee) = get_elem?_in events i (omega arith) in
      let (ccid, ec) = get_elem?_in ccids i (omega arith) in
      let (txs, e, a) = build_all (suc i) txids (omega arith) (omega arith) (omega arith) in
      (
        new_transaction txid reason event ccid ∷ txs,
        build_step i txid reason ccid event txids txs er ee ec e,
        more er ee ec a,
      )

  panic_cases :
      (i : ℕ) (txids : List String)
      → (i < length events
          → i < length ccids
          → build_transactions (suc i) txids reasons events ccids ≡ panic "index out of range")
      → (get_elem? events i ≡ none)
        ⊎ (get_elem? ccids i ≡ none)
        ⊎ (build_transactions (suc i) txids reasons events ccids ≡ panic "index out of range")
  panic_cases i txids rest = elim (dec_lt i (length events)) [
    | no out ↦ inl (get_elem?_out events i (omega arith))
    | yes he ↦ elim (dec_lt i (length ccids)) [
      | no out ↦ inr (inl (get_elem?_out ccids i (omega arith)))
      | yes hc ↦ inr (inr (rest he hc))
    ]
  ]

  -- If an array ends before the transaction IDs do, the loop panics.
  build_panics :
      (i : ℕ) (txids : List String)
      → i + length txids ≤ length reasons
      → i ≤ length events
      → i ≤ length ccids
      → (length events < i + length txids) ⊎ (length ccids < i + length txids)
      → build_transactions i txids reasons events ccids ≡ panic "index out of range"
  build_panics i [] hr he hc h = absurd (omega arith)
  build_panics i (txid ∷ txids) hr he hc h =
      let (reason, er) = get_elem?_in reasons i (omega arith) in
      panic_step i txid reason txids er (
        panic_cases i txids
          (λ he' hc'. build_panics (suc i) txids (omega arith) he' hc' (omega arith)))

-- JSON texts that are base64 of the given bytes.
abbrev pub Encodes : (String → Option Bytes) → List Value → List Bytes → Type 0
Encodes decode [] [] = Unit
Encodes decode (str s ∷ vs) (b ∷ bs) = (decode s ≡ some b) × Encodes decode vs bs
Encodes decode _ _ = ⊥

convert_texts :
    (what : String) (ss : List String) → convert_all (string_member what) (map str ss) ≡ ok ss
unfolding convert_all
convert_texts what [] = refl
convert_texts what (s ∷ ss) = rw (convert_texts what ss)

same_length-ok :
    (txids reasons : List String)
    → length txids ≡ length reasons
    → same_length txids reasons ≡ ok tt
same_length-ok txids reasons h = ground arith

module _ (p : Platform) where
  convert_events :
      (vs : List Value) (bs : List Bytes)
      → Encodes p.base64_decode vs bs
      → convert_all (event_member p) vs ≡ ok bs
  unfolding convert_all event_member
  convert_events [] [] h = refl
  convert_events (str s ∷ vs) (b ∷ bs) (e, h) = rw (e, convert_events vs bs h)
  convert_events (str s ∷ vs) [] h = elim h [ ]
  convert_events [] (b ∷ bs) h = elim h [ ]
  convert_events (_ ∷ vs) bs h = elim h [ ]

  -- A result object with a block hash and four arrays: texts, texts, base64 texts, texts.
  pub record BlockFields (v : Value) (hash : String) (txids reasons : List String)
      (events : List Bytes) (ccids : List String) : Type 0 where
    pub res : Dict Value
    pub event_values : List Value
    pub is_object : as_object v ≡ some res
    pub has_hash : lookup "block_hash" res ≡ some (str hash)
    pub has_txids : lookup "transaction_ids" res ≡ some (strings txids)
    pub has_reasons : lookup "transaction_reasons" res ≡ some (strings reasons)
    pub has_events : lookup "transaction_events" res ≡ some (arr (of_elems event_values))
    pub encoded : Encodes p.base64_decode event_values events
    pub has_ccids : lookup "chaincode_ids" res ≡ some (strings ccids)

  module _ {v : Value} {hash : String} {txids reasons : List String} {events : List Bytes}
      {ccids : List String} (f : BlockFields v hash txids reasons events ccids)
      (same : length txids ≡ length reasons) where
    decode_block-build :
        decode_block p v
        ≡ (build_transactions 0 txids reasons events ccids >>= λ txs. ok (new_block hash txs))
    unfolding decode_block
    decode_block-build = simp (
      f.is_object,
      f.has_hash,
      f.has_txids,
      f.has_reasons,
      f.has_events,
      f.has_ccids,
      elems-of_elems,
      convert_texts,
      convert_events f.event_values events f.encoded,
      same_length-ok txids reasons same,
    )

    -- For a result with a block hash and four arrays, if there are as many reasons as transaction
    -- IDs, and at least as many events and chaincode IDs, `QueryBlock` makes the block with that hash
    -- whose transactions hold, in order, the ID, reason, decoded event and chaincode ID of each place.
    pub decode_block-Aligned :
        length txids ≤ length events
        → length txids ≤ length ccids
        → (txs : List Transaction) × (decode_block p v ≡ ok (new_block hash txs))
          × Aligned reasons events ccids 0 txids txs
    decode_block-Aligned he hc =
        let (txs, e, a) =
          build_all reasons events ccids 0 txids (omega arith) (omega arith) (omega arith) in
        (
          txs,
          decode_block-build ∙ ap (λ r. r >>= λ (ts : List Transaction). ok (new_block hash ts)) e,
          a,
        )

    -- For such a result, if there are as many reasons as transaction IDs, but fewer events or fewer
    -- chaincode IDs, `QueryBlock` panics.
    pub decode_block_panics :
        (length events < length txids) ⊎ (length ccids < length txids)
        → decode_block p v ≡ panic "index out of range"
    decode_block_panics h =
        decode_block-build
        ∙ ap (λ r. r >>= λ (ts : List Transaction). ok (new_block hash ts))
            (build_panics reasons events ccids 0 txids (omega arith) (omega arith) (omega arith)
              (omega arith))
