-- ===== src/Types/Chain.antt =====
-- internal/types/types.go: summary information about blocks and transactions.
use shiroclient_sdk_go.Prelude.{String, List, Bytes}

pub record Transaction : Type 0 where
  pub id : String
  pub reason : String
  pub cc_id : String
  pub event : Bytes

-- `NewTransaction`
abbrev pub new_transaction : String → String → Bytes → String → Transaction
new_transaction id reason event cc_id = record {
  id = id;
  reason = reason;
  cc_id = cc_id;
  event = event;
}

pub record Block : Type 0 where
  pub hash : String
  pub transactions : List Transaction

-- `NewBlock`
abbrev pub new_block : String → List Transaction → Block
new_block hash txs = record { hash = hash; transactions = txs }
