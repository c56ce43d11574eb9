-- ===== src/Types.antt =====
-- internal/types/types.go: the client interface, options, responses, blocks and `UnmarshalProto`.
pub mod Options
pub mod Response
pub mod Chain
pub mod Laws
pub mod Recorded
use shiroclient_sdk_go.Prelude.{ℕ, String, List}
use shiroclient_sdk_go.Exec.{Exec}
use Options.{Ctx, Config}
use Response.{ShiroResponse}
use Chain.{Block}

-- The interface `ShiroClient`; `State` is what a client and the network behind it keep.
pub record ShiroClient : Type 1 where
  pub State : Type 0
  pub seed : Ctx → String → List Config → Exec State (Unit {0})
  pub shiro_phylum : Ctx → List Config → Exec State String
  pub init : Ctx → String → List Config → Exec State (Unit {0})
  pub call : Ctx → String → List Config → Exec State ShiroResponse
  pub query_info : Ctx → List Config → Exec State ℕ
  pub query_block : Ctx → ℕ → List Config → Exec State Block
