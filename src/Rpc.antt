-- ===== src/Rpc.antt =====
-- internal/rpc and x/rpc: the JSON-RPC client of the gateway.
pub mod Codes
pub mod Numbers
pub mod Transport
pub mod Reply
pub mod Request
pub mod Blocks
pub mod Client
pub mod Interface
pub mod Health
