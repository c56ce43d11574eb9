-- ===== src/Plugin.antt =====
-- x/plugin: the substrate plugin, its RPC client and server, and the helpers of its implementation.
pub mod Substrate
pub mod Connection
pub mod Trace
pub mod Rpc
pub mod Refinement
pub mod Args
