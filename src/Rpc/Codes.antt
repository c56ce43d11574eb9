-- ===== src/Rpc/Codes.antt =====
-- x/rpc/rpc.go: method names, error levels and error codes of the gateway.
use shiroclient_sdk_go.Prelude.{String, zero, suc}
use shiroclient_sdk_go.Prelude.Int.{ℤ, pos}

abbrev pub method_seed : String
method_seed = "Seed"

abbrev pub method_shiro_phylum : String
method_shiro_phylum = "ShiroPhylum"

abbrev pub method_init : String
method_init = "Init"

abbrev pub method_call : String
method_call = "Call"

abbrev pub method_query_info : String
method_query_info = "QueryInfo"

abbrev pub method_query_block : String
method_query_block = "QueryBlock"

abbrev pub error_level_no_error : ℤ
error_level_no_error = pos 0

abbrev pub error_level_shiro_client : ℤ
error_level_shiro_client = pos 1

abbrev pub error_level_phylum : ℤ
error_level_phylum = pos 2

abbrev pub error_code_shiro_client_timeout : ℤ
error_code_shiro_client_timeout = pos 1

-- The cases of a `switch` over the level of a reply.
pub data Level : Type 0 where
  no_error shiro_client phylum unexpected : Level

abbrev pub level_of : ℤ → Level
level_of (pos zero) = no_error
level_of (pos (suc zero)) = shiro_client
level_of (pos (suc (suc zero))) = phylum
level_of _ = unexpected
