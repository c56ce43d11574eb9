-- ===== src/Rpc/Interface.antt =====
-- The RPC client as an implementation of the interface `ShiroClient`.
use shiroclient_sdk_go.Types.{ShiroClient}
use shiroclient_sdk_go.Platform.{Platform}
use shiroclient_sdk_go.Rpc.Transport.{Session}
use shiroclient_sdk_go.Rpc.Client.{
  RpcClient, seed, shiro_phylum, init, call, query_info, query_block,
}

abbrev pub rpc_shiro_client : Platform → RpcClient → ShiroClient
rpc_shiro_client p c = record {
  State = Session p;
  seed = seed p c;
  shiro_phylum = shiro_phylum p c;
  init = init p c;
  call = call p c;
  query_info = query_info p c;
  query_block = query_block p c;
}
