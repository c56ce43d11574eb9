-- ===== src/Rpc/Client/Queries.antt =====
-- internal/rpc/shiroclient.go: what a block that `QueryBlock` returns comes from.
use shiroclient_sdk_go.Prelude.{
  ℕ, ◌+◌, ◌^◌, ◌≤◌, String, false, List, [], ◌∷◌, ◌++◌, ◌≡◌, refl, ◌⊎◌, ap, ◌∙◌,
}
use shiroclient_sdk_go.Errors.{ok}
use shiroclient_sdk_go.Exec.{◌>>=◌}
use shiroclient_sdk_go.Exec.Laws.{bind-eq-ok}
use shiroclient_sdk_go.Json.{Value, num, str, obj, of_members}
use shiroclient_sdk_go.Json.Float.{Float64, magnitude, float_of_uint64}
use shiroclient_sdk_go.Json.Float.Rounding.{float_of_uint64-bounds}
use shiroclient_sdk_go.Types.Options.{Ctx, Config, RequestOptions, apply_configs}
use shiroclient_sdk_go.Types.Chain.{Block}
use shiroclient_sdk_go.Platform.{Platform}
use shiroclient_sdk_go.Rpc.Codes.{Level, no_error, level_of}
use shiroclient_sdk_go.Rpc.Transport.{Session}
use shiroclient_sdk_go.Rpc.Reply.{Rpcres}
use shiroclient_sdk_go.Rpc.Blocks.{decode_block}
use shiroclient_sdk_go.Rpc.Client.{
  RpcClient, reqres, client_options, query_block, query_block_switch,
}
use shiroclient_sdk_go.Rpc.Client.Laws.{RoundTrip, reqres-RoundTrip}

-- The float is the number if that is below 2 ^ 53, and at most 2 ^ 10 away from it otherwise.
pub record Approximates (n : ℕ) (f : Float64) : Type 0 where
  pub sign : f.negative ≡ false
  pub below : n ≤ magnitude f + 2 ^ 10
  pub above : magnitude f ≤ n + 2 ^ 10
  pub small : (magnitude f ≡ n) ⊎ (2 ^ 53 ≤ n)

float_of_uint64-Approximates : (n : ℕ) → Approximates n (float_of_uint64 n)
unfolding float_of_uint64
float_of_uint64-Approximates n =
    let (below, above, small) = float_of_uint64-bounds n in
    record { sign = refl; below = below; above = above; small = small }

-- The JSON-RPC request of `QueryBlock` for a number.
abbrev pub block_query : RequestOptions → Float64 → Value
block_query opt f = obj (
    of_members (
      ("jsonrpc", str "2.0")
      ∷ ("id", str opt.id)
      ∷ ("method", str "QueryBlock")
      ∷ ("params", obj (of_members (("block_number", num f) ∷ [])))
      ∷ []))

module _ (p : Platform) where
  pub record Fetched (ctx : Ctx) (n : ℕ) (opt : RequestOptions) (s : Session p) (b : Block)
      (t : Session p) : Type 0 where
    pub number : Float64
    pub approximates : Approximates n number
    pub reply : Rpcres
    pub trip : RoundTrip p ctx (ok (block_query opt number)) opt s reply t
    pub accepted : level_of reply.error_level ≡ no_error
    pub decodes : decode_block p reply.result ≡ ok b

  -- A reply is accepted at level 0 only, and without a change of the session.
  switch-accepted :
      (l : Level) (r : Rpcres) (s t : Session p) (b : Block)
      → query_block_switch p l r s ≡ (ok b, t)
      → (l ≡ no_error) × (decode_block p r.result ≡ ok b) × (s ≡ t)
  unfolding query_block_switch
  switch-accepted no_error r s t b h = (refl, ap (λ x. x.0) h, ap (λ x. x.1) h)
  switch-accepted _ r s t b h = cc

  module _ (c : RpcClient) (ctx : Ctx) (n : ℕ) where
    fetch-Fetched :
        (opt : RequestOptions) (s t : Session p) (b : Block)
        → (reqres p ctx (ok (block_query opt (float_of_uint64 n))) opt >>= λ r.
              query_block_switch p (level_of r.error_level) r)
            s
          ≡ (ok b, t)
        → Fetched ctx n opt s b t
    fetch-Fetched opt s t b h =
        let (r, u, e, k) = bind-eq-ok _ _ s h in
        let (accepted, decodes, same) = switch-accepted _ r u t b k in
        record {
          number = float_of_uint64 n;
          approximates = float_of_uint64-Approximates n;
          reply = r;
          trip = reqres-RoundTrip p ctx _ opt s (e ∙ ap (λ v. (ok r, v)) same);
          accepted = accepted;
          decodes = decodes;
        }

    -- If `QueryBlock` returns a block, with `uuid` for the random ID, then it has sent one POST, of the
    -- method "QueryBlock" with a number that is the block number below 2 ^ 53 and at most 2 ^ 10 away
    -- from it otherwise; and the gateway's answer to that request decodes to a reply at error level 0
    -- whose result decodes to the block.
    pub query_block-Fetched :
        (configs : List Config) (s t : Session p) (uuid : String) (w : p.World) (b : Block)
        → p.new_uuid s.world ≡ (ok uuid, w)
        → query_block p c ctx n configs s ≡ (ok b, t)
        → Fetched ctx n
            (apply_configs uuid c.default_log (c.base_config ++ configs))
            (record s { world = w })
            b
            t
    unfolding query_block client_options ◌>>=◌
    query_block-Fetched configs s t uuid w b fresh h =
        fetch-Fetched (apply_configs uuid c.default_log (c.base_config ++ configs))
          (record s { world = w }) t b (rw fresh at h)
