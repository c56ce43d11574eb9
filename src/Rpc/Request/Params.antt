-- ===== src/Rpc/Request/Params.antt =====
-- internal/rpc/shiroclient.go: the "params" object of a call, key by key.
use shiroclient_sdk_go.Prelude.{
  zero, suc, String, Bool, true, false, Option, none, some, List, [], ◌∷◌, ◌==◌, ◌≡◌, refl, arith,
  if◌then◌else◌,
}
use shiroclient_sdk_go.Prelude.Int.{ℤ, pos, negsuc}
use shiroclient_sdk_go.Prelude.Dict.{Dict, insert, lookup, lookup-insert, lookup-cons}
use shiroclient_sdk_go.Json.{Value, bool, num, str, obj, of_members, strings}
use shiroclient_sdk_go.Json.Float.{of_ℕ}
use shiroclient_sdk_go.Types.Options.{Ctx, RequestOptions}
use shiroclient_sdk_go.Rpc.Request.{
  transient_json, set_if, set_text, set_list, set_min_endorsers, proxy_text, call_params,
}

-- What an option says of its key: a text or a list if it is not empty, a flag if it is set, a number
-- if it is positive.
abbrev pub text : String → Option Value
text v = if v == "" then none else some (str v)

abbrev pub texts : List String → Option Value
texts [] = none
texts (v ∷ vs) = some (strings (v ∷ vs))

abbrev pub flag : Bool → Option Value
flag false = none
flag true = some (bool true)

abbrev pub positive : ℤ → Option Value
positive (pos zero) = none
positive (pos (suc n)) = some (num (of_ℕ (suc n)))
positive (negsuc n) = none

-- All keys that a call may have, each with its value if there is one.
abbrev pub param_table : String → Value → RequestOptions → Ctx → Dict (Option Value)
param_table method args opt ctx =
    ("not_target_endpoints", texts opt.not_target_endpoints)
    ∷ ("target_endpoints", texts opt.target_endpoints)
    ∷ ("creator_msp_id", text opt.creator)
    ∷ ("min_endorsers", positive opt.min_endorsers)
    ∷ ("msp_filter", texts opt.msp_filter)
    ∷ ("cc_fetchurl_proxy", some (str (proxy_text opt.cc_fetch_url_proxy)))
    ∷ ("cc_fetchurl_downgrade", some (bool opt.cc_fetch_url_downgrade))
    ∷ ("disable_write_polling", flag opt.disable_write_polling)
    ∷ ("new_phylum_version", text opt.new_phylum_version)
    ∷ ("phylum_version", text opt.phylum_version)
    ∷ ("dependent_block", text opt.dependent_block)
    ∷ ("dependent_txid", text opt.dependent_tx_id)
    ∷ ("method", some (str method))
    ∷ ("params", some args)
    ∷ ("transient", some (obj (of_members (transient_json opt ctx))))
    ∷ []

unfoldable pub present : Dict (Option Value) → Dict Value
present [] = []
present ((k, none) ∷ rest) = present rest
present ((k, some v) ∷ rest) = (k, v) ∷ present rest

module _ (j k : String) (m : Dict Value) (rest : Dict (Option Value))
    (h : lookup j m ≡ lookup j (present rest)) where
  insert-present : (v : Value) → lookup j (insert k v m) ≡ lookup j (present ((k, some v) ∷ rest))
  unfolding present
  insert-present v = ground (arith, h, lookup-insert k j v m, lookup-cons k j v (present rest))

  set_text-present :
      (v : String) → lookup j (set_text k v m) ≡ lookup j (present ((k, text v) ∷ rest))
  unfolding present
  set_text-present v = ground (arith, h, insert-present (str v))

  set_list-present :
      (v : List String) → lookup j (set_list k v m) ≡ lookup j (present ((k, texts v) ∷ rest))
  unfolding present
  set_list-present [] = h
  set_list-present (v ∷ vs) = insert-present (strings (v ∷ vs))

  set_flag-present :
      (b : Bool) → lookup j (set_if b k (bool true) m) ≡ lookup j (present ((k, flag b) ∷ rest))
  unfolding present
  set_flag-present false = h
  set_flag-present true = insert-present (bool true)

set_min_endorsers-present :
    (j : String) (m : Dict Value) (rest : Dict (Option Value)) (n : ℤ)
    → lookup j m ≡ lookup j (present rest)
    → lookup j (set_min_endorsers n m) ≡ lookup j (present (("min_endorsers", positive n) ∷ rest))
unfolding present
set_min_endorsers-present j m rest (pos zero) h = h
set_min_endorsers-present j m rest (pos (suc n)) h =
    insert-present j "min_endorsers" m rest h (num (of_ℕ (suc n)))
set_min_endorsers-present j m rest (negsuc n) h = h

-- What a call has in any case.
base-present :
    (method : String) (args transient : Value) (k : String)
    → lookup k (("method", str method) ∷ ("params", args) ∷ ("transient", transient) ∷ [])
      ≡ lookup k (
          present (
            ("method", some (str method))
            ∷ ("params", some args)
            ∷ ("transient", some transient)
            ∷ []))
unfolding present
base-present method args transient k = refl

-- Under each key the "params" object of a call has what the table says, and nothing under a key that
-- is not in it: the method, the parameters and the transient data always; the dependency, the
-- versions, the creator and the lists of endorsers if they are not empty; write polling if it is
-- disabled; the least number of endorsers if it is positive; and the two settings for chaincode
-- always.
pub lookup-call_params :
    (method : String) (args : Value) (opt : RequestOptions) (ctx : Ctx) (k : String)
    → lookup k (call_params method args opt ctx)
      ≡ lookup k (present (param_table method args opt ctx))
unfolding call_params
lookup-call_params method args opt ctx k =
    set_list-present k _ _ _
      (set_list-present k _ _ _
        (set_text-present k _ _ _
          (set_min_endorsers-present k _ _ opt.min_endorsers (
            set_list-present k _ _ _
              (insert-present k _ _ _
                (insert-present k _ _ _
                  (set_flag-present k _ _ _
                    (set_text-present k _ _ _
                      (set_text-present k _ _ _
                        (set_text-present k _ _ _
                          (set_text-present k _ _ _ (base-present method args _ k)
                            opt.dependent_tx_id)
                          opt.dependent_block)
                        opt.phylum_version)
                      opt.new_phylum_version)
                    opt.disable_write_polling)
                  _)
                _)
              opt.msp_filter))
          opt.creator)
        opt.target_endpoints)
      opt.not_target_endpoints
