-- ===== src/Rpc/Request.antt =====
-- internal/rpc/shiroclient.go: what the methods of the client write into a request.
pub mod Laws
pub mod Params
use Prim.Native.Char.{Char}
use shiroclient_sdk_go.Prelude.{
  ℕ, zero, suc, ◌/◌, ◌%◌, String, Bool, true, false, Option, none, some, List, [], ◌∷◌, ◌++◌, Bytes,
  concat, digit, utf8, is_empty, ltb, ◌==◌, ◌+◌, not, if◌then◌else◌,
}
use shiroclient_sdk_go.Prelude.Int.{ℤ, pos, negsuc}
use shiroclient_sdk_go.Prelude.Dict.{Dict, insert}
use shiroclient_sdk_go.Errors.{Result, ok, ◌>>=◌}
use shiroclient_sdk_go.Json.{Value, bool, num, str, obj, of_members, strings}
use shiroclient_sdk_go.Json.Float.{of_ℕ}
use shiroclient_sdk_go.Types.Options.{Ctx, RequestOptions}
use shiroclient_sdk_go.Platform.{Platform}
use shiroclient_sdk_go.Rpc.Codes.{method_call}

-- `hex.EncodeToString`
unfoldable pub hex_digit : ℕ → Char
unfolding digit
hex_digit n =
    if ltb n 10
    then digit n
    else if ltb n 11
    then "a"
    else if ltb n 12
    then "b"
    else if ltb n 13
    then "c"
    else if ltb n 14
    then "d"
    else if ltb n 15
    then "e"
    else "f"

unfoldable pub hex_encode : Bytes → String
hex_encode [] = ""
hex_encode (b ∷ bs) =
    String.◌∷◌ (hex_digit (b / 16)) (String.◌∷◌ (hex_digit (b % 16)) (hex_encode bs))

-- The envelope that every method fills.
abbrev pub envelope : String → String → Dict Value → Value
envelope id method params = obj (
    of_members (
      ("jsonrpc", str "2.0")
      ∷ ("id", str id)
      ∷ ("method", str method)
      ∷ ("params", obj (of_members params))
      ∷ []))

-- `for k, v := range opt.Transient { transientJSON[k] = hex.EncodeToString(v) }`
unfoldable pub hex_entries : Dict Bytes → Dict Value → Dict Value
hex_entries [] m = m
hex_entries ((k, v) ∷ rest) m = hex_entries rest (insert k (str (hex_encode v)) m)

abbrev set_timestamp : Option (Ctx → String) → Ctx → Dict Value → Dict Value
set_timestamp none ctx m = m
set_timestamp (some generator) ctx m =
    insert "timestamp_override" (str (hex_encode (utf8 (generator ctx)))) m

unfoldable pub transient_json : RequestOptions → Ctx → Dict Value
unfolding hex_entries
transient_json opt ctx = set_timestamp opt.timestamp_generator ctx (hex_entries opt.transient [])

-- `if cond { params[key] = v }`
abbrev pub set_if : Bool → String → Value → Dict Value → Dict Value
set_if false k v m = m
set_if true k v m = insert k v m

abbrev pub set_text : String → String → Dict Value → Dict Value
set_text k v m = set_if (not (v == "")) k (str v) m

abbrev pub set_list : String → List String → Dict Value → Dict Value
set_list k v m = set_if (not (is_empty v)) k (strings v) m

abbrev pub proxy_text : Option String → String
proxy_text none = ""
proxy_text (some url) = url

abbrev pub set_min_endorsers : ℤ → Dict Value → Dict Value
set_min_endorsers (pos (suc n)) m = insert "min_endorsers" (num (of_ℕ (suc n))) m
set_min_endorsers _ m = m

-- The "params" object of `Call`, in the order in which the source fills it.
unfoldable pub call_params : String → Value → RequestOptions → Ctx → Dict Value
call_params method args opt ctx =
    let m0 : Dict Value =
      ("method", str method)
      ∷ ("params", args)
      ∷ ("transient", obj (of_members (transient_json opt ctx)))
      ∷ [] in
    let m1 = set_text "dependent_txid" opt.dependent_tx_id m0 in
    let m2 = set_text "dependent_block" opt.dependent_block m1 in
    let m3 = set_text "phylum_version" opt.phylum_version m2 in
    let m4 = set_text "new_phylum_version" opt.new_phylum_version m3 in
    let m5 = set_if opt.disable_write_polling "disable_write_polling" (bool true) m4 in
    let m6 = insert "cc_fetchurl_downgrade" (bool opt.cc_fetch_url_downgrade) m5 in
    let m7 = insert "cc_fetchurl_proxy" (str (proxy_text opt.cc_fetch_url_proxy)) m6 in
    let m8 = set_list "msp_filter" opt.msp_filter m7 in
    let m9 = set_min_endorsers opt.min_endorsers m8 in
    let m10 = set_text "creator_msp_id" opt.creator m9 in
    let m11 = set_list "target_endpoints" opt.target_endpoints m10 in
    set_list "not_target_endpoints" opt.not_target_endpoints m11

-- The whole request of `Call`: an error if the parameters cannot be marshalled.
unfoldable pub call_request : String → RequestOptions → Ctx → Result Value
call_request method opt ctx = do
  args ← opt.params
  ok (envelope opt.id method_call (call_params method args opt ctx))

module _ (p : Platform) where
  -- `for k, v := range opt.Headers { httpReq.Header.Set(k, v) }`
  unfoldable pub set_headers : Dict String → Dict String → Dict String
  set_headers [] h = h
  set_headers ((k, v) ∷ rest) h = set_headers rest (insert (p.canonical_header k) v h)

  abbrev set_auth : String → Dict String → Dict String
  set_auth token h =
      if token == "" then h else insert "Authorization" (concat ("Bearer " ∷ token ∷ [])) h

  unfoldable pub request_headers : Ctx → RequestOptions → Dict String
  unfolding set_headers
  request_headers ctx opt = p.inject ctx (set_auth opt.auth_token (set_headers opt.headers []))
