-- ===== src/Rpc/Request/Laws.antt =====
-- What the request of `Call` carries.
use shiroclient_sdk_go.Prelude.{
  ℕ, String, Option, none, some, List, [], ◌∷◌, ◌++◌, ◌≡◌, ◌≢◌, refl, Bytes, eq_iff, arith, ap, ◌∙◌,
  ◌==◌, ◌&&◌, not, concat, utf8, Bool-cases, inl, inr, All, if◌then◌else◌,
}
use shiroclient_sdk_go.Prelude.Dict.{
  Dict, lookup, insert, lookup-insert, NodupKeys, or_else, lookup-nil,
}
use shiroclient_sdk_go.Json.{Value, str}
use shiroclient_sdk_go.Types.Options.{Ctx, Config, RequestOptions, apply_configs}
use shiroclient_sdk_go.Platform.{Platform}
use shiroclient_sdk_go.Configs.{with_transient_data}
use shiroclient_sdk_go.Configs.Maps.{IsWith, apply_configs-IsWellFormed}
use shiroclient_sdk_go.Configs.Laws.{AllKeep, transient_last_wins}
use shiroclient_sdk_go.Rpc.Request.{
  hex_encode, hex_entries, transient_json, set_timestamp, set_headers, set_auth, request_headers,
}

abbrev hexed : Option Bytes → Option Value
hexed none = none
hexed (some v) = some (str (hex_encode v))

lookup-hex_entries :
    (k : String) (t : Dict Bytes) (m : Dict Value)
    → NodupKeys t
    → lookup k (hex_entries t m) ≡ or_else (hexed (lookup k t)) (lookup k m)
unfolding lookup hex_entries
lookup-hex_entries k [] m h = refl
lookup-hex_entries k ((j, v) ∷ t) m (fresh, h) = ground (
  arith,
  lookup-hex_entries k t (insert j (str (hex_encode v)) m) h,
  lookup-insert j k (str (hex_encode v)) m,
  eq_iff j k,
)

lookup-set_timestamp :
    (generator : Option (Ctx → String)) (ctx : Ctx) (k : String) (m : Dict Value)
    → k ≢ "timestamp_override"
    → lookup k (set_timestamp generator ctx m) ≡ lookup k m
lookup-set_timestamp none ctx k m ne = refl
lookup-set_timestamp (some generator) ctx k m ne = ground (
  arith,
  lookup-insert "timestamp_override" k (str (hex_encode (utf8 (generator ctx)))) m,
  eq_iff "timestamp_override" k,
)

lookup-transient_json :
    (opt : RequestOptions) (ctx : Ctx) (k : String)
    → NodupKeys opt.transient
    → k ≢ "timestamp_override"
    → lookup k (transient_json opt ctx) ≡ hexed (lookup k opt.transient)
unfolding transient_json
lookup-transient_json opt ctx k h ne =
    lookup-set_timestamp opt.timestamp_generator ctx k (hex_entries opt.transient []) ne
    ∙ ground (arith, lookup-hex_entries k opt.transient [] h, lookup-nil {V = Value} k)

-- The last config that sets a transient key decides what `Call` sends under that key: the
-- hexadecimal text of its bytes. The configs after it may set other keys; the key is not the
-- timestamp's, and the options' transient data is a map, with one entry for a key.
pub transient_last_sent :
    (uuid : String) (log : Option ℕ) (before after : List Config) (k : String) (v : Bytes)
    (ctx : Ctx)
    → AllKeep k after
    → k ≢ "timestamp_override"
    → NodupKeys (apply_configs uuid log (before ++ with_transient_data k v ∷ after)).transient
    → lookup k
        (transient_json (apply_configs uuid log (before ++ with_transient_data k v ∷ after)) ctx)
      ≡ some (str (hex_encode v))
transient_last_sent uuid log before after k v ctx keep ne unique =
    lookup-transient_json _ ctx k unique ne
    ∙ ap hexed (transient_last_wins uuid log before after k v keep)

abbrev timestamp_or : Option (Ctx → String) → Ctx → Option Value → Option Value
timestamp_or none ctx v = v
timestamp_or (some generator) ctx v = some (str (hex_encode (utf8 (generator ctx))))

-- What a request is to carry under a key: the timestamp of the generator, if there is one, under its
-- key, and otherwise the transient data of the options.
abbrev pub transient_entry : RequestOptions → Ctx → String → Option Value
transient_entry opt ctx k =
    if k == "timestamp_override"
    then timestamp_or opt.timestamp_generator ctx (hexed (lookup k opt.transient))
    else hexed (lookup k opt.transient)

lookup-set_timestamp_or :
    (generator : Option (Ctx → String)) (ctx : Ctx) (k : String) (m : Dict Value)
    → lookup k (set_timestamp generator ctx m)
      ≡ (if k == "timestamp_override" then timestamp_or generator ctx (lookup k m) else lookup k m)
lookup-set_timestamp_or none ctx k m = ground arith
lookup-set_timestamp_or (some generator) ctx k m = ground (
  arith,
  lookup-insert "timestamp_override" k (str (hex_encode (utf8 (generator ctx)))) m,
  eq_iff "timestamp_override" k,
  eq_iff k "timestamp_override",
)

-- For configs that the package makes, `Call` sends under every key the hexadecimal text of what the
-- options hold there, except that a timestamp generator decides the timestamp's key; and it sends
-- nothing under any other key.
pub transient_sent :
    (uuid : String) (log : Option ℕ) (cs : List Config) (ctx : Ctx) (k : String)
    → All IsWith cs
    → lookup k (transient_json (apply_configs uuid log cs) ctx)
      ≡ transient_entry (apply_configs uuid log cs) ctx k
unfolding transient_json
transient_sent uuid log cs ctx k made =
    let opt = apply_configs uuid log cs in
    let unique = (apply_configs-IsWellFormed uuid log cs made).transient in
    let entries : lookup k (hex_entries opt.transient []) ≡ hexed (lookup k opt.transient) =
      ground (arith, lookup-hex_entries k opt.transient [] unique, lookup-nil {V = Value} k) in
    lookup-set_timestamp_or opt.timestamp_generator ctx k (hex_entries opt.transient [])
    ∙ ap (λ v. if k == "timestamp_override" then timestamp_or opt.timestamp_generator ctx v else v)
        entries

-- With a timestamp generator, `Call` sends the hexadecimal text of the generated timestamp, whatever
-- transient data the configs set under its key.
timestamp_sent :
    (opt : RequestOptions) (ctx : Ctx) (generator : Ctx → String)
    → opt.timestamp_generator ≡ some generator
    → lookup "timestamp_override" (transient_json opt ctx)
      ≡ some (str (hex_encode (utf8 (generator ctx))))
unfolding transient_json
timestamp_sent opt ctx generator e = rw e (simp lookup-insert)

module _ (p : Platform) where
  auth_set :
      (token : String) (h : Dict String)
      → token ≢ ""
      → lookup "Authorization" (set_auth p token h) ≡ some (concat ("Bearer " ∷ token ∷ []))
  auth_set token h set = elim (Bool-cases (token == "")) [
    | inl empty ↦ absurd (set ((eq_iff token "").0 empty))
    | inr full ↦ rw full (simp lookup-insert)
  ]

  -- A token goes out in the header "Authorization", whatever headers the configs set, if the trace
  -- headers leave that header alone.
  token_sent :
      (ctx : Ctx) (opt : RequestOptions)
      → ((h : Dict String) → lookup "Authorization" (p.inject ctx h) ≡ lookup "Authorization" h)
      → opt.auth_token ≢ ""
      → lookup "Authorization" (request_headers p ctx opt)
        ≡ some (concat ("Bearer " ∷ opt.auth_token ∷ []))
  unfolding request_headers
  token_sent ctx opt keeps set =
      keeps _ ∙ auth_set opt.auth_token (set_headers p opt.headers []) set

  -- The value of the last configured header whose canonical form is `j`.
  abbrev pub last_header : String → Dict String → Option String
  last_header j [] = none
  last_header j ((k, v) ∷ rest) =
      or_else (last_header j rest) (if p.canonical_header k == j then some v else none)

  lookup-set_headers :
      (j : String) (headers h : Dict String)
      → lookup j (set_headers p headers h) ≡ or_else (last_header j headers) (lookup j h)
  unfolding set_headers
  lookup-set_headers j [] h = refl
  lookup-set_headers j ((k, v) ∷ rest) h = ground (
    arith,
    lookup-set_headers j rest (insert (p.canonical_header k) v h),
    lookup-insert (p.canonical_header k) j v h,
  )

  set_headers-entry :
      (j : String) (headers : Dict String)
      → lookup j (set_headers p headers []) ≡ last_header j headers
  set_headers-entry j headers =
      ground (arith, lookup-set_headers j headers [], lookup-nil {V = String} j)

  -- What a request is to carry under a header: the token, if it is set, under "Authorization", and
  -- otherwise the configured header.
  abbrev pub header_entry : RequestOptions → String → Option String
  header_entry opt j =
      if not (opt.auth_token == "") && "Authorization" == j
      then some (concat ("Bearer " ∷ opt.auth_token ∷ []))
      else last_header j opt.headers

  set_auth-entry :
      (token j : String) (h : Dict String)
      → lookup j (set_auth p token h) ≡ (
          if not (token == "") && "Authorization" == j
          then some (concat ("Bearer " ∷ token ∷ []))
          else lookup j h)
  set_auth-entry token j h =
      ground (arith, lookup-insert "Authorization" j (concat ("Bearer " ∷ token ∷ [])) h)

  -- Every header that the trace headers leave alone goes out as configured, in its canonical form, except
  -- that a token that is set decides the header "Authorization"; and no other header goes out.
  pub header_sent :
      (ctx : Ctx) (opt : RequestOptions) (j : String)
      → ((h : Dict String) → lookup j (p.inject ctx h) ≡ lookup j h)
      → lookup j (request_headers p ctx opt) ≡ header_entry opt j
  unfolding request_headers
  header_sent ctx opt j keeps =
      keeps _
      ∙ set_auth-entry opt.auth_token j (set_headers p opt.headers [])
      ∙ ap
          (λ o.
            if not (opt.auth_token == "") && "Authorization" == j
            then some (concat ("Bearer " ∷ opt.auth_token ∷ []))
            else o)
          (set_headers-entry j opt.headers)
