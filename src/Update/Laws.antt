-- ===== src/Update/Laws.antt =====
-- What the operations of update.go do when they succeed, and when the phylum refuses.
use shiroclient_sdk_go.Prelude.{
  String, List, [], ◌∷◌, ◌++◌, Bytes, ◌≡◌, refl, arith, ◌∙◌, sym, ap, ◌↔◌,
}
use shiroclient_sdk_go.Errors.{FailureError, ok, err, errors_new}
use shiroclient_sdk_go.Exec.{Exec, lift, ◌>>=◌}
use shiroclient_sdk_go.Exec.Laws.{bind-eq-ok, lift-eq-ok}
use shiroclient_sdk_go.Json.{strings}
use shiroclient_sdk_go.Types.{ShiroClient}
use shiroclient_sdk_go.Types.Options.{Ctx, Config}
use shiroclient_sdk_go.Types.Response.{
  ShiroResponse, SuccessResponse, Dst, success_response, failure_response, unmarshal_to,
  unmarshal_proto,
}
use shiroclient_sdk_go.Configs.{with_params}
use shiroclient_sdk_go.Platform.{Platform}
use shiroclient_sdk_go.Update.{
  accept, call_accept, get_phyla, enable, disable, install, get_phyla_method,
  with_new_phylum_version, Phyla,
}

module _ (p : Platform) where
  accept-eq-ok :
      (r : ShiroResponse) {resp : ShiroResponse}
      → accept p r ≡ ok resp
      → (b : SuccessResponse) × (r ≡ success_response b) × (resp ≡ success_response b)
  unfolding accept
  accept-eq-ok (failure_response e) h = cc
  accept-eq-ok (success_response b) h = (b, refl, ground arith)

  module _ (client : ShiroClient) where
    -- An accepted response is a success.
    pub call_accept-eq-ok :
        (ctx : Ctx) (method : String) (configs : List Config) (s : client.State)
        {resp : ShiroResponse} {t : client.State}
        → call_accept p client ctx method configs s ≡ (ok resp, t)
        → (b : SuccessResponse) × (resp ≡ success_response b)
          × (client.call ctx method configs s ≡ (ok (success_response b), t))
    unfolding call_accept
    call_accept-eq-ok ctx method configs s h =
        let (r, u, e, k) = bind-eq-ok _ _ s h in
        let (er, es) = lift-eq-ok (accept p r) u k in
        let (b, eb, ec) = accept-eq-ok r er in (b, ec, e ∙ (λ i. (ok (eb i), es i)))

    pub call_accept-success :
        (ctx : Ctx) (method : String) (configs : List Config) (s : client.State)
        {b : SuccessResponse} {t : client.State}
        → client.call ctx method configs s ≡ (ok (success_response b), t)
        → call_accept p client ctx method configs s ≡ (ok (success_response b), t)
    unfolding call_accept ◌>>=◌ accept
    call_accept-success ctx method configs s h = rw h

    -- The call went through, and the phylum reported no error.
    abbrev pub Succeeds : Ctx → String → List Config → client.State → client.State → Type 0
    Succeeds ctx method configs s t =
        (b : SuccessResponse) × (client.call ctx method configs s ≡ (ok (success_response b), t))

    -- A call whose response is only looked at for an error.
    abbrev only_call : Ctx → String → List Config → Exec client.State (Unit {0})
    only_call ctx method configs = call_accept p client ctx method configs >>= λ _. lift (ok tt)

    only_call-eq-ok :
        (ctx : Ctx) (method : String) (configs : List Config) (s t : client.State)
        → only_call ctx method configs s ≡ (ok tt, t)
        → Succeeds ctx method configs s t
    only_call-eq-ok ctx method configs s t h =
        let (r, u, e, k) = bind-eq-ok _ _ s h in
        let (b, eb, ec) = call_accept-eq-ok ctx method configs s e in
        (b, ec ∙ ap (λ u. (ok (success_response b), u)) (ap (λ x. x.1) k))

    only_call-success :
        (ctx : Ctx) (method : String) (configs : List Config) (s t : client.State)
        → Succeeds ctx method configs s t
        → only_call ctx method configs s ≡ (ok tt, t)
    unfolding ◌>>=◌
    only_call-success ctx method configs s t (b, h) =
        rw (call_accept-success ctx method configs s h)

    only_call_iff :
        (ctx : Ctx) (method : String) (configs : List Config) (s t : client.State)
        → (only_call ctx method configs s ≡ (ok tt, t)) ↔ Succeeds ctx method configs s t
    only_call_iff ctx method configs s t =
        (only_call-eq-ok ctx method configs s t, only_call-success ctx method configs s t)

    abbrev pub one_param : String → Config
    one_param s = with_params (ok (strings (s ∷ [])))

    -- `Enable` and `Disable` succeed exactly if one call of their method does, with the version for
    -- the only parameter after the caller's configs; `Install` exactly if one call of "update" does,
    -- with the base64 text of the code and the version to make before the caller's configs. All end
    -- in the state where the call ends.
    pub updates_iff :
        (ctx : Ctx) (version : String) (phylum : Bytes) (configs : List Config) (s t : client.State)
        → ((enable p client ctx version configs s ≡ (ok tt, t))
            ↔ Succeeds ctx "enable" (configs ++ one_param version ∷ []) s t)
          × ((disable p client ctx version configs s ≡ (ok tt, t))
              ↔ Succeeds ctx "disable" (configs ++ one_param version ∷ []) s t)
          × ((install p client ctx version phylum configs s ≡ (ok tt, t))
              ↔ Succeeds ctx "update"
                  (one_param (p.base64_encode phylum) ∷ with_new_phylum_version version ∷ configs)
                  s
                  t)
    unfolding enable disable install
    updates_iff ctx version phylum configs s t =
        (only_call_iff ctx _ _ s t, only_call_iff ctx _ _ s t, only_call_iff ctx _ _ s t)

    call_accept-failure :
        (ctx : Ctx) (method : String) (configs : List Config) (s : client.State) {e : FailureError}
        {t : client.State}
        → client.call ctx method configs s ≡ (ok (failure_response e), t)
        → call_accept p client ctx method configs s ≡ (err (errors_new (p.sprintf e.message)), t)
    unfolding call_accept ◌>>=◌ accept
    call_accept-failure ctx method configs s h = rw h

    -- A phylum error of the call is the error of `GetPhyla`: its text is the phylum's message, if
    -- `fmt.Errorf` leaves that alone. The state is the one where the call ends.
    get_phyla-refused :
        (dst : Dst Phyla) (ctx : Ctx) (configs : List Config) (s : client.State) {e : FailureError}
        {t : client.State}
        → client.call ctx get_phyla_method (configs ++ one_param "" ∷ []) s
          ≡ (ok (failure_response e), t)
        → p.sprintf e.message ≡ e.message
        → get_phyla p client dst ctx configs s ≡ (err (errors_new e.message), t)
    unfolding get_phyla ◌>>=◌
    get_phyla-refused dst ctx configs s h plain = rw (call_accept-failure ctx _ _ s h, plain)

    -- What a run of `GetPhyla` that returns `phyla` comes from.
    abbrev pub Gets : Dst Phyla → Ctx → List Config → Phyla → client.State → client.State → Type 0
    Gets dst ctx configs phyla s t =
        (b : SuccessResponse) × (client.call ctx get_phyla_method (configs ++ one_param "" ∷ []) s
          ≡ (ok (success_response b), t))
        × (unmarshal_proto b.result dst ≡ ok phyla)

    get_phyla-eq-ok :
        (dst : Dst Phyla) (ctx : Ctx) (configs : List Config) (phyla : Phyla) (s t : client.State)
        → get_phyla p client dst ctx configs s ≡ (ok phyla, t)
        → Gets dst ctx configs phyla s t
    unfolding get_phyla unmarshal_to
    get_phyla-eq-ok dst ctx configs phyla s t h =
        let (r, u, e, k) = bind-eq-ok _ _ s h in
        let (b, eb, ec) = call_accept-eq-ok ctx _ _ s e in
        let (er, es) = lift-eq-ok (unmarshal_to r dst) u k in
        (
          b,
          ec ∙ ap (λ u. (ok (success_response b), u)) es,
          sym (ap (λ r. unmarshal_to r dst) eb) ∙ er,
        )

    get_phyla-success :
        (dst : Dst Phyla) (ctx : Ctx) (configs : List Config) (phyla : Phyla) (s t : client.State)
        → Gets dst ctx configs phyla s t
        → get_phyla p client dst ctx configs s ≡ (ok phyla, t)
    unfolding get_phyla unmarshal_to ◌>>=◌
    get_phyla-success dst ctx configs phyla s t (b, h, d) = rw (call_accept-success ctx _ _ s h, d)

    -- `GetPhyla` returns what the result of a successful call of "get_phyla" decodes to, exactly
    -- when there is such a call and its result decodes.
    pub get_phyla_iff :
        (dst : Dst Phyla) (ctx : Ctx) (configs : List Config) (phyla : Phyla) (s t : client.State)
        → (get_phyla p client dst ctx configs s ≡ (ok phyla, t)) ↔ Gets dst ctx configs phyla s t
    get_phyla_iff dst ctx configs phyla s t =
        (get_phyla-eq-ok dst ctx configs phyla s t, get_phyla-success dst ctx configs phyla s t)
