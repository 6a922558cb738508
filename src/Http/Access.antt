-- ===== src/Http/Access.antt =====
-- Who may use the HTTP interface (src/main.rs).
use webex_generic_account_bo.Base.{
  ◌≡◌, ◌≢◌, refl, sym, ap, subst, Bool, true, false, Option, none, some, ◌++◌, err, arith,
  Bool-cases, ◌⊎◌, inl, inr,
}
use webex_generic_account_bo.Text.{Text, text, text_eq, text_eq_sound, is_blank, is_some_text}
use webex_generic_account_bo.Http.Server.{
  AppState, Site, EventRequest, into_response, unauthorized, authorize, sidecar_token,
  on_authorized, handle_event, on_health_authorized, handle_health,
}

not_text : (t : Text) (o : Option Text) → o ≢ some t → is_some_text t o ≡ false
not_text t none h = refl
not_text t (some s) h = elim (Bool-cases (text_eq s t)) [
  | inl e ↦ absurd (h (ap some (text_eq_sound s t e)))
  | inr e ↦ e
]

-- With a configured token, a request whose `Authorization` header is not `Bearer ` and that token,
-- or that has none, is answered with status 401 by both handlers, and changes nothing.
pub unauthorized_request_is_refused :
    (site : Site) (token : Text) (request : EventRequest) (scan_free : Bool) (s : AppState)
    → site.sidecar_token ≡ some token
    → request.authorization ≢ some (text "Bearer " ++ token)
    → (handle_event site request s ≡ (into_response unauthorized, s))
      × (handle_health site request.authorization scan_free s ≡ (into_response unauthorized, s))
unfolding handle_event handle_health authorize
unauthorized_request_is_refused site token request scan_free s e h =
    let refused = refusal site token request.authorization e h in
    (
      ap (λ r. on_authorized site request r s) refused,
      ap (λ r. on_health_authorized site scan_free r s) refused,
    )
  where
    refusal :
        (site : Site) (token : Text) (o : Option Text)
        → site.sidecar_token ≡ some token
        → o ≢ some (text "Bearer " ++ token)
        → authorize site.sidecar_token o ≡ err unauthorized
    refusal site token o e h =
        subst (λ t. authorize t o ≡ err unauthorized) (sym e)
          (rw (not_text (text "Bearer " ++ token) o h) refl)

-- The bot starts without a token only where the configuration allows unauthenticated requests; where
-- it does not, it starts only with the value of the environment variable, which is not blank.
pub sidecar_token_is_required :
    (value token : Option Text) (allow_unauthenticated : Bool)
    → sidecar_token value allow_unauthenticated ≡ some token
    → (allow_unauthenticated ≡ true)
      ⊎ ((t : Text) × (token ≡ some t) × (value ≡ some t) × (is_blank t ≡ false))
unfolding sidecar_token
sidecar_token_is_required value token true h = inl refl
sidecar_token_is_required none token false h = absurd (ground arith)
sidecar_token_is_required (some t) token false h = inr (t, ground arith, refl, ground arith)
