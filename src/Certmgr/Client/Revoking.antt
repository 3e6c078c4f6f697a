-- ===== src/Certmgr/Client/Revoking.antt =====
-- What the relay's admin service (internal/relay/admin.go) makes of the requests of the certificate
-- manager's client (internal/certmgr/client.go).
use text.Mathlib.Text.{◌==◌ as str_eq}
use text.Mathlib.TextEquality.{eq_iff}
use text.Mathlib.TextPositions.{len-append}
use Prim.Native.String.{◌++◌, len}
use modelrelay.Base.{
  ℕ, ◌<◌, ◌≡◌, ◌⊎◌, inl, inr, refl, sym, ap, ◌∙◌, subst, Bool, true, false, not, ◌&&◌, String, List,
  Option, some, arith, lookup, string_eq, ltb, none-some, Option-cases, Bool-cases,
}
use modelrelay.Store.Certs.{Store, CertMeta, is_cert_revoked, get_cert, revoke_cert}
use modelrelay.Store.Certs.Revocation.{revoke_cert-is_cert_revoked}
use modelrelay.Admin.{AdminState, Session, Request, session_from_req, reject_cross_origin, is_safe}
use modelrelay.Admin.Api.Authority.{handle_api-route}
use modelrelay.Admin.Api.{Decoders, handle_cert_revoke, route, handle_session, handle_api, api_path}
use modelrelay.Certmgr.Client.{AdminClient, Url, request_to, origin_of}

-- The session is valid, and the state is as before.
session_from_req-same :
    (now : ℕ) (r : Request) (a : AdminState) (s : Session)
    → (session_from_req now r a).1 ≡ some s
    → (session_from_req now r a).0 ≡ a
unfolding session_from_req
session_from_req-same now r a s h = elim (Option-cases r.cookie) [
  | inl none_sent ↦ rw (session_from_req, none_sent)
  | inr (token, sent) ↦ elim (Option-cases (lookup token a.sessions)) [
    | inl unknown ↦ rw (session_from_req, sent, unknown)
    | inr (t, known) ↦ elim (Bool-cases (ltb t.expiry now)) [
      | inl expired ↦ absurd (none-some (rw (session_from_req, sent, known, expired) at h))
      | inr valid ↦ rw (session_from_req, sent, known, valid)
    ]
  ]
]

-- A web address as a browser or the client of the certificate manager uses it.
abbrev pub IsWeb : Url → Type 0
IsWeb v = ((v.scheme ≡ "http") ⊎ (v.scheme ≡ "https")) × (str_eq v.host "" ≡ false)

filled : (s h : String) → 0 < len s → str_eq (s ++ h) "" ≡ false
filled s h some_text = elim (Bool-cases (str_eq (s ++ h) "")) [
  | inr other ↦ other
  | inl empty ↦
      absurd (omega (arith, some_text, len-append s h, ap len ((eq_iff (s ++ h) "").0 empty)))
]

and_false : (b : Bool) → (b && false) ≡ false
and_false true = refl
and_false false = refl

-- The service accepts the origin that is its own host's address.
own_origin :
    (h : String) (r : Request)
    → r.host ≡ h
    → (r.origin ≡ "http://" ++ h) ⊎ (r.origin ≡ "https://" ++ h)
    → reject_cross_origin r ≡ false
unfolding reject_cross_origin
own_origin h r host (inl e) =
    let same : str_eq ("http://" ++ h) ("http://" ++ h) ≡ true = (eq_iff _ _).1 refl in
    rw (e, host, filled "http://" h (omega arith), same)
own_origin h r host (inr e) =
    let same : str_eq ("https://" ++ h) ("https://" ++ h) ≡ true = (eq_iff _ _).1 refl in
    rw (e, host, filled "https://" h (omega arith), same) (and_false _)

web_origin :
    (v : Url)
    → IsWeb v
    → (origin_of (some v) ≡ "http://" ++ v.host) ⊎ (origin_of (some v) ≡ "https://" ++ v.host)
web_origin v (inl http, named) = inl (rw named (ap (λ t. (t ++ "://") ++ v.host) http))
web_origin v (inr https, named) = inr (rw named (ap (λ t. (t ++ "://") ++ v.host) https))

handle_session-post :
    (json : Decoders) (now : ℕ) (sent : Bool) (r : Request) (a : AdminState) (s : Session)
    → r.method ≡ "POST"
    → reject_cross_origin r ≡ false
    → str_eq s.role "readonly" ≡ false
    → handle_session json now sent r a s ≡ route json now sent r s (api_path r) a
unfolding handle_session
handle_session-post json now sent r a s method origin role =
    let accepted : (not (is_safe r.method) && reject_cross_origin r) ≡ false =
      rw origin (and_false _) in
    let writer : (str_eq s.role "readonly" && not (str_eq r.method "GET")) ≡ false = rw role in
    rw (handle_session, accepted, writer)

route-revoke :
    (json : Decoders) (now : ℕ) (sent : Bool) (r : Request) (s : Session) (a : AdminState)
    → r.method ≡ "POST"
    → route json now sent r s "/certs/revoke" a ≡ handle_cert_revoke json now r s a
unfolding route
route-revoke json now sent r s a method = rw (route, method)

abbrev pub Revoked : String → AdminState × ℕ → Type 0
Revoked serial (b, status) =
    (status ≡ 200) × ((st : Store) × (b.store ≡ some st) × (is_cert_revoked st serial ≡ true))

handle_cert_revoke-done :
    (json : Decoders) (now : ℕ) (r : Request) (s : Session) (a : AdminState) (st : Store)
    (meta : CertMeta) (serial : String)
    → json.serial r.body ≡ some serial
    → str_eq serial "" ≡ false
    → a.store ≡ some st
    → lookup serial st.certs ≡ some meta
    → Revoked serial (handle_cert_revoke json now r s a)
unfolding handle_cert_revoke get_cert is_cert_revoked
handle_cert_revoke-done json now r s a st meta serial decodes named stored known =
    elim (Option-cases (revoke_cert now serial "revoked_by_admin" st)) [
      | inl failed ↦ absurd (none-some (sym (rw (revoke_cert, known) at failed)))
      | inr (st', done) ↦
          let revoked : is_cert_revoked st' serial ≡ true =
            revoke_cert-is_cert_revoked now serial "revoked_by_admin" serial st st' done
            ∙ rw ((string_eq.eqb_iff serial serial).1 refl) in
          rw (handle_cert_revoke, decodes, named, stored, get_cert, known, done)
            (refl, (_, refl, revoked))
    ]

module _ (parse : String → Option Url) where
  origin_accepted :
      (c : AdminClient) (body : List ℕ) (u v : Url)
      → parse c.base_url ≡ some v
      → IsWeb v
      → u.host ≡ v.host
      → reject_cross_origin (request_to parse c "POST" body u) ≡ false
  origin_accepted c body u v base web same =
      own_origin v.host (request_to parse c "POST" body u) same (rw base (web_origin v web))

  -- If the address of the client is a web address, the request that it makes for a path has that path
  -- and the address's host, its session is valid and not readonly, and the body decodes to a serial
  -- that the store has, then the relay answers the client's revocation with 200 and afterwards has
  -- this serial for revoked.
  pub handle_api-revoke :
      (c : AdminClient) (body : List ℕ) (u v : Url) (api_json : Decoders) (now : ℕ) (sent : Bool)
      (a : AdminState) (s : Session) (st : Store) (meta : CertMeta) (serial : String)
      → parse c.base_url ≡ some v
      → IsWeb v
      → u.host ≡ v.host
      → u.path ≡ "/api/certs/revoke"
      → (session_from_req now (request_to parse c "POST" body u) a).1 ≡ some s
      → str_eq s.role "readonly" ≡ false
      → api_json.serial body ≡ some serial
      → str_eq serial "" ≡ false
      → a.store ≡ some st
      → lookup serial st.certs ≡ some meta
      → Revoked serial (handle_api api_json now sent (request_to parse c "POST" body u) a)
  handle_api-revoke c body u v api_json now sent a s st meta serial base web host path valid role
        decodes named stored known =
      let r : Request = request_to parse c "POST" body u in
      let same : (session_from_req now r a).0 ≡ a = session_from_req-same now r a s valid in
      let at_revoke : api_path r ≡ "/certs/revoke" = rw path in
      let reached : handle_api api_json now sent r a ≡ handle_cert_revoke api_json now r s a =
        handle_api-route api_json now sent r a s (rw path) valid
        ∙ ap (λ b. handle_session api_json now sent r b s) same
        ∙ handle_session-post api_json now sent r a s refl
            (origin_accepted c body u v base web host) role
        ∙ ap (λ p. route api_json now sent r s p a) at_revoke
        ∙ route-revoke api_json now sent r s a refl in
      subst (Revoked serial) (sym reached)
        (handle_cert_revoke-done api_json now r s a st meta serial decodes named stored known)
