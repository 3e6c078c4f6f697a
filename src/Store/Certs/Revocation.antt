-- ===== src/Store/Certs/Revocation.antt =====
-- A revoked certificate stays revoked (internal/store/certs.go).
use mathlib.Core.Bool.{false≢true}
use modelrelay.Base.{
  if-cases, Result, ok, err, none-some, Bool-cases, some-injective, subst, ℕ, ◌≡◌, refl, sym, ◌∙◌,
  inl, inr, true, false, String, List, [], ◌∷◌, Option, none, some, lookup, insert, lookup-insert,
  string_eq, Option-cases, if◌then◌else◌,
}
use modelrelay.Config.Relay.{ℤ, is_positive}
use modelrelay.Store.Logs.{add_request_summary, prune_audit, prune_request_summaries}
use modelrelay.Store.Users.{Users, UserError, create_admin_user, ensure_admin}
use modelrelay.Store.Certs.{
  RequestSummary, CertMeta, Store, add_cert_meta, ensure_cert_meta, is_revoked, is_cert_revoked,
  revoke_cert, add_audit, new_row, revoked_row,
}

pub data StoreCall : Type 0 where
  adds : ℕ → CertMeta → StoreCall
  ensures : ℕ → CertMeta → StoreCall
  revokes : ℕ → String → String → StoreCall
  audits : ℕ → String → String → String → StoreCall
  adds_summary : ℕ → RequestSummary → StoreCall
  prunes_audit prunes_summaries : (ℕ → List ℕ) → ℤ → ℕ → StoreCall
  creates_user ensures_user : (String → Option String) → String → String → String → StoreCall

or_else {ℓ} : {A : Type ℓ} → Option A → A → A
or_else none a = a
or_else (some b) a = b

made {ℓ} : {A : Type ℓ} → Result UserError A → A → A
made (err e) a = a
made (ok b) a = b

-- The tables of the database: those of the certificates and the logs, and that of the accounts.
unfoldable pub call : Store × Users → StoreCall → Store × Users
unfolding or_else made
call (st, us) (adds now c) = ((add_cert_meta now c st).0, us)
call (st, us) (ensures now c) = (ensure_cert_meta now c st, us)
call (st, us) (revokes now serial reason) = (or_else (revoke_cert now serial reason st) st, us)
call (st, us) (audits now actor action target) = (add_audit now actor action target st, us)
call (st, us) (adds_summary now r) = (add_request_summary now r st, us)
call (st, us) (prunes_audit stamp days cutoff) = (prune_audit stamp days cutoff st, us)
call (st, us) (prunes_summaries stamp days cutoff) =
    (prune_request_summaries stamp days cutoff st, us)
call (st, us) (creates_user hash name plain role) =
    (st, made (create_admin_user hash name plain role us) us)
call (st, us) (ensures_user hash name plain role) =
    (st, made (ensure_admin hash name plain role us) us)

unfoldable pub calls : Store × Users → List StoreCall → Store × Users
unfolding call
calls db [] = db
calls db (c ∷ cs) = calls (call db c) cs

-- The row of one serial is written.
with_row-revoked :
    (key serial : String) (row : CertMeta) (st : Store)
    → is_cert_revoked (record st { certs = insert key row st.certs }) serial
      ≡ (if string_eq.eqb key serial then is_revoked row.status else is_cert_revoked st serial)
unfolding is_cert_revoked
with_row-revoked key serial row st = elim (Bool-cases (string_eq.eqb key serial)) [
  | inl same ↦ rw (is_cert_revoked, lookup-insert key serial row st.certs, same)
  | inr other ↦ rw (is_cert_revoked, lookup-insert key serial row st.certs, other)
]

-- A serial without a row is not revoked.
no_row :
    (key serial : String) (st : Store)
    → lookup key st.certs ≡ none
    → is_cert_revoked st serial ≡ true
    → string_eq.eqb key serial ≡ false
unfolding is_cert_revoked
no_row key serial st free h = elim (Bool-cases (string_eq.eqb key serial)) [
  | inr other ↦ other
  | inl same ↦
      let found : false ≡ true =
        rw (sym ((string_eq.eqb_iff key serial).0 same), is_cert_revoked, free) at h in
      absurd (false≢true found)
]

add_audit-revoked :
    (now : ℕ) (actor action target : String) (st : Store) (serial : String)
    → is_cert_revoked (add_audit now actor action target st) serial ≡ is_cert_revoked st serial
unfolding is_cert_revoked add_audit
add_audit-revoked now actor action target st serial = refl

same_certs :
    (st st' : Store) (serial : String)
    → st'.certs ≡ st.certs
    → is_cert_revoked st' serial ≡ is_cert_revoked st serial
unfolding is_cert_revoked
same_certs st st' serial e = rw e

module _ (st : Store) (serial : String) (h : is_cert_revoked st serial ≡ true) where
  add_cert_meta-revoked :
      (now : ℕ) (c : CertMeta) → is_cert_revoked (add_cert_meta now c st).0 serial ≡ true
  unfolding add_cert_meta
  add_cert_meta-revoked now c = elim (Option-cases (lookup c.serial st.certs)) [
    | inr (row, found) ↦ rw (add_cert_meta, found) h
    | inl free ↦
        rw
          (
            add_cert_meta,
            free,
            with_row-revoked c.serial serial (new_row now c) st,
            no_row c.serial serial st free h,
          )
          h
  ]

  ensure_cert_meta-revoked :
      (now : ℕ) (c : CertMeta) → is_cert_revoked (ensure_cert_meta now c st) serial ≡ true
  unfolding ensure_cert_meta
  ensure_cert_meta-revoked now c = elim (Option-cases (lookup c.serial st.certs)) [
    | inr (row, found) ↦ rw (ensure_cert_meta, found) h
    | inl free ↦
        rw
          (
            ensure_cert_meta,
            free,
            with_row-revoked c.serial serial (new_row now c) st,
            no_row c.serial serial st free h,
          )
          h
  ]

  revoke_cert-revoked :
      (now : ℕ) (other reason : String)
      → is_cert_revoked (or_else (revoke_cert now other reason st) st) serial ≡ true
  unfolding revoke_cert or_else
  revoke_cert-revoked now other reason = elim (Option-cases (lookup other st.certs)) [
    | inl free ↦ rw (revoke_cert, free) h
    | inr (row, found) ↦
        rw (revoke_cert, found, with_row-revoked other serial (revoked_row now reason row) st)
          (elim (Bool-cases (string_eq.eqb other serial)) [
            | inl same ↦ rw same
            | inr apart ↦ rw apart h
          ])
  ]

call-revoked :
    (st : Store) (us : Users) (c : StoreCall) (serial : String)
    → is_cert_revoked st serial ≡ true
    → is_cert_revoked (call (st, us) c).0 serial ≡ true
unfolding call made add_request_summary prune_audit prune_request_summaries
call-revoked st us (adds now c) serial h = add_cert_meta-revoked st serial h now c
call-revoked st us (ensures now c) serial h = ensure_cert_meta-revoked st serial h now c
call-revoked st us (revokes now other reason) serial h =
    revoke_cert-revoked st serial h now other reason
call-revoked st us (audits now actor action target) serial h =
    add_audit-revoked now actor action target st serial ∙ h
call-revoked st us (adds_summary now r) serial h = same_certs st _ serial refl ∙ h
call-revoked st us (prunes_audit stamp days cutoff) serial h =
    if-cases (λ t. is_cert_revoked t serial ≡ true) (is_positive days)
      (λ _. same_certs st _ serial refl ∙ h) (λ _. h)
call-revoked st us (prunes_summaries stamp days cutoff) serial h =
    if-cases (λ t. is_cert_revoked t serial ≡ true) (is_positive days)
      (λ _. same_certs st _ serial refl ∙ h) (λ _. h)
call-revoked st us (creates_user hash name plain role) serial h = h
call-revoked st us (ensures_user hash name plain role) serial h = h

-- A serial that is reported revoked is reported revoked after any further calls of the store that
-- change its tables, among them the registration of the same certificate at a new connection, the
-- prunes of the logs and the making of accounts.
pub calls-revoked :
    (st : Store) (us : Users) (cs : List StoreCall) (serial : String)
    → is_cert_revoked st serial ≡ true
    → is_cert_revoked (calls (st, us) cs).0 serial ≡ true
unfolding calls
calls-revoked st us [] serial h = h
calls-revoked st us (c ∷ cs) serial h =
    calls-revoked (call (st, us) c).0 (call (st, us) c).1 cs serial (call-revoked st us c serial h)

-- A revocation that is reported done makes the serial revoked, and no other serial.
pub revoke_cert-is_cert_revoked :
    (now : ℕ) (serial reason other : String) (st st' : Store)
    → revoke_cert now serial reason st ≡ some st'
    → is_cert_revoked st' other
      ≡ (if string_eq.eqb serial other then true else is_cert_revoked st other)
unfolding revoke_cert
revoke_cert-is_cert_revoked now serial reason other st st' h =
    elim (Option-cases (lookup serial st.certs)) [
      | inl free ↦ absurd (none-some (rw (revoke_cert, free) at h))
      | inr (row, found) ↦
          let written : record st { certs = insert serial (revoked_row now reason row) st.certs }
              ≡ st' =
            some-injective (rw (revoke_cert, found) at h) in
          subst
            (λ t.
              is_cert_revoked t other
              ≡ (if string_eq.eqb serial other then true else is_cert_revoked st other))
            written (with_row-revoked serial other (revoked_row now reason row) st)
    ]
