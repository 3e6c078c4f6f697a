-- ===== src/Certs/Requested.antt =====
-- Which requests of GenerateCSR pass ValidateAgentCSR (internal/certs/certs.go).
use text.Mathlib.Text.{◌==◌ as str_eq}
use text.Mathlib.TextEquality.{eq_iff}
use text.Mathlib.TextLemmas.{append_assoc, append_cancel_left}
use Prim.Native.String.{◌++◌}
use modelrelay.Base.{
  ◌≡◌, ◌≢◌, inl, inr, refl, sym, ap, ◌∙◌, Bool, true, false, String, Bool-cases, Result, ok, err,
}
use modelrelay.Relay.Handshake.{agent_identity_uri}
use modelrelay.Certs.{Csr, CertError, uri_mismatch, require, validate_agent_csr}
use modelrelay.Certs.Authority.{generate_csr}

-- A text with a percent sign.
abbrev pub HasPercent : String → Type 0
HasPercent s = (a : String) × ((b : String) × (s ≡ a ++ ("%" ++ b)))

module _ (trim_space path_escape escaped_path : String → String)
    (check_signature : Csr → Bool) where
  abbrev validated : String → Result CertError (Unit {0})
  validated cn =
      validate_agent_csr trim_space path_escape check_signature
        (generate_csr path_escape escaped_path cn) cn

  -- The two addresses are the same text exactly if the path is its own escape.
  same_uri :
      (cn : String)
      → "spiffe://modelrelay" ++ escaped_path ("/agent/" ++ path_escape cn)
        ≡ agent_identity_uri trim_space path_escape cn
      → escaped_path ("/agent/" ++ path_escape cn) ≡ "/agent/" ++ path_escape cn
  unfolding agent_identity_uri
  same_uri cn e =
      append_cancel_left "spiffe://modelrelay" (escaped_path ("/agent/" ++ path_escape cn))
        ("/agent/" ++ path_escape cn)
        (e ∙ append_assoc "spiffe://modelrelay" "/agent/" (path_escape cn))

  checked_uri :
      (cn : String)
      → str_eq (trim_space cn) "" ≡ false
      → check_signature (generate_csr path_escape escaped_path cn) ≡ true
      → validated cn
        ≡ require
            (str_eq
              ("spiffe://modelrelay" ++ escaped_path ("/agent/" ++ path_escape cn))
              (agent_identity_uri trim_space path_escape cn))
            uri_mismatch
  unfolding validate_agent_csr generate_csr
  checked_uri cn named signed =
      let own : str_eq cn cn ≡ true = (eq_iff cn cn).1 refl in rw (named, signed, own)

  refused :
      (cn : String)
      → HasPercent (path_escape cn)
      → ((p : String) → HasPercent p → escaped_path p ≢ p)
      → str_eq
          ("spiffe://modelrelay" ++ escaped_path ("/agent/" ++ path_escape cn))
          (agent_identity_uri trim_space path_escape cn)
        ≡ false
  refused cn (a, (b, e)) changes =
      let whole : HasPercent ("/agent/" ++ path_escape cn) = (
        "/agent/" ++ a,
        (b, ap (λ t. "/agent/" ++ t) e ∙ sym (append_assoc "/agent/" a ("%" ++ b))),
      ) in
      elim (Bool-cases (
        str_eq ("spiffe://modelrelay" ++ escaped_path ("/agent/" ++ path_escape cn))
          (agent_identity_uri trim_space path_escape cn))) [
            | inr other ↦ other
            | inl same ↦ absurd (changes _ whole (same_uri cn ((eq_iff _ _).0 same)))
          ]

  accepted :
      (cn : String)
      → path_escape cn ≡ cn
      → escaped_path ("/agent/" ++ cn) ≡ "/agent/" ++ cn
      → "spiffe://modelrelay" ++ escaped_path ("/agent/" ++ path_escape cn)
        ≡ agent_identity_uri trim_space path_escape cn
  unfolding agent_identity_uri
  accepted cn plain own =
      ap (λ p. "spiffe://modelrelay" ++ escaped_path ("/agent/" ++ p)) plain
      ∙ ap (λ p. "spiffe://modelrelay" ++ p) own
      ∙ sym (append_assoc "spiffe://modelrelay" "/agent/" cn)
      ∙ sym (ap (λ p. "spiffe://modelrelay/agent/" ++ p) plain)

  -- The request that GenerateCSR makes for a node id is refused if PathEscape changes the id, provided
  -- that what it then gives has a percent sign, that a path with a percent sign is not its own escape,
  -- that the signature is right and the id is not blank; it is accepted if the id and the path of the
  -- URI are their own escapes.
  pub validate_agent_csr-generate_csr :
      (cn : String)
      → str_eq (trim_space cn) "" ≡ false
      → check_signature (generate_csr path_escape escaped_path cn) ≡ true
      → (path_escape cn ≢ cn → HasPercent (path_escape cn))
      → ((p : String) → HasPercent p → escaped_path p ≢ p)
      → (path_escape cn ≢ cn → validated cn ≡ err uri_mismatch)
        × (path_escape cn ≡ cn
            → escaped_path ("/agent/" ++ cn) ≡ "/agent/" ++ cn
            → validated cn ≡ ok tt)
  validate_agent_csr-generate_csr cn named signed marks changes = (
    λ escapes.
        checked_uri cn named signed
        ∙ ap (λ b. require b uri_mismatch) (refused cn (marks escapes) changes),
    λ plain own.
        checked_uri cn named signed
        ∙ ap (λ b. require b uri_mismatch) ((eq_iff _ _).1 (accepted cn plain own)),
  )
