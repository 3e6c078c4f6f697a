-- ===== src/Certmgr/Issue/Outside.antt =====
-- Where the certificate of an agent is written (IssueAgent of internal/certmgr/issue.go).
use text.Mathlib.Text.{◌==◌ as str_eq}
use Prim.Native.String.{◌++◌}
use modelrelay.Base.{
  ℕ, ◌≡◌, refl, sym, ap, ◌∙◌, subst, Bool, false, not, String, List, [], ◌∷◌, Option, none, some,
  lookup, lookup-insert_self, string_eq, Result, ok, err, >>=-eq-ok, ok-injective, if-cases,
}
use modelrelay.Config.Relay.{is_positive}
use modelrelay.Relay.Handshake.{Certificate}
use modelrelay.Certs.{
  Csr, CsrInfo, Template, CertError, not_a_csr, or_fail, or_name, inspect_csr, issue_from_csr,
  validate_agent_csr,
}
use modelrelay.Certs.Issued.{validate_agent_csr-ok, or_fail-ok}
use modelrelay.Certmgr.Files.{
  File, Files, Effect, not_written, not_protected, written, Effects, and_then, write_as, write_file,
}
use modelrelay.Certmgr.Export.{System, make_dir}
use modelrelay.Certmgr.Workspace.{Kind, agent, relay, Workspace}
use modelrelay.Certmgr.Issue.{
  IssueAgentOptions, IssueAgentResult, IssueError, Issued, written_out, save_agent, inspected,
  signed, with_csr, from_path, read_csr, issue_agent,
}

written_out-ok :
    {A : Type 0} (r r' : A) (m : Effects) (fs : Files)
    → written_out r m ≡ (fs, ok r')
    → (m ≡ (fs, ok tt)) × (r ≡ r')
written_out-ok r r' (gs, err e) fs q = cc
written_out-ok r r' (gs, ok _) fs q =
    (ap (λ g. (g, ok tt)) (ap (λ p. p.0) q), ok-injective (ap (λ p. p.1) q))

and_then-ok :
    (m : Effects) (next : Files → Effects) (fs : Files)
    → and_then m next ≡ (fs, ok tt)
    → (gs : Files) × (next gs ≡ (fs, ok tt))
and_then-ok (gs, err e) next fs q = cc
and_then-ok (gs, ok _) next fs q = (gs, q)

module _ (effect : String → Effect) where
  write_as-ok :
      (e : Effect) (path : String) (f : File) (gs fs : Files)
      → write_as effect e path f gs ≡ (fs, ok tt)
      → lookup path fs ≡ some f
  write_as-ok not_written path f gs fs q = cc
  write_as-ok not_protected path f gs fs q = cc
  write_as-ok written path f gs fs q =
      ap (lookup path) (sym (ap (λ p. p.0) q)) ∙ lookup-insert_self path f gs

-- The bytes of the request that the options name: their own, or those of the file.
abbrev pub given_csr : List ℕ → Option File → Option (List ℕ)
given_csr [] none = none
given_csr [] (some f) = some f.bytes
given_csr (b ∷ bs) f = some (b ∷ bs)

module _ (sys : System) (path_escape : String → String) (check_signature : Csr → Bool)
    (parse : List ℕ → Option Csr) (create : Template → Option Certificate) (serial : Option String)
    (pem : Certificate → List ℕ) (inspects : List ℕ → Bool) where
  inspect_csr-ok :
      (parsed : Option Csr) (node_id : String) (info : CsrInfo)
      → inspect_csr sys.trim_space path_escape check_signature parsed node_id ≡ ok info
      → (csr : Csr) × (parsed ≡ some csr) × (csr.common_name ≡ info.node_id)
  unfolding inspect_csr
  inspect_csr-ok parsed node_id info h =
      let (csr, there, h1) = >>=-eq-ok (or_fail parsed not_a_csr) _ h in
      let id : String =
        or_name sys.trim_space path_escape check_signature (sys.trim_space node_id) csr in
      let (_, valid, h2) =
        >>=-eq-ok (validate_agent_csr sys.trim_space path_escape check_signature csr id) _ h1 in
      let (name, _) =
        validate_agent_csr-ok sys.trim_space path_escape check_signature csr id valid in
      (csr, or_fail-ok parsed not_a_csr csr there, name ∙ ap (λ i. i.node_id) (ok-injective h2))

  -- What an issue with a directory to write to stores of the request that it was given.
  pub record IsSaved (o : IssueAgentOptions) (before fs : Files) (r : IssueAgentResult)
      : Type 0 where
    pub path : r.path ≡ sys.join o.out_dir (r.node_id ++ ".crt")
    pub stored : lookup r.path fs ≡ some (record { bytes = r.cert_pem; private = false })
    pub csr_pem : List ℕ
    pub given : given_csr o.csr_pem (lookup o.csr_path before) ≡ some csr_pem
    pub csr : Csr
    pub request : parse csr_pem ≡ some csr
    pub named : csr.common_name ≡ r.node_id

  module _ (o : IssueAgentOptions) (before fs' : Files) (r : IssueAgentResult)
      (to_dir : str_eq (sys.trim_space o.out_dir) "" ≡ false) where
    abbrev P : Issued IssueAgentResult → Type 0
    P m = m ≡ (fs', ok r) → IsSaved o before fs' r

    abbrev Given : List ℕ → Type 0
    Given csr_pem = given_csr o.csr_pem (lookup o.csr_path before) ≡ some csr_pem

    save_agent-IsSaved :
        (node_id : String) (cert csr_pem : List ℕ) (csr : Csr) (fs : Files)
        → Given csr_pem
        → parse csr_pem ≡ some csr
        → csr.common_name ≡ node_id
        → P (
            save_agent sys path_escape check_signature parse create serial pem inspects o node_id
              cert fs)
    unfolding write_file
    save_agent-IsSaved node_id cert csr_pem csr fs given request named q =
        let path : String = sys.join o.out_dir (node_id ++ ".crt") in
        let made : IssueAgentResult = record { node_id = node_id; cert_pem = cert; path = path } in
        let (done, same) = written_out-ok made r _ fs' (rw to_dir at q) in
        let (gs, wrote) = and_then-ok (make_dir sys o.out_dir fs) _ fs' done in
        let stored =
          write_as-ok sys.effect (sys.effect path) path (record { bytes = cert; private = false })
            gs fs' wrote in
        record {
          path = subst (λ x. x.path ≡ sys.join o.out_dir (x.node_id ++ ".crt")) same refl;
          stored =
              subst (λ x. lookup x.path fs' ≡ some (record { bytes = x.cert_pem; private = false }))
                same stored;
          csr_pem = csr_pem;
          given = given;
          csr = csr;
          request = request;
          named = named ∙ ap (λ x. x.node_id) same;
        }

    inspected-IsSaved :
        (node_id : String) (c : Result CertError Certificate) (csr_pem : List ℕ) (csr : Csr)
        (fs : Files)
        → Given csr_pem
        → parse csr_pem ≡ some csr
        → csr.common_name ≡ node_id
        → P (
            inspected sys path_escape check_signature parse create serial pem inspects o node_id c
              fs)
    inspected-IsSaved node_id (err e) csr_pem csr fs given request named = λ q. cc
    inspected-IsSaved node_id (ok cert) csr_pem csr fs given request named =
        if-cases P (inspects (pem cert))
          (λ _. save_agent-IsSaved node_id (pem cert) csr_pem csr fs given request named)
          (λ _ q. cc)

    signed-IsSaved :
        (csr_pem : List ℕ) (info : Result CertError CsrInfo) (fs : Files)
        → Given csr_pem
        → inspect_csr sys.trim_space path_escape check_signature (parse csr_pem) o.node_id ≡ info
        → P (
            signed sys path_escape check_signature parse create serial pem inspects o csr_pem info
              fs)
    unfolding issue_from_csr
    signed-IsSaved csr_pem (err e) fs given e' = λ q. cc
    signed-IsSaved csr_pem (ok info) fs given e' =
        let (csr, request, named) = inspect_csr-ok (parse csr_pem) o.node_id info e' in
        inspected-IsSaved info.node_id _ csr_pem csr fs given request named

    with_csr-IsSaved :
        (csr_pem : List ℕ) (fs : Files)
        → Given csr_pem
        → P (with_csr sys path_escape check_signature parse create serial pem inspects o csr_pem fs)
    with_csr-IsSaved csr_pem fs given =
        if-cases P (not (is_positive o.days)) (λ _ q. cc)
          λ _. signed-IsSaved csr_pem _ fs given refl

    from_path-IsSaved :
        (f : Option File) (fs : Files)
        → given_csr [] f ≡ given_csr o.csr_pem (lookup o.csr_path before)
        → P (from_path sys path_escape check_signature parse create serial pem inspects o f fs)
    from_path-IsSaved none fs same = λ q. cc
    from_path-IsSaved (some f) fs same = with_csr-IsSaved f.bytes fs (sym same)

    read_csr-IsSaved :
        (csr_pem : List ℕ)
        → o.csr_pem ≡ csr_pem
        → P (
            read_csr sys path_escape check_signature parse create serial pem inspects o csr_pem
              before)
    read_csr-IsSaved [] e =
        if-cases P (str_eq (sys.trim_space o.csr_path) "") (λ _ q. cc)
          λ _.
            from_path-IsSaved (lookup o.csr_path before) before
              (ap (λ c. given_csr c (lookup o.csr_path before)) (sym e))
    read_csr-IsSaved (b ∷ bs) e =
        with_csr-IsSaved (b ∷ bs) before (ap (λ c. given_csr c (lookup o.csr_path before)) e)

    -- A certificate that is issued with a directory to write to is stored there, by writePublicFile,
    -- under the joining of the directory and the common name of the request that the options give, as it
    -- is, with ".crt" behind it: unlike in the other names of files, no character of it is replaced.
    pub issue_agent-IsSaved :
        (w : Option Workspace)
        → issue_agent sys path_escape check_signature parse create serial pem inspects w o before
          ≡ (fs', ok r)
        → IsSaved o before fs' r
    unfolding issue_agent
    issue_agent-IsSaved none = λ q. cc
    issue_agent-IsSaved (some w) = by_kind w.kind
      where
        by_kind :
            (k : Kind)
            → P (elim k [
              | relay ↦ (before, err IssueError.wrong_kind)
              | agent ↦
                  read_csr sys path_escape check_signature parse create serial pem inspects o
                    o.csr_pem before
            ])
        by_kind relay = λ q. cc
        by_kind agent = read_csr-IsSaved o.csr_pem refl
