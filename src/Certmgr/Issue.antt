-- ===== src/Certmgr/Issue.antt =====
-- What the certificate manager issues (internal/certmgr/issue.go), and the state of a certificate that
-- it shows (inspect.go). A workspace that is not open is `none`.
pub mod Outside
use text.Mathlib.Text.{◌==◌ as str_eq}
use Prim.Native.String.{◌++◌}
use modelrelay.Base.{
  ℕ, ◌+◌, ◌*◌, ◌-◌, Bool, true, false, not, ◌&&◌, String, List, [], ◌∷◌, Option, none, some, ltb,
  leb, map, lookup, string_eq, Result, ok, err, if◌then◌else◌,
}
use modelrelay.Config.Relay.{ℤ, is_positive}
use modelrelay.Relay.Handshake.{Certificate}
use modelrelay.Certs.{Csr, CsrInfo, Template, CertError, inspect_csr, issue_from_csr}
use modelrelay.Certs.Authority.{KeyPair, AuthorityError}
use modelrelay.Certmgr.Files.{File, Files, Effects, FileError, and_then, write_file, no_directory}
use modelrelay.Certmgr.Export.{System, make_dir, sanitize_file_name}
use modelrelay.Certmgr.Workspace.{Kind, agent, relay, Workspace}

pub data Status : Type 0 where
  valid expiring expired : Status

-- The switch of Inspect, times in milliseconds; a certificate that ends before now is `expired`.
unfoldable pub status_at : ℕ → ℕ → Status
status_at now not_after =
    if ltb not_after now
    then expired
    else if leb (not_after - now) (30 * 24 * 3600 * 1000)
    then expiring
    else valid

pub record IssueAgentOptions : Type 0 where
  pub csr_pem : List ℕ
  pub csr_path : String
  pub node_id : String
  pub days : ℤ
  pub out_dir : String

-- `path` is empty where nothing is written.
pub record IssueAgentResult : Type 0 where
  pub node_id : String
  pub cert_pem : List ℕ
  pub path : String

pub record IssueRelayOptions : Type 0 where
  pub cn : String
  pub dns_names : List String
  pub ips : List String
  pub days : ℤ
  pub out_dir : String

pub record IssueRelayResult : Type 0 where
  pub cert_pem : List ℕ
  pub key_pem : List ℕ
  pub cert_path : String
  pub key_path : String

pub data IssueError : Type 0 where
  not_open wrong_kind csr_required unreadable days_not_positive no_san name_required : IssueError
  invalid_ip : String → IssueError
  bad_cert : IssueError
  cert_error : CertError → IssueError
  authority_error : AuthorityError → IssueError
  file_error : FileError → IssueError

-- The files, and how the call ended.
abbrev pub Issued : Type 0 → Type 0
Issued A = Files × Result IssueError A

abbrev pub written_out : {A : Type 0} → A → Effects → Issued A
written_out r (fs, err e) = (fs, err (file_error e))
written_out r (fs, ok _) = (fs, ok r)

-- `parse` is ParseCSR, `create` the signing with the CA's key, `pem` the encoding and `inspects` says
-- that Inspect accepts it.
module _ (sys : System) (path_escape : String → String) (check_signature : Csr → Bool)
    (parse : List ℕ → Option Csr) (create : Template → Option Certificate) (serial : Option String)
    (pem : Certificate → List ℕ) (inspects : List ℕ → Bool) where
  abbrev pub agent_path : String → String → String
  agent_path out_dir node_id = sys.join out_dir (node_id ++ ".crt")

  abbrev pub save_agent : IssueAgentOptions → String → List ℕ → Files → Issued IssueAgentResult
  save_agent o node_id cert fs =
      if str_eq (sys.trim_space o.out_dir) ""
      then (fs, ok (record { node_id = node_id; cert_pem = cert; path = "" }))
      else written_out
          (record { node_id = node_id; cert_pem = cert; path = agent_path o.out_dir node_id })
          (and_then (make_dir sys o.out_dir fs)
            λ fs. write_file sys.effect false (agent_path o.out_dir node_id) cert fs)

  abbrev pub inspected :
      IssueAgentOptions → String → Result CertError Certificate → Files → Issued IssueAgentResult
  inspected o node_id (err e) fs = (fs, err (cert_error e))
  inspected o node_id (ok cert) fs =
      if inspects (pem cert) then save_agent o node_id (pem cert) fs else (fs, err bad_cert)

  abbrev pub signed :
      IssueAgentOptions → List ℕ → Result CertError CsrInfo → Files → Issued IssueAgentResult
  signed o csr_pem (err e) fs = (fs, err (cert_error e))
  signed o csr_pem (ok info) fs =
      inspected o info.node_id
        (issue_from_csr sys.trim_space path_escape check_signature create serial (parse csr_pem)
          info.node_id o.days)
        fs

  abbrev pub with_csr : IssueAgentOptions → List ℕ → Files → Issued IssueAgentResult
  with_csr o csr_pem fs =
      if not (is_positive o.days)
      then (fs, err days_not_positive)
      else signed o csr_pem
          (inspect_csr sys.trim_space path_escape check_signature (parse csr_pem) o.node_id) fs

  abbrev pub from_path : IssueAgentOptions → Option File → Files → Issued IssueAgentResult
  from_path o none fs = (fs, err unreadable)
  from_path o (some f) fs = with_csr o f.bytes fs

  abbrev pub read_csr : IssueAgentOptions → List ℕ → Files → Issued IssueAgentResult
  read_csr o [] fs =
      if str_eq (sys.trim_space o.csr_path) ""
      then (fs, err csr_required)
      else from_path o (lookup o.csr_path fs) fs
  read_csr o (b ∷ bs) fs = with_csr o (b ∷ bs) fs

  unfoldable pub issue_agent :
      Option Workspace → IssueAgentOptions → Files → Issued IssueAgentResult
  unfolding inspect_csr issue_from_csr write_file
  issue_agent none o fs = (fs, err not_open)
  issue_agent (some w) o fs = elim w.kind [
    | relay ↦ (fs, err wrong_kind)
    | agent ↦ read_csr o o.csr_pem fs
  ]

-- The names that are not blank, trimmed.
unfoldable pub trimmed_names : (String → String) → List String → List String
trimmed_names trim_space [] = []
trimmed_names trim_space (n ∷ ns) =
    let rest = trimmed_names trim_space ns in
    if str_eq (trim_space n) "" then rest else trim_space n ∷ rest

abbrev pub first_bad_ip : (String → Bool) → List String → Option String
first_bad_ip parses [] = none
first_bad_ip parses (s ∷ ss) = if parses s then first_bad_ip parses ss else some s

abbrev pub is_nil : List String → Bool
is_nil [] = true
is_nil (s ∷ ss) = false

-- `parses_ip` is net.ParseIP, and `issue` IssueServerCert of the workspace's CA.
module _ (sys : System) (parses_ip : String → Bool)
    (issue : String → List String → List String → ℤ → Result AuthorityError KeyPair)
    (inspects : List ℕ → Bool) where
  abbrev pub relay_base : IssueRelayOptions → String → String
  relay_base o cn = sys.join o.out_dir (sanitize_file_name sys.trim_space cn)

  abbrev pub save_relay : IssueRelayOptions → String → KeyPair → Files → Issued IssueRelayResult
  save_relay o cn p fs =
      if str_eq (sys.trim_space o.out_dir) ""
      then (
        fs,
        ok (record { cert_pem = p.cert_pem; key_pem = p.key_pem; cert_path = ""; key_path = "" }),
      )
      else written_out
          (record {
            cert_pem = p.cert_pem;
            key_pem = p.key_pem;
            cert_path = relay_base o cn ++ ".crt";
            key_path = relay_base o cn ++ ".key";
          })
          (and_then (make_dir sys o.out_dir fs) λ fs.
            and_then (write_file sys.effect false (relay_base o cn ++ ".crt") p.cert_pem fs)
              λ fs. write_file sys.effect true (relay_base o cn ++ ".key") p.key_pem fs)

  abbrev pub inspected_relay :
      IssueRelayOptions → String → Result AuthorityError KeyPair → Files → Issued IssueRelayResult
  inspected_relay o cn (err e) fs = (fs, err (authority_error e))
  inspected_relay o cn (ok p) fs =
      if inspects p.cert_pem then save_relay o cn p fs else (fs, err bad_cert)

  abbrev pub with_names :
      IssueRelayOptions
      → String
      → List String
      → List String
      → Option String
      → Files
      → Issued IssueRelayResult
  with_names o cn dns ips (some bad) fs = (fs, err (invalid_ip bad))
  with_names o cn dns ips none fs =
      if is_nil dns && is_nil ips
      then (fs, err no_san)
      else inspected_relay o cn (issue cn ips dns o.days) fs

  abbrev pub named_relay : IssueRelayOptions → String → Files → Issued IssueRelayResult
  named_relay o cn fs =
      let ips = trimmed_names sys.trim_space o.ips in
      if str_eq cn ""
      then (fs, err name_required)
      else if not (is_positive o.days)
      then (fs, err days_not_positive)
      else with_names o cn (trimmed_names sys.trim_space o.dns_names) ips
          (first_bad_ip parses_ip ips) fs

  unfoldable pub issue_relay :
      Option Workspace → IssueRelayOptions → Files → Issued IssueRelayResult
  unfolding sanitize_file_name write_file trimmed_names
  issue_relay none o fs = (fs, err not_open)
  issue_relay (some w) o fs = elim w.kind [
    | agent ↦ (fs, err wrong_kind)
    | relay ↦ named_relay o (sys.trim_space o.cn) fs
  ]
