-- ===== src/Tests/Certmgr.antt =====
-- The theorems on the certificate manager at concrete inputs.
use text.Mathlib.Text.{◌==◌ as str_eq}
use text.Mathlib.TextPositions.{len-append}
use Prim.Native.String.{◌++◌, len}
use modelrelay.Base.{
  ℕ, ◌≡◌, ◌≢◌, refl, ap, inr, string_eq, true, false, String, List, [], ◌∷◌, Option, none, some,
  arith, lookup, insert, ok, err, if◌then◌else◌,
}
use modelrelay.Config.Relay.{pos}
use modelrelay.Admin.{AdminState, Session, session_from_req}
use modelrelay.Admin.Api.{Decoders, handle_api}
use modelrelay.Relay.Handshake.{agent_identity_uri}
use modelrelay.Certs.{Csr, uri_mismatch, validate_agent_csr, inspect_csr, issue_from_csr}
use modelrelay.Certs.Authority.{generate_csr}
use modelrelay.Certs.Requested.{validate_agent_csr-generate_csr}
use modelrelay.Certmgr.Client.{AdminClient, Url, request_to}
use modelrelay.Certmgr.Client.Revoking.{Revoked, handle_api-revoke}
use modelrelay.Certmgr.Files.{Files, written, write_file}
use modelrelay.Certmgr.Export.{AgentExportInput, System, export_agent}
use modelrelay.Certmgr.Export.Copies.{Reached, ForAgent, export_agent-Reached}
use modelrelay.Certmgr.Workspace.{
  agent, Workspace, CreateOptions, Host, create_workspace, open_workspace, load_workspace,
  write_pair,
}
use modelrelay.Certmgr.Workspace.Reopened.{
  IsNew, create_workspace-IsNew, open_workspace-create_workspace,
}
use modelrelay.Certmgr.Issue.{IssueAgentOptions, IssueAgentResult, issue_agent}
use modelrelay.Certmgr.Issue.Outside.{IsSaved, issue_agent-IsSaved}
use modelrelay.Tests.Admin.{an_admin, a_session, a_store, a_cert, as_is}
use modelrelay.Tests.Certificates.{csr_a, create, signed}

-- The revocation of "s" by an administrator.
abbrev relay_url : Url
relay_url = record { scheme = "https"; host = "h"; path = "" }

abbrev revoke_url : Url
revoke_url = record { scheme = "https"; host = "h"; path = "/api/certs/revoke" }

abbrev parse_url : String → Option Url
parse_url text = some relay_url

abbrev a_client : AdminClient
a_client = record { base_url = "https://h"; user = "eve"; role = "admin"; cookie = some "t" }

abbrev root_session : Session
root_session = record a_session { role = "admin" }

abbrev with_store : AdminState
with_store = record an_admin { store = some a_store; sessions = ("t", root_session) ∷ [] }

abbrev reads_serial : Decoders
reads_serial = record { concurrency = λ b. none; serial = λ b. some "s"; retention = λ b. none }

root_logged_in :
    (session_from_req 10 (request_to parse_url a_client "POST" [] revoke_url) with_store).1
    ≡ some root_session
unfolding session_from_req lookup
root_logged_in = refl

known_serial : lookup "s" a_store.certs ≡ some a_cert
unfolding lookup
known_serial = refl

handle_api-revoke_example : Revoked "s" (
    handle_api reads_serial 10 true (request_to parse_url a_client "POST" [] revoke_url) with_store)
handle_api-revoke_example =
    handle_api-revoke parse_url a_client [] revoke_url relay_url reads_serial 10 true with_store
      root_session a_store a_cert "s" refl (inr refl, refl) refl refl root_logged_in refl refl refl
      refl known_serial

-- A system on which every call succeeds; paths are joined by a slash.
abbrev slashed : String → String → String
slashed dir name = (dir ++ "/") ++ name

abbrev a_system : System
a_system = record {
  trim_space = as_is;
  to_lower = as_is;
  equal_fold = λ s t. str_eq s t;
  base = as_is;
  ext = λ path. if str_eq path "a.key" then ".key" else ".crt";
  join = slashed;
  makes_dir = λ dir. true;
  effect = λ path. written;
}

abbrev some_files : Files
some_files =
    ("a.crt", record { bytes = 1 ∷ []; private = false })
    ∷ ("relay-ca.crt", record { bytes = 2 ∷ []; private = false })
    ∷ []

abbrev an_export : AgentExportInput
an_export = record {
  agent_cert_path = "a.crt";
  relay_ca_path = "relay-ca.crt";
  dest_dir = "out";
  node_id = "a";
}

export_agent-Reached_example :
    Reached
      (ForAgent a_system)
      (3 ∷ [])
      some_files
      (export_agent a_system (3 ∷ []) an_export some_files).0
export_agent-Reached_example = export_agent-Reached a_system (3 ∷ []) an_export some_files

-- A workspace for agents in an empty file system.
abbrev a_host : Host
a_host = record {
  trim_space = as_is;
  join = slashed;
  makes = λ dir. true;
  locks = λ dir. true;
  protects = λ path. true;
  effect = λ path. written;
  create_ca = λ cn days. some (record { cert = 1 ∷ []; key = 2 ∷ [] });
  loads = λ cert key. true;
}

abbrev new_ca : CreateOptions
new_ca = record { dir = "ca"; kind = agent; cn = ""; days = pos 0 }

abbrev ca_files : Files
ca_files =
    ("ca/agent-ca.crt", record { bytes = 1 ∷ []; private = false })
    ∷ ("ca/agent-ca.key", record { bytes = 2 ∷ []; private = true })
    ∷ []

abbrev a_workspace : Workspace
a_workspace = record { dir = "ca"; kind = agent; cert_pem = 1 ∷ []; key_pem = 2 ∷ [] }

made : create_workspace a_host new_ca [] ≡ (ca_files, ok a_workspace)
unfolding create_workspace load_workspace write_pair write_file lookup insert
made = refl

open_workspace-create_workspace_example :
    open_workspace
      (record a_host { locks = λ dir. true; protects = λ path. true })
      "ca"
      agent
      ca_files
    ≡ ok a_workspace
open_workspace-create_workspace_example =
    open_workspace-create_workspace a_host (λ dir. true) (λ path. true) new_ca [] ca_files
      a_workspace made refl refl

create_workspace-IsNew_example : IsNew a_host new_ca [] ca_files a_workspace
create_workspace-IsNew_example = create_workspace-IsNew a_host new_ca [] ca_files a_workspace made

-- The certificate of "a" for the directory "out".
abbrev parse_csr : List ℕ → Option Csr
parse_csr pem = some csr_a

abbrev an_issue : IssueAgentOptions
an_issue = record { csr_pem = 7 ∷ []; csr_path = ""; node_id = ""; days = pos 365; out_dir = "out" }

abbrev issued_files : Files
issued_files = ("out/a.crt", record { bytes = 9 ∷ []; private = false }) ∷ []

abbrev an_issued : IssueAgentResult
an_issued = record { node_id = "a"; cert_pem = 9 ∷ []; path = "out/a.crt" }

issued :
    issue_agent a_system as_is signed parse_csr create
      (some "7")
      (λ c. 9 ∷ [])
      (λ b. true)
      (some a_workspace)
      an_issue
      []
    ≡ (issued_files, ok an_issued)
unfolding issue_agent inspect_csr issue_from_csr validate_agent_csr agent_identity_uri write_file
    insert
issued = refl

issue_agent-IsSaved_example :
    IsSaved a_system as_is signed parse_csr create
      (some "7")
      (λ c. 9 ∷ [])
      (λ b. true)
      an_issue
      []
      issued_files
      an_issued
issue_agent-IsSaved_example =
    issue_agent-IsSaved a_system as_is signed parse_csr create (some "7") (λ c. 9 ∷ []) (λ b. true)
      an_issue [] issued_files an_issued refl (some a_workspace) issued

-- A node id with a space; an escape of a path escapes its percent signs in turn.
abbrev escape : String → String
escape s = if str_eq s "a b" then "a%20b" else s

abbrev longer : String → String
longer p = p ++ "25"

longer-changes : (p : String) → longer p ≢ p
longer-changes p e = omega (arith, ap len e, len-append p "25")

validate_agent_csr-generate_csr_example :
    (escape "a b" ≢ "a b"
      → validate_agent_csr as_is escape signed (generate_csr escape longer "a b") "a b"
        ≡ err uri_mismatch)
    × (escape "a b" ≡ "a b"
        → longer ("/agent/" ++ "a b") ≡ "/agent/" ++ "a b"
        → validate_agent_csr as_is escape signed (generate_csr escape longer "a b") "a b" ≡ ok tt)
validate_agent_csr-generate_csr_example =
    validate_agent_csr-generate_csr as_is escape longer signed "a b" refl refl
      (λ changed. ("a", ("20b", refl))) (λ p marked. longer-changes p)
