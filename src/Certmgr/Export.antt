-- ===== src/Certmgr/Export.antt =====
-- What the certificate manager exports, internal/certmgr/export.go, and sanitizeFileName of issue.go.
-- The functions on paths and texts are parameters, and so are the texts of the two README files.
pub mod Copies
use text.Mathlib.Text.{◌==◌ as str_eq}
use text.Mathlib.TextBridge.{to_list, of_list}
use Prim.Native.String.{◌++◌}
use Prim.Native.Char.{Char, code}
use modelrelay.Base.{
  ℕ, Bool, true, false, not, ◌||◌, String, List, [], ◌∷◌, map, any, ◌==◌, Result, ok, err,
  trim_suffix, if◌then◌else◌,
}
use modelrelay.Certmgr.Files.{
  Files, Effect, Effects, FileError, dir_required, ca_key_refused, agent_key_refused, no_directory,
  and_then, is_ca_key_name, write_file, copy_file,
}

pub record RelayExportInput : Type 0 where
  pub server_cert_path : String
  pub server_key_path : String
  pub agent_ca_path : String
  pub dest_dir : String

pub record AgentExportInput : Type 0 where
  pub agent_cert_path : String
  pub relay_ca_path : String
  pub dest_dir : String
  pub node_id : String

abbrev pub reserved : List ℕ
reserved = b'/' ∷ b'\\' ∷ b':' ∷ b'*' ∷ b'?' ∷ b'"' ∷ b'<' ∷ b'>' ∷ b'|' ∷ []

abbrev pub is_reserved : Char → Bool
is_reserved c = any (λ r. r == code c) reserved

abbrev pub replaced : Char → Char
replaced c = if is_reserved c then "_" else c

module _ (trim_space : String → String) where
  unfoldable pub sanitize_file_name : String → String
  sanitize_file_name name =
      if str_eq (trim_space name) ""
      then "relay"
      else of_list (map replaced (to_list (trim_space name)))

-- The functions of path/filepath and strings, and how the calls of the system end.
pub record System : Type 0 where
  pub trim_space : String → String
  pub to_lower : String → String
  pub equal_fold : String → String → Bool
  pub base : String → String
  pub ext : String → String
  pub join : String → String → String
  pub makes_dir : String → Bool
  pub effect : String → Effect

module _ (sys : System) where
  abbrev pub ca_key_name : String → Bool
  ca_key_name = is_ca_key_name sys.to_lower sys.base

  abbrev pub is_key : String → Bool
  is_key path = sys.equal_fold (sys.ext path) ".key"

  abbrev pub make_dir : String → Files → Effects
  make_dir dir fs = if sys.makes_dir dir then (fs, ok tt) else (fs, err no_directory)

  abbrev pub copies : String → String → Bool → Files → Effects
  copies src dst private fs = copy_file sys.effect src dst private fs

  unfoldable pub export_relay : List ℕ → RelayExportInput → Files → Effects
  unfolding is_ca_key_name write_file copy_file
  export_relay readme i fs =
      if str_eq (sys.trim_space i.dest_dir) ""
      then (fs, err dir_required)
      else if ca_key_name i.server_key_path
          || (ca_key_name i.server_cert_path || ca_key_name i.agent_ca_path)
      then (fs, err ca_key_refused)
      else and_then (make_dir i.dest_dir fs) λ fs.
        and_then (copies i.server_cert_path (sys.join i.dest_dir "relay.crt") false fs) λ fs.
          and_then (copies i.server_key_path (sys.join i.dest_dir "relay.key") true fs) λ fs.
            and_then (copies i.agent_ca_path (sys.join i.dest_dir "agent-ca.crt") false fs)
              λ fs. write_file sys.effect false (sys.join i.dest_dir "README.txt") readme fs

  abbrev pub or_agent : String → String
  or_agent id = if str_eq id "" then "agent" else id

  abbrev pub or_file_name : String → String → String
  or_file_name id path = if str_eq id "" then trim_suffix (sys.base path) (sys.ext path) else id

  unfoldable pub cert_name : AgentExportInput → String
  unfolding sanitize_file_name
  cert_name i =
      sanitize_file_name sys.trim_space
        (or_agent (or_file_name (sys.trim_space i.node_id) i.agent_cert_path))
      ++ ".crt"

  unfoldable pub export_agent : List ℕ → AgentExportInput → Files → Effects
  unfolding is_ca_key_name write_file copy_file cert_name
  export_agent readme i fs =
      if str_eq (sys.trim_space i.dest_dir) ""
      then (fs, err dir_required)
      else if is_key i.agent_cert_path || ca_key_name i.agent_cert_path
      then (fs, err agent_key_refused)
      else if ca_key_name i.relay_ca_path || is_key i.relay_ca_path
      then (fs, err ca_key_refused)
      else and_then (make_dir i.dest_dir fs) λ fs.
        and_then (copies i.agent_cert_path (sys.join i.dest_dir (cert_name i)) false fs) λ fs.
          and_then (copies i.relay_ca_path (sys.join i.dest_dir "relay-ca.crt") false fs)
            λ fs. write_file sys.effect false (sys.join i.dest_dir "README.txt") readme fs
