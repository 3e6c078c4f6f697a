-- ===== src/Certmgr/Workspace.antt =====
-- The workspace of a certificate authority, internal/certmgr/workspace.go. Locking down directories
-- and files, creating keys and reading certificates are inputs and parameters.
pub mod Reopened
use text.Mathlib.Text.{◌==◌ as str_eq}
use modelrelay.Base.{
  ℕ, Bool, true, false, not, ◌&&◌, ◌||◌, String, List, [], ◌∷◌, Option, none, some, lookup,
  string_eq, Result, ok, err, if◌then◌else◌,
}
use modelrelay.Config.Relay.{ℤ, pos, is_positive}
use modelrelay.Certmgr.Files.{
  File, Files, Effect, Effects, FileError, and_then, file_exists, write_file,
}

pub data Kind : Type 0 where
  agent relay : Kind

pub record Workspace : Type 0 where
  pub dir : String
  pub kind : Kind
  pub cert_pem : List ℕ
  pub key_pem : List ℕ

pub record CreateOptions : Type 0 where
  pub dir : String
  pub kind : Kind
  pub cn : String
  pub days : ℤ

pub data WorkspaceError : Type 0 where
  dir_required not_locked not_found key_exists no_ca not_loaded : WorkspaceError
  file_error : FileError → WorkspaceError

-- A CA's certificate and key.
pub record Pair : Type 0 where
  pub cert : List ℕ
  pub key : List ℕ

abbrev pub default_cn : Kind → String
default_cn relay = "ModelRelay Relay CA"
default_cn agent = "ModelRelay Agent CA"

abbrev pub cert_file : Kind → String
cert_file relay = "relay-ca.crt"
cert_file agent = "agent-ca.crt"

abbrev pub key_file : Kind → String
key_file relay = "relay-ca.key"
key_file agent = "agent-ca.key"

-- `makes`, `locks` and `protects` are mkdirSecure, lockDownDir and chmodPrivate; `create_ca` is
-- certs.CreateCA, and `loads` says that LoadCA and Inspect accept a certificate and a key.
pub record Host : Type 0 where
  pub trim_space : String → String
  pub join : String → String → String
  pub makes : String → Bool
  pub locks : String → Bool
  pub protects : String → Bool
  pub effect : String → Effect
  pub create_ca : String → ℤ → Option Pair
  pub loads : List ℕ → List ℕ → Bool

module _ (h : Host) where
  -- CAPaths.
  abbrev pub cert_path : String → Kind → String
  cert_path dir kind = h.join dir (cert_file kind)

  abbrev pub key_path : String → Kind → String
  key_path dir kind = h.join dir (key_file kind)

  abbrev pub has_ca : String → Kind → Files → Bool
  has_ca dir kind fs = file_exists (cert_path dir kind) fs && file_exists (key_path dir kind) fs

  -- Whose files are opened: an older relay's workspace has an agent CA's names.
  unfoldable pub open_ca_paths : String → Kind → Files → Option Kind
  open_ca_paths dir agent fs = if has_ca dir agent fs then some agent else none
  open_ca_paths dir relay fs =
      if has_ca dir relay fs then some relay else if has_ca dir agent fs then some agent else none

  abbrev pub loaded : String → Kind → Option File → Option File → Result WorkspaceError Workspace
  loaded dir kind (some c) (some k) =
      if h.loads c.bytes k.bytes
      then ok (record { dir = dir; kind = kind; cert_pem = c.bytes; key_pem = k.bytes })
      else err not_loaded
  loaded dir kind none _ = err not_loaded
  loaded dir kind _ none = err not_loaded

  unfoldable pub load_workspace : String → Kind → Kind → Files → Result WorkspaceError Workspace
  load_workspace dir kind names fs =
      loaded dir kind (lookup (cert_path dir names) fs) (lookup (key_path dir names) fs)

  abbrev pub or_default_cn : String → Kind → String
  or_default_cn cn kind = if str_eq cn "" then default_cn kind else cn

  abbrev pub after_writes : String → Kind → Effects → Files × Result WorkspaceError Workspace
  after_writes dir kind (fs, err e) = (fs, err (file_error e))
  after_writes dir kind (fs, ok _) = (fs, load_workspace dir kind kind fs)

  unfoldable pub write_pair : String → Kind → Pair → Files → Effects
  unfolding write_file
  write_pair dir kind p fs =
      and_then (write_file h.effect false (cert_path dir kind) p.cert fs)
        λ fs. write_file h.effect true (key_path dir kind) p.key fs

  abbrev pub created : String → Kind → Option Pair → Files → Files × Result WorkspaceError Workspace
  created dir kind none fs = (fs, err no_ca)
  created dir kind (some p) fs = after_writes dir kind (write_pair dir kind p fs)

  unfoldable pub create_workspace : CreateOptions → Files → Files × Result WorkspaceError Workspace
  unfolding load_workspace write_pair
  create_workspace o fs =
      if str_eq (h.trim_space o.dir) ""
      then (fs, err dir_required)
      else if not (h.makes o.dir) || not (h.locks o.dir)
      then (fs, err not_locked)
      else if file_exists (key_path o.dir o.kind) fs
      then (fs, err key_exists)
      else created o.dir o.kind
          (h.create_ca (or_default_cn (h.trim_space o.cn) o.kind)
            (if is_positive o.days then o.days else pos 3650))
          fs

  abbrev pub opened : String → Kind → Option Kind → Files → Result WorkspaceError Workspace
  opened dir kind none fs = err not_found
  opened dir kind (some names) fs =
      if not (h.locks dir) || not (h.protects (key_path dir names))
      then err not_locked
      else load_workspace dir kind names fs

  unfoldable pub open_workspace : String → Kind → Files → Result WorkspaceError Workspace
  unfolding open_ca_paths load_workspace
  open_workspace dir kind fs =
      if str_eq (h.trim_space dir) ""
      then err dir_required
      else opened dir kind (open_ca_paths dir kind fs) fs
