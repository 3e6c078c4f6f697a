-- ===== src/Certmgr/Files.antt =====
-- The files of the certificate manager, internal/certmgr/files.go. `effect` says what the calls of a
-- write do: they fail before the file is written, or at its permissions, or succeed; the directories
-- and the functions on paths are parameters.
use text.Mathlib.Text.{◌==◌ as str_eq}
use modelrelay.Base.{
  ℕ, Bool, true, false, ◌||◌, String, List, none, some, lookup, insert, string_eq, Result, ok, err,
}

-- `private`: written by writePrivateFile and not by writePublicFile. Whom the two let read it is the
-- system's: on Unix the owner, or all; on Windows only the user and the system, for both.
pub record File : Type 0 where
  pub bytes : List ℕ
  pub private : Bool

abbrev pub Files : Type 0
Files = List (String × File)

pub data Effect : Type 0 where
  not_written not_protected written : Effect

pub data FileError : Type 0 where
  unreadable unwritable unprotected no_directory : FileError
  dir_required ca_key_refused agent_key_refused : FileError

abbrev pub Effects : Type 0
Effects = Files × Result FileError (Unit {0})

-- A step after one that did not fail.
abbrev pub and_then : Effects → (Files → Effects) → Effects
and_then (fs, err e) next = (fs, err e)
and_then (fs, ok _) next = next fs

abbrev pub file_exists : String → Files → Bool
file_exists path fs = elim (lookup path fs) [ none ↦ false | some f ↦ true ]

module _ (to_lower base : String → String) where
  unfoldable pub is_ca_key_name : String → Bool
  is_ca_key_name path =
      str_eq (to_lower (base path)) "agent-ca.key" || str_eq (to_lower (base path)) "relay-ca.key"

module _ (effect : String → Effect) where
  abbrev pub write_as : Effect → String → File → Files → Effects
  write_as not_written path f fs = (fs, err unwritable)
  write_as not_protected path f fs = (insert path f fs, err unprotected)
  write_as written path f fs = (insert path f fs, ok tt)

  -- writePrivateFile and writePublicFile.
  unfoldable pub write_file : Bool → String → List ℕ → Files → Effects
  write_file private path bytes fs =
      write_as (effect path) path (record { bytes = bytes; private = private }) fs

  unfoldable pub copy_file : String → String → Bool → Files → Effects
  unfolding write_file
  copy_file src dst private fs = elim (lookup src fs) [
    | none ↦ (fs, err unreadable)
    | some f ↦ write_file private dst f.bytes fs
  ]
