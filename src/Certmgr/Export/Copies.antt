-- ===== src/Certmgr/Export/Copies.antt =====
-- Which files an export of the certificate manager (internal/certmgr/export.go) can have copied.
use text.Mathlib.Text.{◌==◌ as str_eq}
use text.Mathlib.TextBridge.{to_list, to_list-of_list}
use Prim.Native.Char.{Char}
use modelrelay.Base.{
  ℕ, ◌≡◌, ◌⊎◌, inl, inr, refl, sym, subst, Bool, true, false, ◌||◌, String, List, [], ◌∷◌, map, All,
  some, lookup, insert, string_eq, Option-cases, if-cases, ok, err,
}
use modelrelay.Certmgr.Files.{
  write_as, File, Files, Effect, not_written, not_protected, written, Effects, and_then, write_file,
  copy_file,
}
use modelrelay.Certmgr.Export.{
  RelayExportInput, AgentExportInput, System, ca_key_name, is_key, make_dir, copies, export_relay,
  export_agent, cert_name, is_reserved, replaced, sanitize_file_name,
}

-- The files `gs` come from `fs` by copies that are `Allowed`, by source and whether the copy is
-- private, and by writing the note.
pub data Reached (Allowed : String → Bool → Type 0) (note : List ℕ) (fs : Files)
    : Files → Type 0 where
  same : Reached Allowed note fs fs
  copied :
      {gs hs : Files} (src dst : String) (private : Bool) (f : File)
      → Reached Allowed note fs gs
      → Allowed src private
      → lookup src gs ≡ some f
      → hs ≡ insert dst (record { bytes = f.bytes; private = private }) gs
      → Reached Allowed note fs hs
  noted :
      {gs hs : Files} (dst : String)
      → Reached Allowed note fs gs
      → hs ≡ insert dst (record { bytes = note; private = false }) gs
      → Reached Allowed note fs hs

after_step :
    (P : Files → Type 0) (m : Effects) (next : Files → Effects)
    → P m.0
    → ((gs : Files) → P gs → P (next gs).0)
    → P (and_then m next).0
after_step P (fs, err e) next p step = p
after_step P (fs, ok _) next p step = step fs p

module _ (sys : System) (Allowed : String → Bool → Type 0) (note : List ℕ) (fs : Files) where
  abbrev R : Files → Type 0
  R = Reached Allowed note fs

  written_or_not :
      (dst : String) (bytes : List ℕ) (private : Bool) (gs : Files)
      → R gs
      → R (insert dst (record { bytes = bytes; private = private }) gs)
      → R (write_file sys.effect private dst bytes gs).0
  unfolding write_file
  written_or_not dst bytes private gs before after = by_effect (sys.effect dst)
    where
      by_effect :
          (e : Effect)
          → R (write_as sys.effect e dst (record { bytes = bytes; private = private }) gs).0
      by_effect not_written = before
      by_effect not_protected = after
      by_effect written = after

  copies-Reached :
      (src dst : String) (private : Bool) (gs : Files)
      → Allowed src private
      → R gs
      → R (copies sys src dst private gs).0
  unfolding copy_file
  copies-Reached src dst private gs allowed r = elim (Option-cases (lookup src gs)) [
    | inl missing ↦ rw (copy_file, missing) r
    | inr (f, found) ↦
        rw (copy_file, found)
          (written_or_not dst f.bytes private gs r (copied src dst private f r allowed found refl))
  ]

  note-Reached : (dst : String) (gs : Files) → R gs → R (write_file sys.effect false dst note gs).0
  note-Reached dst gs r = written_or_not dst note false gs r (noted dst r refl)

  make_dir-Reached : (dir : String) (gs : Files) → R gs → R (make_dir sys dir gs).0
  make_dir-Reached dir gs r =
      if-cases (λ (m : Effects). R m.0) (sys.makes_dir dir) (λ _. r) (λ _. r)

  -- A copy, and what follows it.
  then_copy :
      (src dst : String) (private : Bool) (next : Files → Effects) (gs : Files)
      → Allowed src private
      → ((hs : Files) → R hs → R (next hs).0)
      → R gs
      → R (and_then (copies sys src dst private gs) next).0
  then_copy src dst private next gs allowed rest r =
      after_step R (copies sys src dst private gs) next
        (copies-Reached src dst private gs allowed r) rest

both_false : (a b : Bool) → (a || b) ≡ false → (a ≡ false) × (b ≡ false)
both_false true b h = cc
both_false false b h = (refl, h)

-- What an agent's directory may get: public copies of files that are no keys.
abbrev pub ForAgent : System → String → Bool → Type 0
ForAgent sys src private =
    (is_key sys src ≡ false) × (ca_key_name sys src ≡ false) × (private ≡ false)

-- What a relay's directory may get; `key` is its own key, which alone is copied privately.
abbrev pub ForRelay : System → String → String → Bool → Type 0
ForRelay sys key src private =
    (ca_key_name sys src ≡ false) × ((private ≡ false) ⊎ ((src ≡ key) × (private ≡ true)))

module _ (sys : System) where
  -- Whatever writes fail, each before its file or at its permissions, and with whatever error it
  -- ends, an export for an agent changes the files only by public copies of files that have not the
  -- extension of a key or the name of a CA key, and by the README.
  pub export_agent-Reached :
      (readme : List ℕ) (i : AgentExportInput) (fs : Files)
      → Reached (ForAgent sys) readme fs (export_agent sys readme i fs).0
  unfolding export_agent
  export_agent-Reached readme i fs =
      if-cases P (str_eq (sys.trim_space i.dest_dir) "") (λ _. same)
        λ _.
          if-cases P (is_key sys i.agent_cert_path || ca_key_name sys i.agent_cert_path) (λ _. same)
            λ cert.
              if-cases P (ca_key_name sys i.relay_ca_path || is_key sys i.relay_ca_path) (λ _. same)
                λ ca.
                  let (no_key, no_ca_key) = both_false _ _ cert in
                  let (no_ca_key', no_key') = both_false _ _ ca in
                  after_step R' (make_dir sys i.dest_dir fs) _
                    (make_dir-Reached sys (ForAgent sys) readme fs i.dest_dir fs same)
                    λ gs r.
                      then_copy sys (ForAgent sys) readme fs i.agent_cert_path
                        (sys.join i.dest_dir (cert_name sys i)) false _ gs (no_key, no_ca_key, refl)
                        (λ hs s.
                          then_copy sys (ForAgent sys) readme fs i.relay_ca_path
                            (sys.join i.dest_dir "relay-ca.crt") false _ hs
                            (no_key', no_ca_key', refl)
                            (note-Reached sys (ForAgent sys) readme fs
                              (sys.join i.dest_dir "README.txt"))
                            s)
                        r
    where
      R' : Files → Type 0
      R' = Reached (ForAgent sys) readme fs

      P : Effects → Type 0
      P m = Reached (ForAgent sys) readme fs m.0

  -- Whatever writes fail, each before its file or at its permissions, and with whatever error it
  -- ends, an export for the relay changes the files only by copies of files that have not the name of
  -- a CA key, public ones but for that of the relay's own key, and by the README.
  pub export_relay-Reached :
      (readme : List ℕ) (i : RelayExportInput) (fs : Files)
      → Reached (ForRelay sys i.server_key_path) readme fs (export_relay sys readme i fs).0
  unfolding export_relay
  export_relay-Reached readme i fs =
      if-cases P (str_eq (sys.trim_space i.dest_dir) "") (λ _. same)
        λ _.
          if-cases P
            (ca_key_name sys i.server_key_path
              || (ca_key_name sys i.server_cert_path || ca_key_name sys i.agent_ca_path))
            (λ _. same)
            λ refused.
              let (key, others) = both_false _ _ refused in
              let (cert, ca) = both_false _ _ others in
              after_step R' (make_dir sys i.dest_dir fs) _
                (make_dir-Reached sys Own readme fs i.dest_dir fs same)
                λ gs r.
                  then_copy sys Own readme fs i.server_cert_path (sys.join i.dest_dir "relay.crt")
                    false _ gs (cert, inl refl)
                    (λ hs s.
                      then_copy sys Own readme fs i.server_key_path
                        (sys.join i.dest_dir "relay.key") true _ hs (key, inr (refl, refl))
                        (λ ks t.
                          then_copy sys Own readme fs i.agent_ca_path
                            (sys.join i.dest_dir "agent-ca.crt") false _ ks (ca, inl refl)
                            (note-Reached sys Own readme fs (sys.join i.dest_dir "README.txt")) t)
                        s)
                    r
    where
      Own : String → Bool → Type 0
      Own = ForRelay sys i.server_key_path

      R' : Files → Type 0
      R' = Reached Own readme fs

      P : Effects → Type 0
      P m = Reached Own readme fs m.0

map-replaced : (cs : List Char) → All (λ c. is_reserved c ≡ false) (map replaced cs)
map-replaced [] = tt
map-replaced (c ∷ cs) = (
  if-cases (λ d. is_reserved d ≡ false) (is_reserved c) (λ _. refl) (λ plain. plain),
  map-replaced cs,
)

-- A sanitized name has no character that separates paths or that file systems reserve.
pub sanitize_file_name-All :
    (trim_space : String → String) (name : String)
    → All (λ c. is_reserved c ≡ false) (to_list (sanitize_file_name trim_space name))
unfolding sanitize_file_name
sanitize_file_name-All trim_space name =
    if-cases (λ s. All (λ c. is_reserved c ≡ false) (to_list s)) (str_eq (trim_space name) "")
      (λ _.
        subst (All (λ c. is_reserved c ≡ false))
          (sym (to_list-of_list ("r" ∷ "e" ∷ "l" ∷ "a" ∷ "y" ∷ [])))
          (refl, (refl, (refl, (refl, (refl, tt))))))
      λ _. subst (All (λ c. is_reserved c ≡ false)) (sym (to_list-of_list _)) (map-replaced _)
