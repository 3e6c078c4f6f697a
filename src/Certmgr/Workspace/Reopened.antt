-- ===== src/Certmgr/Workspace/Reopened.antt =====
-- A workspace that was created (internal/certmgr/workspace.go) is the one that is opened later.
use text.Mathlib.Text.{◌==◌ as str_eq}
use modelrelay.Base.{
  ◌≡◌, Bool, inl, inr, refl, sym, ap, ◌∙◌, true, false, not, ◌||◌, String, Option, none, some,
  arith, lookup, insert, lookup-insert_self, string_eq, if-cases, Result, ok, err, ok-injective,
  Bool-cases, some-injective,
}
use modelrelay.Certmgr.Files.{
  File, Files, Effect, not_written, not_protected, written, Effects, and_then, file_exists,
  write_as,
}
use modelrelay.Certmgr.Workspace.{
  Kind, agent, relay, Workspace, CreateOptions, WorkspaceError, Pair, Host, cert_path, key_path,
  has_ca, open_ca_paths, loaded, load_workspace, after_writes, write_pair, created,
  create_workspace, open_workspace,
}

-- The files of the workspace, as `w` has them.
record HasPair (h : Host) (dir : String) (names : Kind) (fs : Files) (w : Workspace) : Type 0 where
  cert : has_ca h dir names fs ≡ true
  key : (f : File) × (lookup (key_path h dir names) fs ≡ some f) × (f.bytes ≡ w.key_pem)

-- The key of a new workspace.
pub record IsNew (h : Host) (o : CreateOptions) (fs fs' : Files) (w : Workspace) : Type 0 where
  pub free : file_exists (key_path h o.dir o.kind) fs ≡ false
  pub key : File
  pub there : lookup (key_path h o.dir o.kind) fs' ≡ some key
  pub private : key.private ≡ true
  pub same : key.bytes ≡ w.key_pem

module _ (h : Host) where
  loaded-some :
      (dir : String) (kind : Kind) (c k : Option File) (w : Workspace)
      → loaded h dir kind c k ≡ ok w
      → ((f : File) × (c ≡ some f)) × ((f : File) × (k ≡ some f) × (f.bytes ≡ w.key_pem))
  loaded-some dir kind none k w e = cc
  loaded-some dir kind (some c) none w e = cc
  loaded-some dir kind (some c) (some k) w e = elim (Bool-cases (h.loads c.bytes k.bytes)) [
    | inl accepted ↦
        let e' : ok (record { dir = dir; kind = kind; cert_pem = c.bytes; key_pem = k.bytes })
            ≡ ok w =
          rw accepted at e in
        ((c, refl), (k, refl, ap (λ v. v.key_pem) (ok-injective e')))
    | inr refused ↦ let bad : err WorkspaceError.not_loaded ≡ ok w = rw refused at e in cc
  ]

  load_workspace-HasPair :
      (dir : String) (kind names : Kind) (fs : Files) (w : Workspace)
      → load_workspace h dir kind names fs ≡ ok w
      → HasPair h dir names fs w
  unfolding load_workspace
  load_workspace-HasPair dir kind names fs w e =
      let ((c, there), (k, there', same)) =
        loaded-some dir kind (lookup (cert_path h dir names) fs) (lookup (key_path h dir names) fs)
          w e in
      record { cert = rw (file_exists, there, there'); key = (k, there', same) }

  after_writes-ok :
      (dir : String) (kind : Kind) (m : Effects) (fs : Files) (w : Workspace)
      → after_writes h dir kind m ≡ (fs, ok w)
      → (m ≡ (fs, ok tt)) × (load_workspace h dir kind kind fs ≡ ok w)
  after_writes-ok dir kind (gs, err e) fs w q = cc
  after_writes-ok dir kind (gs, ok _) fs w q =
      let same : gs ≡ fs = ap (λ p. p.0) q in
      (ap (λ g. (g, ok tt)) same, ap (load_workspace h dir kind kind) (sym same) ∙ ap (λ p. p.1) q)

  -- The last write is that of the key, for the owner only.
  key_private :
      (e e' : Effect) (cp kp : String) (c k : File) (fs gs : Files)
      → and_then (write_as h.effect e cp c fs) (λ fs. write_as h.effect e' kp k fs) ≡ (gs, ok tt)
      → lookup kp gs ≡ some k
  key_private not_written e' cp kp c k fs gs q = cc
  key_private not_protected e' cp kp c k fs gs q = cc
  key_private written not_written cp kp c k fs gs q = cc
  key_private written not_protected cp kp c k fs gs q = cc
  key_private written written cp kp c k fs gs q =
      ap (lookup kp) (sym (ap (λ p. p.0) q)) ∙ lookup-insert_self kp k (insert cp c fs)

  open_ca_paths-own :
      (dir : String) (kind : Kind) (fs : Files)
      → has_ca h dir kind fs ≡ true
      → open_ca_paths h dir kind fs ≡ some kind
  unfolding open_ca_paths
  open_ca_paths-own dir agent fs e = rw e
  open_ca_paths-own dir relay fs e = rw e

  -- The paths do not depend on what is locked and protected.
  open_ca_paths-same :
      (locks protects : String → Bool) (dir : String) (kind : Kind) (fs : Files)
      → open_ca_paths (record h { locks = locks; protects = protects }) dir kind fs
        ≡ open_ca_paths h dir kind fs
  unfolding open_ca_paths
  open_ca_paths-same locks protects dir agent fs = refl
  open_ca_paths-same locks protects dir relay fs = refl

  -- A creation that ends well has passed the guards, and the two writes.
  record Made (o : CreateOptions) (fs fs' : Files) (w : Workspace) : Type 0 where
    named : str_eq (h.trim_space o.dir) "" ≡ false
    locked : h.locks o.dir ≡ true
    free : file_exists (key_path h o.dir o.kind) fs ≡ false
    pair : Pair
    wrote : write_pair h o.dir o.kind pair fs ≡ (fs', ok tt)
    loads : load_workspace h o.dir o.kind o.kind fs' ≡ ok w

  created-Made :
      (o : CreateOptions) (p : Option Pair) (fs fs' : Files) (w : Workspace)
      → created h o.dir o.kind p fs ≡ (fs', ok w)
      → (q : Pair) × (write_pair h o.dir o.kind q fs ≡ (fs', ok tt))
        × (load_workspace h o.dir o.kind o.kind fs' ≡ ok w)
  created-Made o none fs fs' w e = cc
  created-Made o (some q) fs fs' w e =
      let (wrote, loads) = after_writes-ok o.dir o.kind (write_pair h o.dir o.kind q fs) fs' w e in
      (q, wrote, loads)

  create_workspace-Made :
      (o : CreateOptions) (fs fs' : Files) (w : Workspace)
      → create_workspace h o fs ≡ (fs', ok w)
      → Made o fs fs' w
  unfolding create_workspace
  create_workspace-Made o fs fs' w =
      if-cases P (str_eq (h.trim_space o.dir) "") (λ _ e. cc)
        λ named.
          if-cases P (not (h.makes o.dir) || not (h.locks o.dir)) (λ _ e. cc)
            λ locked.
              if-cases P (file_exists (key_path h o.dir o.kind) fs) (λ _ e. cc)
                λ free e.
                  let (q, wrote, loads) = created-Made o _ fs fs' w e in
                  record {
                    named = named;
                    locked = ground arith;
                    free = free;
                    pair = q;
                    wrote = wrote;
                    loads = loads;
                  }
    where
      P : Files × Result WorkspaceError Workspace → Type 0
      P m = m ≡ (fs', ok w) → Made o fs fs' w

  -- A creation that ends well made a key where none was, by writePrivateFile, with the bytes of the
  -- workspace that it returned.
  pub create_workspace-IsNew :
      (o : CreateOptions) (fs fs' : Files) (w : Workspace)
      → create_workspace h o fs ≡ (fs', ok w)
      → IsNew h o fs fs' w
  unfolding write_pair
  create_workspace-IsNew o fs fs' w e =
      let m = create_workspace-Made o fs fs' w e in
      let (f, there, same) = (load_workspace-HasPair o.dir o.kind o.kind fs' w m.loads).key in
      let stored =
        key_private (h.effect (cert_path h o.dir o.kind)) (h.effect (key_path h o.dir o.kind))
          (cert_path h o.dir o.kind) (key_path h o.dir o.kind) _
          (record { bytes = m.pair.key; private = true }) fs fs' m.wrote in
      record {
        free = m.free;
        key = f;
        there = there;
        private = ap (λ g. g.private) (some-injective (sym there ∙ stored));
        same = same;
      }

  -- After a creation that ends well, opening the workspace gives the workspace that the creation
  -- returned, if at the opening the directory can be locked down and the permissions of the key be set.
  pub open_workspace-create_workspace :
      (locks protects : String → Bool) (o : CreateOptions) (fs fs' : Files) (w : Workspace)
      → create_workspace h o fs ≡ (fs', ok w)
      → locks o.dir ≡ true
      → protects (key_path h o.dir o.kind) ≡ true
      → open_workspace (record h { locks = locks; protects = protects }) o.dir o.kind fs' ≡ ok w
  unfolding open_workspace open_ca_paths load_workspace
  open_workspace-create_workspace locks protects o fs fs' w e locked protected =
      let m = create_workspace-Made o fs fs' w e in
      let has = load_workspace-HasPair o.dir o.kind o.kind fs' w m.loads in
      let later : Host = record h { locks = locks; protects = protects } in
      let found : open_ca_paths later o.dir o.kind fs' ≡ some o.kind =
        open_ca_paths-same locks protects o.dir o.kind fs'
        ∙ open_ca_paths-own o.dir o.kind fs' has.cert in
      rw (open_workspace, m.named, found, locked, protected) (m.loads)

  -- A creation changes nothing where the key is already there.
  pub create_workspace-kept :
      (o : CreateOptions) (fs : Files) (f : File)
      → lookup (key_path h o.dir o.kind) fs ≡ some f
      → (create_workspace h o fs).0 ≡ fs
  unfolding create_workspace
  create_workspace-kept o fs f there =
      if-cases P (str_eq (h.trim_space o.dir) "") (λ _. refl)
        λ _.
          if-cases P (not (h.makes o.dir) || not (h.locks o.dir)) (λ _. refl)
            λ _. rw (file_exists, there)
    where
      P : Files × Result WorkspaceError Workspace → Type 0
      P m = m.0 ≡ fs
