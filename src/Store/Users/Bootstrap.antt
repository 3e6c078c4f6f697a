-- ===== src/Store/Users/Bootstrap.antt =====
-- What the accounts are after the start of the relay (cmd/relay/main.go).
use modelrelay.Base.{
  ◌≡◌, ◌⊎◌, inl, inr, refl, sym, ap, ◌∙◌, subst, false, String, List, [], ◌∷◌, Option, none, some,
  lookup, insert, lookup-insert, lookup-insert_self, string_eq, ok, err, >>=-eq-ok, ok-injective,
  some-injective, none-some, Bool-cases, Option-cases,
}
use modelrelay.Admin.Login.{AdminUser}
use modelrelay.Store.Users.{
  Users, hash_failed, get_admin_user, user_row, ConfiguredUser, is_skipped, granted_role,
  create_admin_user, ensure_admin, bootstrap,
}

-- An account that was there is unchanged; one that is new has the name, the hashed password and the
-- role of a configured account, or "readonly" where that role is not known.
abbrev pub Explained : (String → Option String) → List ConfiguredUser → AdminUser → Type 0
Explained hash [] row = ⊥
Explained hash (u ∷ us) row =
    ((is_skipped u ≡ false)
      × (hash u.password ≡ some row.password_hash)
      × (row.username ≡ u.username)
      × (row.role ≡ granted_role u.role))
    ⊎ Explained hash us row

module _ (hash_password : String → Option String) where
  -- The account was there, or it is inserted.
  abbrev Ensured : String → String → String → Users → Users → Type 0
  Ensured username plain role users users' =
      ((row : AdminUser) × (lookup username users ≡ some row) × (users' ≡ users))
      ⊎ ((hash : String) × (hash_password plain ≡ some hash)
          × (lookup username users ≡ none)
          × (users' ≡ insert username (user_row username hash role) users))

  ensure_admin-Ensured :
      (username plain role : String) (users users' : Users)
      → ensure_admin hash_password username plain role users ≡ ok users'
      → Ensured username plain role users users'
  unfolding ensure_admin get_admin_user create_admin_user
  ensure_admin-Ensured username plain role users users' h =
      elim (Option-cases (lookup username users)) [
        | inr (row, found) ↦
            let same : ok users ≡ ok users' = rw (ensure_admin, get_admin_user, found) at h in
            inl (row, found, sym (ok-injective same))
        | inl missing ↦ elim (Option-cases (hash_password plain)) [
          | inl failed ↦
              let bad : err hash_failed ≡ ok users' =
                rw (ensure_admin, get_admin_user, create_admin_user, missing, failed) at h in
              cc
          | inr (hash, hashed) ↦
              let made : ok (insert username (user_row username hash role) users) ≡ ok users' =
                rw (ensure_admin, get_admin_user, create_admin_user, missing, hashed, missing) at
                  h in
              inr (hash, hashed, missing, sym (ok-injective made))
        ]
      ]

  -- What holds of the account `name` after the bootstrap.
  pub record IsExplained (us : List ConfiguredUser) (users users' : Users) (name : String)
      : Type 0 where
    pub unchanged : (row : AdminUser) → lookup name users ≡ some row → lookup name users' ≡ some row
    pub explained :
        (row : AdminUser)
        → lookup name users ≡ none
        → lookup name users' ≡ some row
        → Explained hash_password us row × (row.username ≡ name)

  -- The account `name` is as before the step.
  untouched :
      (u : ConfiguredUser) (us : List ConfiguredUser) (users made users' : Users) (name : String)
      → lookup name made ≡ lookup name users
      → IsExplained us made users' name
      → IsExplained (u ∷ us) users users' name
  untouched u us users made users' name same v = record {
    unchanged = λ row h. v.unchanged row (same ∙ h);
    explained = λ row missing found.
        let (known, named) = v.explained row (same ∙ missing) found in (inr known, named);
  }

  skip :
      (u : ConfiguredUser) (us : List ConfiguredUser) (users users' : Users) (name : String)
      → IsExplained us users users' name
      → IsExplained (u ∷ us) users users' name
  skip u us users users' name v = untouched u us users users users' name refl v

  -- The step makes it.
  inserted :
      (u : ConfiguredUser) (us : List ConfiguredUser) (users made users' : Users) (hash : String)
      → is_skipped u ≡ false
      → hash_password u.password ≡ some hash
      → lookup u.username users ≡ none
      → lookup u.username made ≡ some (user_row u.username hash (granted_role u.role))
      → IsExplained us made users' u.username
      → IsExplained (u ∷ us) users users' u.username
  inserted u us users made users' hash used hashed missing there v = record {
    unchanged = λ row h. absurd (none-some (sym missing ∙ h));
    explained = λ row _ found.
        let same : user_row u.username hash (granted_role u.role) ≡ row =
          some-injective (sym (v.unchanged _ there) ∙ found) in
        (
          inl (
            used,
            hashed ∙ ap (λ r. some r.password_hash) same,
            ap (λ r. r.username) (sym same),
            ap (λ r. r.role) (sym same),
          ),
          ap (λ r. r.username) (sym same),
        );
  }

  one_step :
      (u : ConfiguredUser) (us : List ConfiguredUser) (users made users' : Users) (name : String)
      → is_skipped u ≡ false
      → Ensured u.username u.password (granted_role u.role) users made
      → IsExplained us made users' name
      → IsExplained (u ∷ us) users users' name
  one_step u us users made users' name used (inl (row, found, same)) v =
      untouched u us users made users' name (ap (lookup name) same) v
  one_step u us users made users' name used (inr (hash, hashed, missing, e)) v =
      let row : AdminUser = user_row u.username hash (granted_role u.role) in
      elim (Bool-cases (string_eq.eqb u.username name)) [
        | inr other ↦
            untouched u us users made users' name
              (ap (lookup name) e ∙ lookup-insert u.username name row users ∙ rw other) v
        | inl own ↦
            let same : u.username ≡ name = (string_eq.eqb_iff u.username name).0 own in
            subst (λ n. IsExplained us made users' n → IsExplained (u ∷ us) users users' n) same
              (inserted u us users made users' hash used hashed missing
                (ap (lookup u.username) e ∙ lookup-insert_self u.username row users))
              v
      ]

  -- If the bootstrap succeeds, then every account that was there before is unchanged, and every new
  -- account has the name, the hashed password and the role of a configured account that has a name
  -- and a password, the role "readonly" where that is neither "admin" nor "readonly".
  pub bootstrap-IsExplained :
      (us : List ConfiguredUser) (users users' : Users) (name : String)
      → bootstrap hash_password us users ≡ ok users'
      → IsExplained us users users' name
  unfolding bootstrap
  bootstrap-IsExplained [] users users' name h = record {
    unchanged = λ row found. ap (lookup name) (sym (ok-injective h)) ∙ found;
    explained = λ row missing found.
        absurd (none-some (sym missing ∙ ap (lookup name) (ok-injective h) ∙ found));
  }
  bootstrap-IsExplained (u ∷ us) users users' name h = elim (Bool-cases (is_skipped u)) [
    | inl skipped ↦
        skip u us users users' name
          (bootstrap-IsExplained us users users' name (rw (bootstrap, skipped) at h))
    | inr used ↦
        let (made, ensured, rest) =
          >>=-eq-ok (ensure_admin hash_password u.username u.password (granted_role u.role) users) _
            (rw (bootstrap, used) at h) in
        one_step u us users made users' name used
          (ensure_admin-Ensured u.username u.password (granted_role u.role) users made ensured)
          (bootstrap-IsExplained us made users' name rest)
  ]
