-- ===== src/Store/Users.antt =====
-- The accounts of internal/store/certs.go, and the accounts that cmd/relay/main.go makes of the
-- settings at the start. The column `username` is unique, so the table is a map from names to rows in
-- the order of their ids; bcrypt is a parameter, `none` where it fails. Ids and times are left out.
pub mod Bootstrap
use text.Mathlib.Text.{◌==◌ as str_eq}
use modelrelay.Base.{
  Bool, true, false, not, ◌&&◌, ◌||◌, String, List, [], ◌∷◌, map, Option, none, some, lookup,
  insert, string_eq, Result, ok, err, ◌>>=◌, if◌then◌else◌,
}
use modelrelay.Admin.Login.{AdminUser}

abbrev pub Users : Type 0
Users = List (String × AdminUser)

pub data UserError : Type 0 where
  hash_failed name_taken : UserError

unfoldable pub get_admin_user : String → Users → Option AdminUser
get_admin_user username users = lookup username users

unfoldable pub list_admin_users : Users → List AdminUser
list_admin_users = map (λ u. u.1)

abbrev pub user_row : String → String → String → AdminUser
user_row username hash role = record { username = username; password_hash = hash; role = role }

-- The accounts of the settings.
pub record ConfiguredUser : Type 0 where
  pub username : String
  pub password : String
  pub role : String

abbrev pub is_skipped : ConfiguredUser → Bool
is_skipped u = str_eq u.username "" || str_eq u.password ""

abbrev pub granted_role : String → String
granted_role role =
    if not (str_eq role "admin") && not (str_eq role "readonly") then "readonly" else role

module _ (hash_password : String → Option String) where
  unfoldable pub create_admin_user : String → String → String → Users → Result UserError Users
  create_admin_user username plain role users = elim (hash_password plain) [
    | none ↦ err hash_failed
    | some hash ↦ elim (lookup username users) [
      | some row ↦ err name_taken
      | none ↦ ok (insert username (user_row username hash role) users)
    ]
  ]

  unfoldable pub ensure_admin : String → String → String → Users → Result UserError Users
  unfolding get_admin_user create_admin_user
  ensure_admin username plain role users = elim (get_admin_user username users) [
    | some row ↦ ok users
    | none ↦ create_admin_user username plain role users
  ]

  -- The loop of `run`; an account that cannot be made ends the start of the relay.
  unfoldable pub bootstrap : List ConfiguredUser → Users → Result UserError Users
  unfolding ensure_admin
  bootstrap [] users = ok users
  bootstrap (u ∷ us) users =
      let rest = λ (made : Users). bootstrap us made in
      if is_skipped u
      then rest users
      else ensure_admin u.username u.password (granted_role u.role) users >>= rest
