-- ===== src/Tests/Background.antt =====
-- The theorems on what the relay writes and deletes in the background, and on the first accounts, at
-- concrete inputs.
use modelrelay.Base.{
  ◌/◌, ◌%◌, ℕ, ◌<◌, ◌≤◌, ◌≡◌, refl, true, false, String, List, [], ◌∷◌, ◌++◌, Option, some, arith,
  length, select, ok, lookup, insert,
}
use modelrelay.Config.Relay.{ℤ, pos}
use modelrelay.Store.Certs.{Store, AuditEntry, RequestSummary}
use modelrelay.Store.Logs.{text_lt}
use modelrelay.Store.Logs.Timestamps.{rfc3339_nano}
use modelrelay.Store.Logs.Retained.{is_younger}
use modelrelay.Relay.Persistence.{
  Event, submitted, stopping, took, saw_stop, found_empty, start, write_run, queue_size, prune,
}
use modelrelay.Relay.Persistence.Delivery.{untimed, accepted, left, write_run-accepted}
use modelrelay.Relay.Persistence.Pruning.{PrunedIf, prune-IsPruned, prune-younger}
use modelrelay.Store.Users.{
  ConfiguredUser, bootstrap, ensure_admin, get_admin_user, create_admin_user,
}
use modelrelay.Store.Users.Bootstrap.{IsExplained, bootstrap-IsExplained}
use modelrelay.Admin.Login.{AdminUser}
use modelrelay.Tests.Admin.{a_store, the_users}

abbrev a_summary : RequestSummary
a_summary = record {
  time = 0;
  request_id = "r";
  path = "/v1/models";
  model = "m";
  node = "a";
  status = 200;
  ttft_ms = 1;
  duration_ms = 2;
  error_code = "";
}

abbrev written_late : List Event
written_late =
    submitted a_summary
    ∷ submitted a_summary
    ∷ took 5 true
    ∷ stopping
    ∷ saw_stop
    ∷ took 6 true
    ∷ found_empty
    ∷ []

write_run-accepted_example :
    let w = write_run written_late (start a_store) in
    (untimed w.store.summaries ++ left w.worker w.queue
      ≡ untimed a_store.summaries ++ untimed (accepted written_late (start a_store)))
    × (length w.queue ≤ queue_size)
write_run-accepted_example =
    write_run-accepted written_late a_store (tt, (tt, (refl, (tt, (tt, (refl, (tt, tt)))))))

-- A clock that has two bytes for a second, up to the second 65536.
abbrev clock : ℕ → List ℕ
clock s = (s / 256) ∷ (s % 256) ∷ []

clock-ordered : (s t : ℕ) → s < t → t < 65536 → text_lt (clock s) (clock t) ≡ true
clock-ordered s t h small = ground arith

abbrev entry_at : ℕ → AuditEntry
entry_at t = record { time = t; actor = "root"; action = "login"; target = "" }

abbrev logged : Store
logged = record a_store {
  audit = entry_at 1000000000 ∷ entry_at 2500000000 ∷ entry_at 3000000000 ∷ [];
}

abbrev two_seconds : ℕ → ℤ → ℕ
two_seconds now days = 2000000000

prune-IsPruned_example :
    let st' = prune (rfc3339_nano clock) two_seconds (9, true) (10, false) (pos 1) logged in
    PrunedIf true (λ e. e.time) 2000000000 logged.audit st'.audit
    × PrunedIf false (λ r. r.time) 2000000000 logged.summaries st'.summaries
    × (st'.certs ≡ logged.certs)
prune-IsPruned_example =
    prune-IsPruned clock 2 65536 (λ s h. refl) clock-ordered two_seconds 9 10 true false (pos 1)
      logged refl (omega arith) (omega arith) (omega arith, (omega arith, (omega arith, tt))) tt

prune-younger_example :
    let st' = prune (rfc3339_nano clock) two_seconds (9, true) (10, true) (pos 1) logged in
    (select (λ e. is_younger 2000000000 e.time) st'.audit ≡ [])
    × (select (λ r. is_younger 2000000000 r.time) st'.summaries ≡ [])
prune-younger_example = prune-younger clock two_seconds 9 10 (pos 1) logged refl refl refl

abbrev hashed : String → Option String
hashed plain = some plain

abbrev configured : List ConfiguredUser
configured =
    record { username = "root"; password = "new"; role = "admin" }
    ∷ record { username = "eve"; password = "pw"; role = "owner" }
    ∷ record { username = ""; password = "x"; role = "admin" }
    ∷ []

abbrev made_users : List (String × AdminUser)
made_users =
    ("root", record { username = "root"; password_hash = "pw"; role = "admin" })
    ∷ ("eve", record { username = "eve"; password_hash = "pw"; role = "readonly" })
    ∷ []

made : bootstrap hashed configured the_users ≡ ok made_users
unfolding bootstrap ensure_admin get_admin_user create_admin_user lookup insert
made = refl

bootstrap-IsExplained_example : IsExplained hashed configured the_users made_users "eve"
bootstrap-IsExplained_example =
    bootstrap-IsExplained hashed configured the_users made_users "eve" made
