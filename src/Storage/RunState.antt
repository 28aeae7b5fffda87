-- ===== src/Storage/RunState.antt =====
-- `UpdateRunState` of internal/storage/session_repository.go against the schema of the migrations.
use codeallremote.Prelude.{ℕ, String, Bool, true, false, Option, List, ◌≡◌, ◌≢◌, refl}
use codeallremote.Prelude.Int.{ℤ}
use codeallremote.Prelude.Result.{ok, err}
use codeallremote.Storage.Database.{Tables, SqlError, Db, next_fault, run_unless}
use codeallremote.Storage.Sessions.{update_run_state}

refused :
    (fault : Bool) (fs : List Bool) (t : Tables)
    → let r = run_unless {A = Unit {0}} fault fs (λ _. err SqlError.no_such_column) t in
      (r.0 ≢ ok tt) × (r.1.tables ≡ t)
refused true fs t = ((λ e. cc), refl)
refused false fs t = ((λ e. cc), refl)

-- `UpdateRunState` never succeeds and changes no table: its statement sets a column `updated_at` that
-- table `runs` does not have.
update_run_state_fails :
    (now : ℕ) (id new_state : String) (exit_code : Option ℤ) (exit_error : Option String) (db : Db)
    → ((update_run_state now id new_state exit_code exit_error db).0 ≢ ok tt)
      × ((update_run_state now id new_state exit_code exit_error db).1.tables ≡ db.tables)
unfolding update_run_state
update_run_state_fails now id new_state exit_code exit_error db =
    refused (next_fault db.faults).0 (next_fault db.faults).1 db.tables
