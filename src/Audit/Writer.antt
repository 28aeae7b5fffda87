-- ===== src/Audit/Writer.antt =====
-- `Writer` of internal/audit/writer.go. `strings.ToLower` is a parameter, and so is `json.Marshal` of a
-- context, with nothing for an error.
use codeallremote.Prelude.{
  ℕ, ◌+◌, String, Bool, true, Option, none, some, List, [], ◌∷◌, ◌++◌, ◌&&◌, ◌||◌, if◌then◌else◌,
  ◌==◌, string_eq, nat_eq, leb, ltb, length, select, not,
}
use codeallremote.Prelude.Int.{ℤ, pos, leb_ℤ, ltb_ℤ, eqb_ℤ}
use codeallremote.Prelude.Result.{ok}
use codeallremote.Domain.{AuditEntry}
use codeallremote.Storage.Database.{
  Tables, SqlError, Does, Action, fail, with_error, statement, query, exec,
}
use codeallremote.Storage.Sort.{sort_by}
use codeallremote.Storage.Events.{limit_rows}
use codeallremote.Storage.Sessions.{first_row}
use codeallremote.Audit.Redaction.{Fields, redact_fields}

-- `Writer`, without its lock and its database.
pub record Writer : Type 0 where
  pub redact_patterns : List String
  pub redact_keys : List String

-- `Entry`: a context that is nil is nothing.
pub record Entry : Type 0 where
  pub actor_id : String
  pub actor_type : String
  pub action : String
  pub target_type : String
  pub target_id : String
  pub outcome : String
  pub context : Option Fields

-- `NewWriter`
unfoldable pub new_writer : Writer
new_writer = record {
  redact_patterns = [];
  redact_keys =
      "token" ∷ "api_key" ∷ "apikey" ∷ "secret" ∷ "password" ∷ "passwd" ∷ "authorization" ∷ "cookie"
      ∷ "credential" ∷ "private_key" ∷ "access_token" ∷ "refresh_token" ∷ "bearer" ∷ "prompt" ∷ [];
}

-- `WithRedactPatterns`
unfoldable pub with_redact_patterns : List String → Writer → Writer
with_redact_patterns patterns w = record w { redact_patterns = w.redact_patterns ++ patterns }

-- `WithRedactKeys`
unfoldable pub with_redact_keys : List String → Writer → Writer
with_redact_keys keys w = record w { redact_keys = w.redact_keys ++ keys }

pub data AuditError : Type 0 where
  actor_required action_required not_marshaled : AuditError
  not_written : SqlError → AuditError

-- `INSERT INTO audit_log`
abbrev pub audit_row : ℕ → ℕ → Entry → String → AuditEntry
audit_row db_now id e context = record {
  id = id;
  actor_id = e.actor_id;
  actor_type = e.actor_type;
  action = e.action;
  target_type = e.target_type;
  target_id = e.target_id;
  outcome = if e.outcome == "" then "success" else e.outcome;
  context = some context;
  created_at = db_now;
}

abbrev pub insert_entry : ℕ → Entry → String → Tables → Tables
insert_entry db_now e context t = record t {
  audit_log = t.audit_log ++ audit_row db_now t.next_audit_id e context ∷ [];
  next_audit_id = t.next_audit_id + 1;
}

module _ (lower : String → String) where
  -- `redactContext`
  abbrev pub redact_some : Writer → Option Fields → Option Fields
  redact_some w none = none
  redact_some w (some fields) = some (redact_fields lower w.redact_keys w.redact_patterns fields)

  unfoldable pub redact_context : Writer → Option Fields → Option Fields
  redact_context w context = redact_some w context

module _ (lower : String → String) (marshal : Option Fields → Option String) where
  abbrev pub write_entry : ℕ → Entry → Option String → Does AuditError (Unit {0})
  write_entry db_now e none = fail not_marshaled
  write_entry db_now e (some context) =
      with_error not_written (exec (insert_entry db_now e context))

  -- `Record`, and `RecordWithTx` inside a transaction.
  unfoldable pub record_entry : ℕ → Entry → Writer → Does AuditError (Unit {0})
  unfolding statement
  record_entry db_now e w =
      if e.actor_id == ""
      then fail actor_required
      else if e.action == ""
      then fail action_required
      else write_entry db_now e (marshal (redact_context lower w e.context))

-- `limit <= 0 || limit > 1000`
abbrev pub audit_limit : ℤ → ℤ
audit_limit limit = if leb_ℤ limit (pos 0) || ltb_ℤ (pos 1000) limit then pos 100 else limit

abbrev pub entry_newest_first : AuditEntry → AuditEntry → Bool
entry_newest_first a b = leb b.created_at a.created_at

-- `GetByID`
unfoldable pub get_entry : ℤ → Action AuditEntry
unfolding statement
get_entry id = statement (λ t. first_row (select (λ e. eqb_ℤ (pos e.id) id) t.audit_log) t)

-- The newest entries that a condition selects.
abbrev pub newest_entries : (AuditEntry → Bool) → ℤ → Action (List AuditEntry)
newest_entries p limit =
    query (λ t. limit_rows (audit_limit limit) (sort_by entry_newest_first (select p t.audit_log)))

-- `GetByActor`
unfoldable pub get_by_actor : String → ℤ → Action (List AuditEntry)
unfolding statement sort_by
get_by_actor actor_id limit = newest_entries (λ e. e.actor_id == actor_id) limit

-- `GetByTarget`
unfoldable pub get_by_target : String → String → ℤ → Action (List AuditEntry)
unfolding statement sort_by
get_by_target target_type target_id limit =
    newest_entries (λ e. e.target_type == target_type && e.target_id == target_id) limit

-- `GetByAction`
unfoldable pub get_by_action : String → ℤ → Action (List AuditEntry)
unfolding statement sort_by
get_by_action action limit = newest_entries (λ e. e.action == action) limit

-- `GetRecent`
unfoldable pub get_recent : ℤ → Action (List AuditEntry)
unfolding statement sort_by
get_recent limit = newest_entries (λ e. true) limit

-- `GetByTimeRange`
unfoldable pub get_by_time_range : ℕ → ℕ → ℤ → Action (List AuditEntry)
unfolding statement sort_by
get_by_time_range from to limit =
    newest_entries (λ e. leb from e.created_at && leb e.created_at to) limit

-- `Count`
unfoldable pub count_entries : Action ℕ
unfolding statement
count_entries = query (λ t. length t.audit_log)

-- `PurgeOlderThan`
unfoldable pub purge_older_than : ℕ → Action ℕ
unfolding statement
purge_older_than before = statement (λ t. ok (
  length (select (λ e. ltb e.created_at before) t.audit_log),
  record t { audit_log = select (λ e. not (ltb e.created_at before)) t.audit_log },
))
