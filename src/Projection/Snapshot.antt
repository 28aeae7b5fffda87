-- ===== src/Projection/Snapshot.antt =====
-- `SnapshotProjection` of internal/projection/snapshot.go. The SQL statements are functions on the tables,
-- as in Storage.
use codeallremote.Prelude.{
  String, Bool, Option, none, some, List, [], ◌∷◌, if◌then◌else◌, ◌==◌, string_eq, not, select, map,
}
use codeallremote.Prelude.Int.{ℤ, eqb_ℤ}
use codeallremote.Prelude.Result.{Result, ok, err}
use codeallremote.Domain.{Session, Run, Approval}
use codeallremote.Storage.Database.{
  SqlError, Action, pure, fail, ◌>>=◌, attempt, statement, query, exec, with_transaction,
}
use codeallremote.Storage.Sort.{sort_by}
use codeallremote.Storage.Events.{last_sequence_of, or_zero}
use codeallremote.Storage.Sessions.{
  first_row, has_id, newest_first, is_active_of, run_newest_first, update_sessions,
}

-- `Snapshot`
pub record Snapshot : Type 0 where
  pub session : Session
  pub active_run : Option Run
  pub pending_approval : Option Approval
  pub last_sequence : ℤ

-- `loadSession`
unfoldable pub load_session : String → Action Session
unfolding statement
load_session id = statement (λ t. first_row (select (has_id id) t.sessions) t)

-- `loadActiveRun`
unfoldable pub load_active_run : String → Action Run
unfolding statement sort_by
load_active_run session_id =
    statement
      (λ t. first_row (sort_by run_newest_first (select (is_active_of session_id) t.runs)) t)

-- `loadApproval`, which takes the payload's text as it stands in the column.
unfoldable pub load_approval : String → Action Approval
unfolding statement
load_approval id = statement (λ t. first_row (select (λ a. a.id == id) t.approvals) t)

-- `loadLastEventSequence` and `getLastSequenceFromDB`
unfoldable pub load_last_event_sequence : String → Action ℤ
unfolding statement
load_last_event_sequence session_id = query (λ t. or_zero (last_sequence_of session_id t))

-- `err != nil && err != sql.ErrNoRows`: a missing row is nothing, any other error ends the function.
abbrev pub row_or_none : {A : Type 0} → Result SqlError A → Action (Option A)
row_or_none (ok a) = pure (some a)
row_or_none (err SqlError.no_rows) = pure none
row_or_none (err e) = fail e

abbrev pub optional : {A : Type 0} → Action A → Action (Option A)
optional m = do r ← attempt m; row_or_none r

-- The approval that `session.PendingApproval` names, if it names one.
abbrev pub load_pending : Option String → Action (Option Approval)
load_pending none = pure none
load_pending (some id) = if id == "" then pure none else optional (load_approval id)

-- The end of the transactions of `GetSnapshot` and `Reconstruct`.
abbrev pub load_rest : Session → ℤ → Action Snapshot
load_rest s last = do
  run ← optional (load_active_run s.id)
  approval ← load_pending s.pending_approval
  pure (record { session = s; active_run = run; pending_approval = approval; last_sequence = last })

-- `GetSnapshot`, inside its transaction and as a whole.
unfoldable pub read_snapshot : String → Action Snapshot
read_snapshot id = do s ← load_session id; load_rest s s.last_sequence

unfoldable pub get_snapshot : String → Action Snapshot
get_snapshot id = with_transaction (read_snapshot id)

-- `lastSeq != session.LastSequence`
abbrev pub verified_sequence : ℤ → ℤ → ℤ
verified_sequence last stored = if not (eqb_ℤ last stored) then last else stored

-- `Reconstruct`, inside its transaction and as a whole.
unfoldable pub read_reconstructed : String → Action Snapshot
read_reconstructed id = do
  s ← load_session id
  last ← load_last_event_sequence id
  load_rest s (verified_sequence last s.last_sequence)

unfoldable pub reconstruct : String → Action Snapshot
reconstruct id = with_transaction (read_reconstructed id)

abbrev pub keep_found : {A : Type 0} → Result SqlError A → List A → List A
keep_found (ok a) rest = a ∷ rest
keep_found (err e) rest = rest

-- The loops of `GetSnapshotMultiple` and `ReconstructAll`: what cannot be read is left out.
unfoldable pub each_found : {A : Type 0} → (String → Action A) → List String → Action (List A)
each_found f [] = pure []
each_found f (id ∷ ids) = do r ← attempt (f id); rest ← each_found f ids; pure (keep_found r rest)

-- `GetSnapshotMultiple`, whose error is always nil.
unfoldable pub get_snapshot_multiple : List String → Action (List Snapshot)
get_snapshot_multiple ids = each_found get_snapshot ids

-- `ReconstructAll`
unfoldable pub reconstruct_all : Action (List Snapshot)
unfolding statement
reconstruct_all = do
  ids ← query (λ t. map (λ s. s.id) (sort_by newest_first t.sessions))
  each_found reconstruct ids

-- `IsConsistent`
unfoldable pub is_consistent : String → Action Bool
unfolding statement
is_consistent session_id = do
  stored ←
      statement
        (λ t. first_row (map (λ s. s.last_sequence) (select (has_id session_id) t.sessions)) t)
  journal ← load_last_event_sequence session_id
  pure (eqb_ℤ stored journal)

abbrev pub set_last_sequence : ℤ → Session → Session
set_last_sequence seq s = record s { last_sequence = seq }

-- `FixConsistency`
unfoldable pub fix_consistency : String → Action (Unit {0})
unfolding statement update_sessions
fix_consistency session_id = do
  journal ← load_last_event_sequence session_id
  exec (λ t. record t {
    sessions = update_sessions (has_id session_id) (set_last_sequence journal) t.sessions;
  })
