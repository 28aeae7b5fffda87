-- ===== src/App/Tests.antt =====
-- The service at concrete inputs.
use codeallremote.Prelude.{
  String, true, false, none, some, List, [], ◌∷◌, ◌≡◌, refl, All, all, map, ◌==◌, string_eq, nat_eq,
  if◌then◌else◌,
}
use codeallremote.Prelude.Int.{pos}
use codeallremote.Prelude.Dict.{lookup}
use codeallremote.Prelude.Result.{ok}
use codeallremote.Domain.{Session, Approval}
use codeallremote.Domain.SessionState
use codeallremote.Domain.ApprovalState
use codeallremote.Storage.Database.{Tables, sound}
use codeallremote.Storage.States.{state_of}
use codeallremote.Lifecycle.Manager.{running}
use codeallremote.Workspace.Registry.{new_registry}
use codeallremote.App.State.{Adapter, App, Outside, Clock}
use codeallremote.App.Service.{RunHandle, Observed}
use codeallremote.App.Runs.{start_run}
use codeallremote.App.Resolve.{resolve_approval}
use codeallremote.App.Observe.{
  CompletionPayload, completion_signal, output_signal, handle_completion, handle_signal, cancel_all,
  cancel_pending, move_state,
}
use codeallremote.Approval.Bridge.{get_pending_by_session}
use codeallremote.Approval.Store.{pending_by_session}
use codeallremote.Storage.Sessions.{update_run_state, run_columns, update_run_columns}
use codeallremote.App.Serve.{serve, Incoming, start_run_of, signal_of, serve_all, serve}
use codeallremote.App.Published.{InJournal, serve_all-Recoverable}
use codeallremote.App.Near.{IsStarted}
use codeallremote.App.Transitions.{serve-IsMove}
use codeallremote.App.Completion.{start_run-handle_completion, resolve_approval-state_of}
use codeallremote.App.Late.{decision_of, resolve_approval-twice}
use codeallremote.Approval.Decide.{decided}
use codeallremote.App.State
use codeallremote.App.State.{
  attempt, called, dropped, emit_event, guard, new_id, on_db, publish, record_audit, with_error,
  ◌>>=◌,
}
use codeallremote.Storage.Sessions
use codeallremote.Storage.Sessions.{create_run, update_sessions, update_state}
use codeallremote.App.Runs.{after_start, check_accepting, register, start_adapter}
use codeallremote.Lifecycle.Manager.{is_accepting_runs, register_run}
use codeallremote.Session.Machine.{can_transition, valid_transitions}
use codeallremote.Prelude.{any, contains}
use codeallremote.App.Service.{adapter_of, found_or, workspace_by_id}
use codeallremote.Audit.Writer.{record_entry, redact_context}
use codeallremote.Prelude.Dict.{insert}
use codeallremote.Prelude.Int.{inc64}
use codeallremote.Storage.Cursor
use codeallremote.Storage.Cursor.{append_without_tx}
use codeallremote.Storage.Database.{statement, with_transaction}
use codeallremote.Storage.Events
use codeallremote.Storage.Events.{admits, insert_event, last_sequence_of, max_sequence}
use codeallremote.Storage.Workspaces.{get_workspace}
use codeallremote.Workspace.Registry

abbrev outside : Outside
outside = record {
  codec = record { marshal = λ s. s; unmarshal = λ s. ok s; describe = λ e. "error" };
  workspace_codec = record {
    adapters_text = λ l. "[]";
    read_adapters = λ s. [];
    policy_text = λ p. "{}";
    read_policy =
        λ s. record { allow_network_access = false; allow_writes = false; allowed_commands = [] };
    text_le = λ s t. true;
  };
  files = record { working_dir = some "/"; eval_symlinks = λ s. ok s; is_missing = λ s. false };
  lower = λ s. s;
  marshal = λ f. some "{}";
  decimal = λ n. "0";
  id_of = λ prefix n. if n == 0 then "m0" else if n == 1 then "m1" else "m2";
}

abbrev clock : Clock
clock = record { now = 50; db_now = 51 }

abbrev session : Session
session = record {
  id = "s1";
  workspace_id = "w1";
  adapter_id = "claude";
  state = SessionState.created;
  title = "";
  created_at = 10;
  updated_at = 10;
  last_activity_at = some 10;
  last_sequence = pos 0;
  pending_approval = none;
  owner_device_id = none;
  recovery_state = none;
}

abbrev tables : Tables
tables = record {
  sessions = session ∷ [];
  runs = [];
  events = [];
  approvals = [];
  devices = [];
  access_tokens = [];
  next_event_id = 1;
  workspaces = [];
  audit_log = [];
  next_audit_id = 1;
}

abbrev approval : Approval
approval = record {
  id = "a1";
  session_id = "s1";
  category = "tool";
  state = ApprovalState.approved;
  action_kind = "write";
  human_readable_context = "";
  structured_payload = "";
  created_at = 10;
  expires_at = 90;
  decided_at = some 20;
  decision_reason = none;
}

-- A service with one session, and with a publisher.
abbrev app : App
app = record {
  db = sound tables;
  workspaces = record { workspaces = []; paths = []; workspace_dir = "" };
  approvals = record {
    approvals = ("a1", approval) ∷ [];
    decision_ch = [];
    subscribers = [];
    store = none;
    default_expiry = 100;
  };
  audit = record { redact_patterns = []; redact_keys = [] };
  lifecycle = record {
    phase = running;
    active_runs = [];
    drain_timeout = 5;
    shutdown_ch = false;
    done = false;
  };
  adapters = ("claude", record { validate_workspace = λ w. none }) ∷ [];
  adapter_env = [];
  has_publisher = true;
  published = [];
  calls = [];
  next_id = 0;
}

abbrev observed : Observed
observed = record {
  session = session;
  run = record {
    id = "r1";
    session_id = "s1";
    state = "active";
    process_pid = none;
    process_args = none;
    started_at = none;
    ended_at = none;
    exit_code = none;
    exit_error = none;
    created_at = 50;
  };
}

abbrev handle : RunHandle
handle = record { id = "r1"; pid = pos 7 }

abbrev completion : CompletionPayload
completion = record { exit_code = pos 0; exit_error = "" }

abbrev requests : List Incoming
requests =
    start_run_of clock (ok handle) "u1" "s1"
    ∷ signal_of clock observed (output_signal (some "hello"))
    ∷ signal_of clock observed (completion_signal (some completion))
    ∷ []

serve_all-Recoverable_example :
    let app' = serve_all outside requests app in
    All (λ e. InJournal e app'.db.tables.events) app'.published
serve_all-Recoverable_example = serve_all-Recoverable outside requests app refl

serve-IsMove_example :
    (q' : String) × (state_of "s1"
        (serve outside (start_run_of clock (ok handle) "u1" "s1") app).db.tables.sessions
      ≡ some q')
    × IsStarted SessionState.created q'
unfolding state_of
serve-IsMove_example = serve-IsMove outside (start_run_of clock (ok handle) "u1" "s1") app "s1" refl

-- The service with an approval that is pending.
abbrev waiting : App
waiting = record app {
  approvals = record app.approvals {
    approvals = ("a1", record approval { state = ApprovalState.pending; decided_at = none }) ∷ [];
  };
}

resolve_approval-twice_example :
    resolve_approval outside clock "u2" "a1" "approve" "yes"
      (resolve_approval outside clock "u1" "a1" "deny" "no" waiting).1
    ≡ (
      ok (
          some (
            decided clock.now
              (decision_of "u1" "deny" "no")
              (record approval { state = ApprovalState.pending; decided_at = none }))),
      (resolve_approval outside clock "u1" "a1" "deny" "no" waiting).1,
    )
unfolding lookup
resolve_approval-twice_example =
    resolve_approval-twice outside clock clock "a1" "u1" "deny" "no" "u2" "approve" "yes" waiting
      refl refl refl

resolve_approval-state_of_example :
    state_of "s1" (resolve_approval outside clock "u1" "a1" "deny" "no" app).1.db.tables.sessions
    ≡ some SessionState.created
unfolding state_of
resolve_approval-state_of_example =
    resolve_approval-state_of outside clock "u1" "a1" "deny" "no" app "s1" refl

abbrev started_app : App
started_app = (start_run outside clock (ok handle) "u1" "s1" app).1

started :
    ((start_run outside clock (ok handle) "u1" "s1" app).0 ≡ ok observed)
    × (state_of "s1" started_app.db.tables.sessions ≡ some SessionState.active)
unfolding start_run state_of ◌>>=◌ with_error on_db Sessions.get_by_id check_accepting guard
    is_accepting_runs can_transition lookup valid_transitions contains adapter_of found_or
    State.pure attempt update_state workspace_by_id after_start register start_adapter called
    dropped emit_event new_id publish record_audit record_entry redact_context register_run insert
    inc64 any Cursor.append append_without_tx statement with_transaction admits Events.append
    insert_event last_sequence_of max_sequence create_run update_sessions get_workspace
    Registry.get_by_id
started = (refl, refl)

start_run-handle_completion_example :
    state_of "s1"
      (handle_completion outside clock observed (some completion) started_app).1.db.tables.sessions
    ≡ some SessionState.active
start_run-handle_completion_example =
    start_run-handle_completion outside clock clock (ok handle) "u1" "s1" app started.0
      (some completion) started_app started.1

-- The three events are published, and the session is still active.
served :
    (map (λ e. e.event_type) (serve_all outside requests app).published
      ≡ "run.started" ∷ "run.output" ∷ "run.completed" ∷ [])
    × (state_of "s1" (serve_all outside requests app).db.tables.sessions ≡ some SessionState.active)
unfolding serve_all serve handle_signal handle_completion cancel_all cancel_pending move_state
    get_pending_by_session pending_by_session update_run_state run_columns update_run_columns all
    start_run state_of ◌>>=◌ with_error on_db Sessions.get_by_id check_accepting guard
    is_accepting_runs can_transition lookup valid_transitions contains adapter_of found_or
    State.pure attempt update_state workspace_by_id after_start register start_adapter called
    dropped emit_event new_id publish record_audit record_entry redact_context register_run insert
    inc64 any Cursor.append append_without_tx statement with_transaction admits Events.append
    insert_event last_sequence_of max_sequence create_run update_sessions get_workspace
    Registry.get_by_id
served = (refl, refl)
