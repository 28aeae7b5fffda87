-- ===== src/App/State.antt =====
-- `App` of internal/app/app.go and what its methods share. An adapter works on a process outside: what it
-- answers to a call is an argument of the method that makes the call, and the calls are recorded.
use codeallremote.Prelude.{
  ℕ, ◌+◌, String, Bool, true, Option, none, some, List, [], ◌∷◌, ◌++◌, if◌then◌else◌,
}
use codeallremote.Prelude.Int.{ℤ, pos}
use codeallremote.Prelude.Dict.{Dict, insert}
use codeallremote.Prelude.Result.{Result, ok, err}
use codeallremote.Domain.{Event, Workspace}
use codeallremote.Storage.Database.{Db, SqlError, Does}
use codeallremote.Storage.Workspaces.{WorkspaceCodec}
use codeallremote.Storage.Cursor.{append_without_tx}
use codeallremote.Approval.DbStore.{Codec}
use codeallremote.Approval.Bridge.{Bridge, BridgeError}
use codeallremote.Lifecycle.Manager.{Manager}
use codeallremote.Workspace.Registry.{Registry}
use codeallremote.Workspace.Paths.{FileSystem}
use codeallremote.Audit.Redaction.{Fields}
use codeallremote.Audit.Writer.{Writer, Entry, AuditError, record_entry}

-- `Adapter`, without the methods whose answers are arguments: the text of the errors that
-- `ValidateWorkspace` gives for a workspace that is not valid.
pub record Adapter : Type 0 where
  pub validate_workspace : Workspace → Option String

-- The calls that the service makes of adapters.
pub data AdapterCall : Type 0 where
  start_call : String → String → Option (Dict String) → AdapterCall
  prompt_call : String → String → String → AdapterCall
  interrupt_call : String → String → AdapterCall
  decision_call : String → String → String → Bool → String → AdapterCall

-- `App`. `next_id` counts the random identifiers, and `published` is what the publisher was given, if
-- there is one.
pub record App : Type 0 where
  pub db : Db
  pub workspaces : Registry
  pub approvals : Bridge Db
  pub audit : Writer
  pub lifecycle : Manager
  pub adapters : Dict Adapter
  pub adapter_env : Dict (Dict String)
  pub has_publisher : Bool
  pub published : List Event
  pub calls : List AdapterCall
  pub next_id : ℕ

-- What is not code of the repository: the texts of JSON, the file system, lower case, the decimal text of
-- a number, and the random identifiers.
pub record Outside : Type 0 where
  pub codec : Codec
  pub workspace_codec : WorkspaceCodec
  pub files : FileSystem
  pub lower : String → String
  pub marshal : Option Fields → Option String
  pub decimal : ℤ → String
  pub id_of : String → ℕ → String

-- The readings of the Go clock and of SQL's clock during a call.
pub record Clock : Type 0 where
  pub now : ℕ
  pub db_now : ℕ

-- The sentinels with what the text adds, `undecided` for `ErrConflict` with an error of the bridge, and
-- the errors that are passed on.
pub data ServiceError : Type 0 where
  not_found invalid conflict : String → ServiceError
  storage : SqlError → ServiceError
  undecided : BridgeError → ServiceError
  adapter_failed : String → ServiceError

-- A method of the service.
abbrev pub Method : Type 0 → Type 0 → Type 0
Method E A = App → Result E A × App

unfoldable pub pure : {E A : Type 0} → A → Method E A
pure a app = (ok a, app)

unfoldable pub fail : {E A : Type 0} → E → Method E A
fail e app = (err e, app)

abbrev pub bind_rest : {E A B : Type 0} → (A → Method E B) → Result E A × App → Result E B × App
bind_rest f (ok a, app) = f a app
bind_rest f (err e, app) = (err e, app)

infixl 5 ◌>>=◌ ◌>>◌
unfoldable pub ◌>>=◌ : {E A B : Type 0} → Method E A → (A → Method E B) → Method E B
◌>>=◌ m f app = bind_rest f (m app)

abbrev pub ◌>>◌ : {E A B : Type 0} → Method E A → Method E B → Method E B
m >> k = m >>= λ _. k

-- A call whose error the code looks at or drops.
unfoldable pub attempt : {E F A : Type 0} → Method E A → Method F (Result E A)
attempt m app = let (r, app') = m app in (ok r, app')

unfoldable pub dropped : {E F A : Type 0} → Method E A → Method F (Unit {0})
dropped m app = let (r, app') = m app in (ok tt, app')

abbrev pub mapped : {E F A : Type 0} → (E → F) → Result E A → Result F A
mapped f (ok a) = ok a
mapped f (err e) = err (f e)

unfoldable pub with_error : {E F A : Type 0} → (E → F) → Method E A → Method F A
with_error f m app = let (r, app') = m app in (mapped f r, app')

unfoldable pub guard : {E : Type 0} → Bool → E → Method E (Unit {0})
guard b e app = if b then (ok tt, app) else (err e, app)

-- A call of a repository, and one of the approval bridge, whose store is the same database.
unfoldable pub on_db : {E A : Type 0} → Does E A → Method E A
on_db act app = let (r, db') = act app.db in (r, record app { db = db' })

abbrev pub store_or : Db → Option Db → Db
store_or db none = db
store_or db (some db') = db'

unfoldable pub on_bridge : {E A : Type 0} → (Bridge Db → Bridge Db × A) → Method E A
on_bridge f app =
    let (b, r) = f (record app.approvals { store = some app.db }) in
    (
      ok r,
      record app {
        db = store_or app.db b.store;
        approvals = record b { store = app.approvals.store };
      },
    )

unfoldable pub called : {E : Type 0} → AdapterCall → Method E (Unit {0})
called c app = (ok tt, record app { calls = app.calls ++ c ∷ [] })

-- `RegisterAdapter`
unfoldable pub register_adapter : String → Adapter → App → App
register_adapter id ad app = record app { adapters = insert id ad app.adapters }

-- `SetEventPublisher`
unfoldable pub set_event_publisher : App → App
set_event_publisher app = record app { has_publisher = true }

unfoldable pub publish : {E : Type 0} → Event → Method E (Unit {0})
publish e app = (
  ok tt,
  record app { published = if app.has_publisher then app.published ++ e ∷ [] else app.published },
)

module _ (outside : Outside) where
  -- `newID`
  unfoldable pub new_id : {E : Type 0} → String → Method E String
  new_id prefix app =
      (ok (outside.id_of prefix app.next_id), record app { next_id = app.next_id + 1 })

  abbrev pub new_event : Clock → String → String → String → Fields → Event
  new_event clock session_id event_type message_id payload = record {
    id = pos 0;
    session_id = session_id;
    sequence = pos 0;
    event_type = event_type;
    message_id = message_id;
    schema_version = pos 1;
    payload = outside.marshal (some payload);
    occurred_at = clock.now;
  }

  -- `emitEvent`
  unfoldable pub emit_event : Clock → String → String → Fields → Method SqlError (Unit {0})
  emit_event clock session_id event_type payload = do
    message_id ← new_id "msg"
    let e = new_event clock session_id event_type message_id payload
    seq ← on_db (append_without_tx clock.db_now e)
    publish (record e { sequence = seq })

  -- `a.audit.Record`, whose error nobody looks at.
  unfoldable pub record_audit : Clock → Entry → Method AuditError (Unit {0})
  record_audit clock e app =
      on_db (record_entry outside.lower outside.marshal clock.db_now e app.audit) app
