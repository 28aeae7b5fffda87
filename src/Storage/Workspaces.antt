-- ===== src/Storage/Workspaces.antt =====
-- `WorkspaceRepository` of internal/storage/session_repository.go. What `encoding/json` makes of a list of
-- adapters and of a policy is a parameter; a text that it cannot read leaves the field empty, since the
-- error of `Unmarshal` is not looked at.
use codeallremote.Prelude.{
  ℕ, String, Bool, List, [], ◌∷◌, ◌++◌, ◌||◌, ◌&&◌, not, if◌then◌else◌, ◌==◌, string_eq, select,
  any, map,
}
use codeallremote.Prelude.Result.{Result, ok, err}
use codeallremote.Domain.{Workspace, ExecutionPolicy}
use codeallremote.Storage.Database.{
  Tables, WorkspaceRow, SqlError, Action, statement, query, pure, ◌>>=◌,
}
use codeallremote.Storage.Sort.{sort_by}
use codeallremote.Storage.Sessions.{first_row}

-- `json.Marshal` and `json.Unmarshal` of the two columns, and the order of texts in SQL.
pub record WorkspaceCodec : Type 0 where
  pub adapters_text : List String → String
  pub read_adapters : String → List String
  pub policy_text : ExecutionPolicy → String
  pub read_policy : String → ExecutionPolicy
  pub text_le : String → String → Bool

abbrev pub workspace_of : String → WorkspaceRow → Bool
workspace_of id w = w.id == id

-- The primary key and the unique path.
abbrev pub clashes_with : WorkspaceRow → WorkspaceRow → Bool
clashes_with w x = x.id == w.id || x.path == w.path

abbrev pub insert_workspace : WorkspaceRow → Tables → Result SqlError (Unit {0} × Tables)
insert_workspace w t =
    if any (clashes_with w) t.workspaces
    then err SqlError.constraint
    else ok (tt, record t { workspaces = t.workspaces ++ w ∷ [] })

-- `DELETE FROM workspaces`: a session that refers to the workspace stops it.
abbrev pub delete_row : String → Tables → Result SqlError (Unit {0} × Tables)
delete_row id t =
    if any (λ s. s.workspace_id == id) t.sessions && any (workspace_of id) t.workspaces
    then err SqlError.constraint
    else ok (tt, record t { workspaces = select (λ w. not (workspace_of id w)) t.workspaces })

module _ (codec : WorkspaceCodec) where
  abbrev pub workspace_row : Workspace → WorkspaceRow
  workspace_row w = record {
    id = w.id;
    display_name = w.display_name;
    path = w.path;
    allowed_adapters = codec.adapters_text w.allowed_adapters;
    execution_policy = codec.policy_text w.execution_policy;
    created_at = w.created_at;
    updated_at = w.updated_at;
  }

  -- `scanWorkspace` and `scanWorkspaceRow`
  abbrev pub scan_workspace : WorkspaceRow → Workspace
  scan_workspace w = record {
    id = w.id;
    display_name = w.display_name;
    path = w.path;
    allowed_adapters = codec.read_adapters w.allowed_adapters;
    execution_policy = codec.read_policy w.execution_policy;
    created_at = w.created_at;
    updated_at = w.updated_at;
  }

  abbrev pub stamped : ℕ → Workspace → Workspace
  stamped now w = record w { created_at = now; updated_at = now }

  -- `Create`, with the workspace that it leaves to its caller.
  unfoldable pub create_workspace : ℕ → Workspace → Action Workspace
  unfolding statement
  create_workspace now w = do
    done ← statement (insert_workspace (workspace_row (stamped now w)))
    pure (stamped now w)

  -- The first of the rows that a query selects.
  abbrev pub find_workspace : (WorkspaceRow → Bool) → Action Workspace
  find_workspace p = statement (λ t. first_row (map scan_workspace (select p t.workspaces)) t)

  -- `GetByID`
  unfoldable pub get_workspace : String → Action Workspace
  unfolding statement
  get_workspace id = find_workspace (workspace_of id)

  -- `GetByPath`
  unfoldable pub get_workspace_by_path : String → Action Workspace
  unfolding statement
  get_workspace_by_path path = find_workspace (λ w. w.path == path)

  abbrev pub by_display_name : WorkspaceRow → WorkspaceRow → Bool
  by_display_name a b = codec.text_le a.display_name b.display_name

  -- `GetAll`
  unfoldable pub get_workspaces : Action (List Workspace)
  unfolding statement
  get_workspaces = query (λ t. map scan_workspace (sort_by by_display_name t.workspaces))

-- `Delete`
unfoldable pub delete_workspace : String → Action (Unit {0})
unfolding statement
delete_workspace id = statement (delete_row id)
