-- ===== src/Workspace/Registry.antt =====
-- `Registry` of internal/workspace/registry.go. A workspace is a value: that `Register` writes the path and the
-- times into its caller's object is seen in what it returns.
use codeallremote.Prelude.{
  ℕ, String, Bool, true, false, Option, none, some, List, [], ◌∷◌, ◌++◌, ◌&&◌, ◌||◌, not,
  if◌then◌else◌, ◌==◌, string_eq, is_some, all, select, length,
}
use codeallremote.Prelude.Dict.{Dict, lookup, insert, erase}
use codeallremote.Prelude.Result.{Result, ok, err}
use codeallremote.Prelude.Text.{has_prefix}
use codeallremote.Domain.{Workspace}
use codeallremote.Storage.Database.{
  Db, SqlError, Does, Action, pure, fail, attempt, with_error, ◌>>=◌,
}
use codeallremote.Storage.Workspaces.{
  WorkspaceCodec, create_workspace, get_workspace, get_workspace_by_path, get_workspaces,
  delete_workspace,
}
use codeallremote.Workspace.Paths.{
  FileSystem, PathError, EscapeError, resolve_canonical_path, validate_path_escape,
}

-- `Registry`, without its lock and its store.
pub record Registry : Type 0 where
  pub workspaces : Dict Workspace
  pub paths : Dict String
  pub workspace_dir : String

-- `NewRegistry`
unfoldable pub new_registry : String → Registry
new_registry dir = record { workspaces = []; paths = []; workspace_dir = dir }

-- `RegisterResult`: the warning is whether there is one.
pub record RegisterResult : Type 0 where
  pub workspace : Workspace
  pub warning : Bool

pub data RegistryError : Type 0 where
  empty_id duplicate_id empty_path duplicate_path missing_path unknown_adapter not_found :
      RegistryError
  unresolved : PathError → RegistryError
  bad_path : EscapeError → RegistryError
  not_stored : SqlError → RegistryError

-- `validateAllowedAdapters`
abbrev pub is_known_adapter : String → Bool
is_known_adapter a = a == "claude-code" || a == "fake-adapter"

unfoldable pub validate_allowed_adapters : List String → Bool
unfolding all
validate_allowed_adapters = all is_known_adapter

-- The checks of `Register` that do not ask the store, in its order: the canonical path, or the error.
abbrev pub check_new_path : FileSystem → Registry → Workspace → String → Result RegistryError String
check_new_path fs r ws path =
    if is_some (lookup path r.paths)
    then err duplicate_path
    else if fs.is_missing path
    then err missing_path
    else if not (validate_allowed_adapters ws.allowed_adapters)
    then err unknown_adapter
    else ok path

abbrev pub check_escape :
    FileSystem → Registry → Workspace → String → Option EscapeError → Result RegistryError String
check_escape fs r ws path (some e) = err (bad_path e)
check_escape fs r ws path none = check_new_path fs r ws path

abbrev pub check_resolved :
    FileSystem → Registry → Workspace → Result PathError String → Result RegistryError String
check_resolved fs r ws (err e) = err (unresolved e)
check_resolved fs r ws (ok path) =
    check_escape fs r ws path (validate_path_escape fs r.workspace_dir path)

unfoldable pub check_workspace : FileSystem → Registry → Workspace → Result RegistryError String
check_workspace fs r ws =
    if ws.path == ""
    then err empty_path
    else check_resolved fs r ws (resolve_canonical_path fs ws.path)

-- The registry and the result, after the workspace was stored.
abbrev pub keep : Registry → Workspace → Registry
keep r ws = record r {
  workspaces = insert ws.id ws r.workspaces;
  paths = insert ws.path ws.id r.paths;
}

abbrev pub registration : Registry → Workspace → Registry × RegisterResult
registration r ws = (
  keep r ws,
  record {
    workspace = ws;
    warning = not (r.workspace_dir == "") && not (has_prefix ws.path r.workspace_dir);
  },
)

-- The workspaces in memory, in the order of the map.
unfoldable pub values : Dict Workspace → List Workspace
values [] = []
values ((id, ws) ∷ m) = ws ∷ values m

abbrev pub is_ok : {E A : Type 0} → Result E A → Bool
is_ok (ok a) = true
is_ok (err e) = false

module _ (codec : WorkspaceCodec) (fs : FileSystem) where
  abbrev pub store_checked :
      ℕ
      → Registry
      → Workspace
      → Result RegistryError String
      → Does RegistryError (Registry × RegisterResult)
  store_checked now r ws (err e) = fail e
  store_checked now r ws (ok path) = do
    stored ← with_error not_stored (create_workspace codec now (record ws { path = path }))
    pure (registration r stored)

  -- Any error of the store counts as a workspace that is not there.
  abbrev pub register_unless :
      ℕ
      → Registry
      → Workspace
      → Result SqlError Workspace
      → Does RegistryError (Registry × RegisterResult)
  register_unless now r ws (ok existing) = fail duplicate_id
  register_unless now r ws (err e) = store_checked now r ws (check_workspace fs r ws)

  -- `Register`
  unfoldable pub register :
      ℕ → Workspace → Registry → Does RegistryError (Registry × RegisterResult)
  register now ws r =
      if ws.id == ""
      then fail empty_id
      else if is_some (lookup ws.id r.workspaces)
      then fail duplicate_id
      else do existing ← attempt (get_workspace codec ws.id); register_unless now r ws existing

  -- `Unregister`
  abbrev pub find_or_not_found : String → Option Workspace → Does RegistryError Workspace
  find_or_not_found id (some ws) = pure ws
  find_or_not_found id none = with_error (λ e. not_found) (get_workspace codec id)

  unfoldable pub unregister : String → Registry → Does RegistryError Registry
  unregister id r = do
    ws ← find_or_not_found id (lookup id r.workspaces)
    done ← with_error not_stored (delete_workspace id)
    pure (record r { workspaces = erase id r.workspaces; paths = erase ws.path r.paths })

  -- `GetByID`
  abbrev pub held_or : Action Workspace → Option Workspace → Action Workspace
  held_or m (some ws) = pure ws
  held_or m none = m

  unfoldable pub get_by_id : String → Registry → Action Workspace
  get_by_id id r = held_or (get_workspace codec id) (lookup id r.workspaces)

  -- `GetByPath`: nothing is the nil that the map gives for an unknown id.
  abbrev pub at_path : String → Registry → Option String → Does RegistryError (Option Workspace)
  at_path path r (some id) = pure (lookup id r.workspaces)
  at_path path r none = do
    ws ← with_error not_stored (get_workspace_by_path codec path)
    pure (some ws)

  abbrev pub by_canonical :
      Registry → Result PathError String → Does RegistryError (Option Workspace)
  by_canonical r (err e) = fail (unresolved e)
  by_canonical r (ok path) = at_path path r (lookup path r.paths)

  unfoldable pub get_by_path : String → Registry → Does RegistryError (Option Workspace)
  get_by_path path r = by_canonical r (resolve_canonical_path fs path)

  -- `GetAll`
  unfoldable pub get_all : Registry → Action (List Workspace)
  get_all r = do
    stored ← get_workspaces codec
    pure (values r.workspaces ++ select (λ ws. not (is_some (lookup ws.id r.workspaces))) stored)

  -- `IsRegistered`, with the database that it leaves.
  unfoldable pub is_registered : String → Registry → Db → Bool × Db
  is_registered id r db = let (found, db') = get_by_id id r db in (is_ok found, db')

  -- `IsPathRegistered`
  unfoldable pub is_path_registered : String → Registry → Db → Bool × Db
  is_path_registered path r db = let (found, db') = get_by_path path r db in (is_ok found, db')

-- `ValidatePath`
abbrev pub path_problem : FileSystem → String → Option EscapeError → Option RegistryError
path_problem fs path (some e) = some (bad_path e)
path_problem fs path none = if fs.is_missing path then some missing_path else none

abbrev pub resolved_problem : FileSystem → Registry → Result PathError String → Option RegistryError
resolved_problem fs r (err e) = some (unresolved e)
resolved_problem fs r (ok path) =
    path_problem fs path (validate_path_escape fs r.workspace_dir path)

unfoldable pub validate_path : FileSystem → String → Registry → Option RegistryError
validate_path fs path r =
    if path == "" then some empty_path else resolved_problem fs r (resolve_canonical_path fs path)

-- `Stats`
unfoldable pub workspace_stats : Registry → ℕ
workspace_stats r = length r.workspaces
