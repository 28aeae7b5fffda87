-- ===== src/Workspace/Config.antt =====
-- `LoadFromConfig` of internal/workspace/registry.go, with the registry and the database that it leaves.
use codeallremote.Prelude.{ℕ, String, List, [], ◌∷◌, ◌++◌, if◌then◌else◌, ◌==◌, string_eq}
use codeallremote.Prelude.Result.{Result, ok, err}
use codeallremote.Domain.{Workspace}
use codeallremote.Storage.Database.{Db, SqlError}
use codeallremote.Storage.Workspaces.{WorkspaceCodec, get_workspace}
use codeallremote.Workspace.Paths.{FileSystem}
use codeallremote.Workspace.Registry.{
  Registry, RegisterResult, RegistryError, keep, register, get_by_id,
}

-- `LoadFromConfig`: what happens with one workspace of the configuration.
abbrev pub LoadReport : Type 0
LoadReport = Registry × (List Workspace × List (String × RegistryError))

abbrev pub load_result :
    String → LoadReport → Result RegistryError (Registry × RegisterResult) → LoadReport
load_result id (r, (done, errors)) (ok (r', res)) = (r', (done ++ res.workspace ∷ [], errors))
load_result id (r, (done, errors)) (err e) = (r, (done, errors ++ (id, e) ∷ []))

module _ (codec : WorkspaceCodec) (fs : FileSystem) where
  abbrev pub load_new : ℕ → Workspace → LoadReport → Db → LoadReport × Db
  load_new now cfg l db =
      let (res, db') = register codec fs now cfg l.0 db in (load_result cfg.id l res, db')

  abbrev pub load_stored :
      ℕ → Workspace → LoadReport → Result SqlError Workspace → Db → LoadReport × Db
  load_stored now cfg l (ok ws) db =
      if ws.path == cfg.path then ((keep l.0 ws, l.1), db) else load_new now cfg l db
  load_stored now cfg l (err e) db = load_new now cfg l db

  abbrev pub load_unless :
      ℕ → Workspace → LoadReport → Result SqlError Workspace → Db → LoadReport × Db
  load_unless now cfg l (ok ws) db = (l, db)
  load_unless now cfg l (err e) db =
      let (stored, db') = get_workspace codec cfg.id db in load_stored now cfg l stored db'

  unfoldable pub load_one : ℕ → Workspace → LoadReport → Db → LoadReport × Db
  unfolding get_by_id
  load_one now cfg l db =
      let (found, db') = get_by_id codec fs cfg.id l.0 db in load_unless now cfg l found db'

  unfoldable pub load_all : ℕ → List Workspace → LoadReport → Db → LoadReport × Db
  load_all now [] l db = (l, db)
  load_all now (cfg ∷ configs) l db =
      let (l', db') = load_one now cfg l db in load_all now configs l' db'

  unfoldable pub load_from_config : ℕ → List Workspace → Registry → Db → LoadReport × Db
  load_from_config now configs r db = load_all now configs (r, ([], [])) db
