-- ===== src/Workspace/Restart.antt =====
-- `LoadFromConfig` at a later start of the server.
use codeallremote.Prelude.{
  ℕ, String, true, false, List, [], ◌∷◌, ◌≡◌, refl, ◌⊎◌, inl, inr, Bool-cases, Option-cases, ◌==◌,
  string_eq, any, All, map, select, is_some,
}
use codeallremote.Prelude.Dict.{lookup}
use codeallremote.Prelude.Result.{ok}
use codeallremote.Domain.{Workspace}
use codeallremote.Storage.Database.{Tables, WorkspaceRow, sound, settle, statement}
use codeallremote.Storage.Sessions.{first_row}
use codeallremote.Storage.Workspaces.{WorkspaceCodec, get_workspace, scan_workspace, workspace_of}
use codeallremote.Workspace.Paths.{FileSystem}
use codeallremote.Workspace.Registry.{Registry, get_by_id}
use codeallremote.Workspace.Config.{LoadReport, load_one, load_all, load_from_config}

-- The registry or the table has a workspace with the id.
abbrev pub IsKnown : Registry → Tables → Workspace → Type 0
IsKnown r t cfg =
    (is_some (lookup cfg.id r.workspaces) ≡ true) ⊎ (any (workspace_of cfg.id) t.workspaces ≡ true)

first_row_found :
    (codec : WorkspaceCodec) (id : String) (rows : List WorkspaceRow) (t : Tables)
    → any (workspace_of id) rows ≡ true
    → (w : Workspace) × (settle t []
          (first_row (map (scan_workspace codec) (select (workspace_of id) rows)) t)
        ≡ (ok w, sound t))
unfolding any
first_row_found codec id [] t h = absurd (let f : false ≡ true = h in cc)
first_row_found codec id (row ∷ rows) t h = elim (Bool-cases (row.id == id)) [
  | inl y ↦ (scan_workspace codec row, rw y refl)
  | inr n ↦
      rw n (
        first_row_found codec id rows t
          (let f : any (workspace_of id) rows ≡ true = rw n at h in f))
]

module _ (codec : WorkspaceCodec) (fs : FileSystem) (now : ℕ) (t : Tables) where
  stored_found :
      (id : String)
      → any (workspace_of id) t.workspaces ≡ true
      → (w : Workspace) × (get_workspace codec id (sound t) ≡ (ok w, sound t))
  unfolding get_workspace statement
  stored_found id h = first_row_found codec id t.workspaces t h

  load_one_known :
      (cfg : Workspace) (l : LoadReport)
      → IsKnown l.0 t cfg
      → load_one codec fs now cfg l (sound t) ≡ (l, sound t)
  unfolding load_one get_by_id
  load_one_known cfg l k = elim (Option-cases (lookup cfg.id l.0.workspaces)) [
    | inr (w, o) ↦ rw o refl
    | inl o ↦ elim k [
      | inl y ↦ absurd (let f : false ≡ true = rw o at y in cc)
      | inr y ↦ let (w, e) = stored_found cfg.id y in rw o (rw e refl)
    ]
  ]

  load_all_known :
      (configs : List Workspace) (l : LoadReport)
      → All (IsKnown l.0 t) configs
      → load_all codec fs now configs l (sound t) ≡ (l, sound t)
  unfolding load_all
  load_all_known [] l k = refl
  load_all_known (cfg ∷ configs) l (k, ks) =
      rw (load_one_known cfg l k) (load_all_known configs l ks)

-- If every configured workspace has an id that is in memory or in the table of a database whose driver
-- does not fail, `LoadFromConfig` changes nothing, registers nothing and reports no error, whatever the
-- configured paths are: a workspace that is only in the table is not loaded into memory.
pub load_from_config_known :
    (codec : WorkspaceCodec) (fs : FileSystem) (now : ℕ) (configs : List Workspace) (r : Registry)
    (t : Tables)
    → All (IsKnown r t) configs
    → load_from_config codec fs now configs r (sound t) ≡ ((r, ([], [])), sound t)
unfolding load_from_config
load_from_config_known codec fs now configs r t k =
    load_all_known codec fs now t configs (r, ([], [])) k
