-- ===== src/Workspace/Safety.antt =====
-- What holds of a registry over every sequence of calls.
use codeallremote.Prelude.{
  ℕ, String, true, none, some, List, [], ◌∷◌, ◌≡◌, refl, subst, inl, inr, string_eq,
}
use codeallremote.Prelude.Dict.{lookup, insert_found, erase_found}
use codeallremote.Prelude.Result.{ok}
use codeallremote.Domain.{Workspace}
use codeallremote.Storage.Database.{Db}
use codeallremote.Storage.Workspaces.{WorkspaceCodec, stamped}
use codeallremote.Workspace.Paths.{FileSystem, is_abs}
use codeallremote.Workspace.Registry.{Registry, new_registry, keep, register, unregister}
use codeallremote.Workspace.Confinement.{
  AcceptedBy, IsClean, IsConfined, validate_path_escape-IsConfined, resolve_canonical_path-IsClean,
}
use codeallremote.Workspace.Calls.{
  registry_after, registry_or, without, register-kept, unregister-kept,
}

-- `Register` at a time and `Unregister`.
pub data Call : Type 0 where
  register_call : ℕ → Workspace → Call
  unregister_call : String → Call

-- Every workspace in memory has a path that the check accepts, for a directory that stays.
abbrev IsChecked : FileSystem → String → Registry → Type 0
IsChecked fs dir r =
    (r.workspace_dir ≡ dir)
    × ((id : String) (ws : Workspace)
        → lookup id r.workspaces ≡ some ws
        → AcceptedBy fs dir ws.path)

keep-IsChecked :
    (fs : FileSystem) (dir : String) (r : Registry) (ws : Workspace)
    → AcceptedBy fs r.workspace_dir ws.path
    → IsChecked fs dir r
    → IsChecked fs dir (keep r ws)
keep-IsChecked fs dir r ws v (d, h) = (
  d,
  λ id w e. elim (insert_found ws.id id ws w r.workspaces e) [
    | inl (i, same) ↦ subst (λ x. AcceptedBy fs dir x.path) same (rw d at v)
    | inr old ↦ h id w old
  ],
)

without-IsChecked :
    (fs : FileSystem) (dir id : String) (w : Workspace) (r : Registry)
    → IsChecked fs dir r
    → IsChecked fs dir (without id w r)
without-IsChecked fs dir id w r (d, h) = (d, λ j x e. h j x (erase_found id j x r.workspaces e).1)

module _ (codec : WorkspaceCodec) (fs : FileSystem) where
  abbrev pub step : Call → Registry × Db → Registry × Db
  step (register_call now ws) (r, db) =
      let (res, db') = register codec fs now ws r db in (registry_after r res, db')
  step (unregister_call id) (r, db) =
      let (res, db') = unregister codec fs id r db in (registry_or r res, db')

  unfoldable pub run : List Call → Registry × Db → Registry × Db
  run [] x = x
  run (c ∷ cs) x = run cs (step c x)

  step-IsChecked :
      (dir : String) (c : Call) (x : Registry × Db)
      → IsChecked fs dir x.0
      → IsChecked fs dir (step c x).0
  step-IsChecked dir (register_call now ws) (r, db) h =
      register-kept codec fs (IsChecked fs dir) r h now ws
        (λ path n v. keep-IsChecked fs dir r (stamped codec now (record ws { path = path })) v h) db
  step-IsChecked dir (unregister_call id) (r, db) h =
      unregister-kept codec fs (IsChecked fs dir) r h id (λ w o. without-IsChecked fs dir id w r h)
        db

  run-IsChecked :
      (dir : String) (cs : List Call) (x : Registry × Db)
      → IsChecked fs dir x.0
      → IsChecked fs dir (run cs x).0
  unfolding run
  run-IsChecked dir [] x h = h
  run-IsChecked dir (c ∷ cs) x h = run-IsChecked dir cs (step c x) (step-IsChecked dir c x h)

  -- In a registry that was made for a directory, or for the empty text where there is none, after any sequence
  -- of calls of `Register` and `Unregister`, on any database and whichever statements fail, a workspace in
  -- memory has an absolute path that `Clean` returned, and if there is a directory, its
  -- absolute path can be found and the workspace's path is this one or one below it. `EvalSymlinks` is
  -- taken to return what `Clean` returns.
  pub run-IsConfined :
      ((p q : String) → fs.eval_symlinks p ≡ ok q → IsClean q)
      → (dir : String) (cs : List Call) (db : Db) (id : String) (ws : Workspace)
      → lookup id (run cs (new_registry dir, db)).0.workspaces ≡ some ws
      → (is_abs ws.path ≡ true) × IsClean ws.path × IsConfined fs dir ws.path
  unfolding new_registry lookup
  run-IsConfined cleans dir cs db id ws e =
      let start : IsChecked fs dir (new_registry dir) =
        (refl, λ j w f. absurd (let g : none ≡ some w = f in cc)) in
      let (v, (given, resolved)) = (run-IsChecked dir cs (new_registry dir, db) start).1 id ws e in
      let (rooted, confined) = validate_path_escape-IsConfined fs dir ws.path v in
      (rooted, resolve_canonical_path-IsClean fs cleans given ws.path resolved, confined)
