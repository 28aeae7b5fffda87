-- ===== src/Workspace/Calls.antt =====
-- What `Register` and `Unregister` leave of a registry, whichever statements fail.
use codeallremote.Prelude.{
  ℕ, String, none, some, ◌≡◌, refl, inl, inr, Bool-cases, ◌⊎◌, Option-cases, ◌==◌, string_eq,
}
use codeallremote.Prelude.Dict.{lookup, erase}
use codeallremote.Prelude.Result.{Result, ok, err}
use codeallremote.Domain.{Workspace}
use codeallremote.Storage.Database.{
  Db, SqlError, bind_rest, statement, pure, with_error, or_error, ◌>>=◌,
}
use codeallremote.Storage.Workspaces.{
  WorkspaceCodec, create_workspace, get_workspace, stamped, insert_workspace, workspace_row,
  delete_workspace,
}
use codeallremote.Workspace.Paths.{FileSystem}
use codeallremote.Workspace.Registry.{
  Registry, RegisterResult, RegistryError, keep, registration, register, unregister,
  check_workspace, store_checked, register_unless,
}
use codeallremote.Workspace.Confinement.{AcceptedBy, check_workspace-accepted}

abbrev pub registry_after : Registry → Result RegistryError (Registry × RegisterResult) → Registry
registry_after r (ok (r', res)) = r'
registry_after r (err e) = r

abbrev pub registry_or : Registry → Result RegistryError Registry → Registry
registry_or r (ok r') = r'
registry_or r (err e) = r

-- A registry without an id and the path that its workspace has.
abbrev pub without : String → Workspace → Registry → Registry
without id w r = record r { workspaces = erase id r.workspaces; paths = erase w.path r.paths }

module _ (codec : WorkspaceCodec) (fs : FileSystem) (P : Registry → Type 0) (r : Registry)
    (same : P r) where
  module _ (now : ℕ) (ws : Workspace)
      (kept : (path : String)
        → lookup ws.id r.workspaces ≡ none
        → AcceptedBy fs r.workspace_dir path
        → P (keep r (stamped codec now (record ws { path = path })))) where
    stored-kept :
        (w : Workspace) (q : Result SqlError (Unit {0}) × Db)
        → P (keep r w)
        → P (
            registry_after r
              (bind_rest
                (λ st. pure (registration r st))
                (let (res, db') = bind_rest (λ done. pure w) q in
                  (or_error RegistryError.not_stored res, db'))).0)
    stored-kept w (ok u, db) h = h
    stored-kept w (err e, db) h = same

    store_checked-kept :
        (o : Result RegistryError String) (db : Db)
        → lookup ws.id r.workspaces ≡ none
        → check_workspace fs r ws ≡ o
        → P (registry_after r (store_checked codec fs now r ws o db).0)
    unfolding create_workspace
    store_checked-kept (ok path) db n e =
        let w = stamped codec now (record ws { path = path }) in
        stored-kept w (statement (insert_workspace (workspace_row codec w)) db)
          (kept path n (check_workspace-accepted fs r ws e))
    store_checked-kept (err x) db n e = same

    register_unless-kept :
        (o : Result SqlError Workspace) (db : Db)
        → lookup ws.id r.workspaces ≡ none
        → P (registry_after r (register_unless codec fs now r ws o db).0)
    register_unless-kept (ok w) db n = same
    register_unless-kept (err e) db n = store_checked-kept (check_workspace fs r ws) db n refl

    pub register-kept : (db : Db) → P (registry_after r (register codec fs now ws r db).0)
    unfolding register
    register-kept db = elim (Bool-cases (ws.id == "")) [
      | inl z ↦ rw z same
      | inr n ↦ elim (Option-cases (lookup ws.id r.workspaces)) [
        | inl o ↦ rw n (
            rw o (
              register_unless-kept (get_workspace codec ws.id db).0 (get_workspace codec ws.id db).1
                o))
        | inr (w, o) ↦ rw n (rw o same)
      ]
    ]

  module _ (id : String)
      (kept : (w : Workspace)
        → (lookup id r.workspaces ≡ some w) ⊎ (lookup id r.workspaces ≡ none)
        → P (without id w r)) where
    deleted-kept :
        (w : Workspace) (q : Result SqlError (Unit {0}) × Db)
        → (lookup id r.workspaces ≡ some w) ⊎ (lookup id r.workspaces ≡ none)
        → P (
            registry_or r
              (bind_rest
                (λ done. pure (without id w r))
                (let (res, db') = q in (or_error RegistryError.not_stored res, db'))).0)
    deleted-kept w (ok u, db) h = kept w h
    deleted-kept w (err e, db) h = same

    found-kept :
        (q : Result SqlError Workspace × Db)
        → lookup id r.workspaces ≡ none
        → P (
            registry_or r
              (bind_rest
                (λ w. with_error RegistryError.not_stored (delete_workspace id) >>= λ done.
                  pure (without id w r))
                (let (res, db') = q in (or_error (λ e. RegistryError.not_found) res, db'))).0)
    found-kept (ok w, db) n = deleted-kept w (delete_workspace id db) (inr n)
    found-kept (err e, db) n = same

    pub unregister-kept : (db : Db) → P (registry_or r (unregister codec fs id r db).0)
    unfolding unregister
    unregister-kept db = elim (Option-cases (lookup id r.workspaces)) [
      | inl n ↦ rw n (found-kept (get_workspace codec id db) n)
      | inr (w, o) ↦ rw o (deleted-kept w (delete_workspace id db) (inl o))
    ]
