-- ===== src/Workspace/Loading.antt =====
-- `GetByPath` and the two maps of a registry, over all its operations.
use codeallremote.Prelude.{
  ℕ, String, Option, none, some, List, [], ◌∷◌, ◌≡◌, refl, sym, subst, inl, inr, Bool-cases,
  Option-cases, ◌==◌, string_eq,
}
use codeallremote.Prelude.Dict.{lookup}
use codeallremote.Prelude.Result.{Result, ok, err}
use codeallremote.Domain.{Workspace}
use codeallremote.Storage.Database.{Db, bind_rest, pure, or_error, SqlError}
use codeallremote.Storage.Workspaces.{WorkspaceCodec, stamped, get_workspace, get_workspace_by_path}
use codeallremote.Workspace.Paths.{FileSystem, PathError, resolve_canonical_path}
use codeallremote.Workspace.Registry.{
  Registry, RegistryError, new_registry, register, unregister, get_by_path, by_canonical, at_path,
  get_by_id, RegisterResult,
}
use codeallremote.Workspace.Config.{
  LoadReport, load_result, load_new, load_stored, load_unless, load_one, load_all, load_from_config,
}
use codeallremote.Workspace.Calls.{registry_after, registry_or, register-kept, unregister-kept}
use codeallremote.Workspace.Index.{IsIndexed, keep-IsIndexed, without-IsIndexed, get_workspace-id}

module _ (codec : WorkspaceCodec) (fs : FileSystem) where
  register-IsIndexed :
      (now : ℕ) (ws : Workspace) (r : Registry) (db : Db)
      → IsIndexed r
      → IsIndexed (registry_after r (register codec fs now ws r db).0)
  register-IsIndexed now ws r db h =
      register-kept codec fs IsIndexed r h now ws
        (λ path n v. keep-IsIndexed r (stamped codec now (record ws { path = path })) n h) db

  load_result-registry :
      (id : String) (l : LoadReport) (res : Result RegistryError (Registry × RegisterResult))
      → (load_result id l res).0 ≡ registry_after l.0 res
  load_result-registry id l (ok x) = refl
  load_result-registry id l (err e) = refl

  load_new-IsIndexed :
      (now : ℕ) (cfg : Workspace) (l : LoadReport) (db : Db)
      → IsIndexed l.0
      → IsIndexed (load_new codec fs now cfg l db).0.0
  load_new-IsIndexed now cfg l db h =
      subst IsIndexed (sym (load_result-registry cfg.id l (register codec fs now cfg l.0 db).0))
        (register-IsIndexed now cfg l.0 db h)

  load_stored-IsIndexed :
      (now : ℕ) (cfg : Workspace) (l : LoadReport) (o : Result SqlError Workspace) (db db' : Db)
      → lookup cfg.id l.0.workspaces ≡ none
      → (get_workspace codec cfg.id db).0 ≡ o
      → IsIndexed l.0
      → IsIndexed (load_stored codec fs now cfg l o db').0.0
  load_stored-IsIndexed now cfg l (ok w) db db' n e h = elim (Bool-cases (w.path == cfg.path)) [
    | inl y ↦
        let same : w.id ≡ cfg.id = get_workspace-id codec cfg.id db w e in
        let free : lookup w.id l.0.workspaces ≡ none = cc (same, n) in
        rw y (keep-IsIndexed l.0 w free h)
    | inr d ↦ rw d (load_new-IsIndexed now cfg l db' h)
  ]
  load_stored-IsIndexed now cfg l (err x) db db' n e h = load_new-IsIndexed now cfg l db' h

  load_unless-IsIndexed :
      (now : ℕ) (cfg : Workspace) (l : LoadReport) (o : Result SqlError Workspace) (db : Db)
      → lookup cfg.id l.0.workspaces ≡ none
      → IsIndexed l.0
      → IsIndexed (load_unless codec fs now cfg l o db).0.0
  load_unless-IsIndexed now cfg l (ok w) db n h = h
  load_unless-IsIndexed now cfg l (err e) db n h =
      load_stored-IsIndexed now cfg l (get_workspace codec cfg.id db).0 db
        (get_workspace codec cfg.id db).1 n refl h

  load_one-IsIndexed :
      (now : ℕ) (cfg : Workspace) (l : LoadReport) (db : Db)
      → IsIndexed l.0
      → IsIndexed (load_one codec fs now cfg l db).0.0
  unfolding load_one get_by_id
  load_one-IsIndexed now cfg l db h = elim (Option-cases (lookup cfg.id l.0.workspaces)) [
    | inl n ↦
        let (found, db') = get_workspace codec cfg.id db in
        rw n (load_unless-IsIndexed now cfg l found db' n h)
    | inr (w, y) ↦ rw y h
  ]

  load_all-IsIndexed :
      (now : ℕ) (configs : List Workspace) (l : LoadReport) (db : Db)
      → IsIndexed l.0
      → IsIndexed (load_all codec fs now configs l db).0.0
  unfolding load_all
  load_all-IsIndexed now [] l db h = h
  load_all-IsIndexed now (cfg ∷ configs) l db h =
      let (l', db') = load_one codec fs now cfg l db in
      load_all-IsIndexed now configs l' db' (load_one-IsIndexed now cfg l db h)

  -- The answer of `GetByPath` is never nothing.
  stored-held :
      (q : Result SqlError Workspace × Db)
      → ¬ (
          (bind_rest {B = Option Workspace}
            (λ w. pure (some w))
            (let (res, db') = q in (or_error RegistryError.not_stored res, db'))).0
          ≡ ok none)
  stored-held (ok w, db) x = absurd (let f : ok (some w) ≡ ok none = x in cc)
  stored-held (err e, db) x = absurd (let f : err (RegistryError.not_stored e) ≡ ok none = x in cc)

  at_path-held :
      (path : String) (r : Registry) (o : Option String) (db : Db)
      → lookup path r.paths ≡ o
      → IsIndexed r
      → ¬ ((at_path codec fs path r o db).0 ≡ ok none)
  at_path-held path r (some id) db e h =
      let (w, l, p) = h path id e in λ x. absurd (let f : some w ≡ none = cc (l, x) in cc)
  at_path-held path r none db e h = stored-held (get_workspace_by_path codec path db)

  by_canonical-held :
      (r : Registry) (o : Result PathError String) (db : Db)
      → IsIndexed r
      → ¬ ((by_canonical codec fs r o db).0 ≡ ok none)
  by_canonical-held r (ok path) db h = at_path-held path r (lookup path r.paths) db refl h
  by_canonical-held r (err e) db h =
      λ x. absurd (let f : err (RegistryError.unresolved e) ≡ ok none = x in cc)

-- If every path of a registry leads to a workspace in memory that has it, this still holds after
-- `Register`, `Unregister` and `LoadFromConfig`, on any database and whichever statements fail; it holds
-- of a new registry; and `GetByPath` of such a registry never returns nil in place of a workspace.
pub IsIndexed-calls :
    (codec : WorkspaceCodec) (fs : FileSystem) (now : ℕ) (ws : Workspace) (id path dir : String)
    (configs : List Workspace) (r : Registry) (db : Db)
    → IsIndexed r
    → IsIndexed (registry_after r (register codec fs now ws r db).0)
      × IsIndexed (registry_or r (unregister codec fs id r db).0)
      × IsIndexed (load_from_config codec fs now configs r db).0.0
      × IsIndexed (new_registry dir)
      × (¬ ((get_by_path codec fs path r db).0 ≡ ok none))
unfolding load_from_config get_by_path new_registry lookup
IsIndexed-calls codec fs now ws id path dir configs r db h = (
  register-IsIndexed codec fs now ws r db h,
  unregister-kept codec fs IsIndexed r h id (λ w o. without-IsIndexed id w r o h) db,
  load_all-IsIndexed codec fs now configs (r, ([], [])) db h,
  (λ p i e. absurd (let f : none ≡ some i = e in cc)),
  by_canonical-held codec fs r (resolve_canonical_path fs path) db h,
)
