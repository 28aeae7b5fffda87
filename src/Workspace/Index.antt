-- ===== src/Workspace/Index.antt =====
-- The two maps of a registry: every path leads to a workspace that has it.
use codeallremote.Prelude.{
  String, Bool, true, false, none, some, List, [], ◌∷◌, ◌≡◌, sym, ap, subst, ◌∙◌, inl, inr, ◌⊎◌,
  Bool-cases, ◌==◌, string_eq, str_iff, map, select,
}
use codeallremote.Prelude.Dict.{
  lookup, insert, lookup-insert, lookup-erase, lookup-insert_self, insert_found, erase_found,
}
use codeallremote.Prelude.Result.{ok, err}
use codeallremote.Domain.{Workspace}
use codeallremote.Storage.Database.{
  Db, SqlError, Tables, WorkspaceRow, statement, settle, run_unless, next_fault,
}
use codeallremote.Storage.Workspaces.{WorkspaceCodec, get_workspace, scan_workspace, workspace_of}
use codeallremote.Storage.Sessions.{first_row}
use codeallremote.Workspace.Registry.{Registry, keep}
use codeallremote.Workspace.Calls.{without}

abbrev pub IsIndexed : Registry → Type 0
IsIndexed r =
    (path id : String)
    → lookup path r.paths ≡ some id
    → (w : Workspace) × (lookup id r.workspaces ≡ some w) × (w.path ≡ path)

-- Ids that the map tells apart differ.
new_apart :
    (r : Registry) (ws : Workspace) (id : String) (w : Workspace)
    → lookup ws.id r.workspaces ≡ none
    → lookup id r.workspaces ≡ some w
    → (ws.id == id) ≡ false
new_apart r ws id w n l = elim (Bool-cases (ws.id == id)) [
  | inl y ↦
      let same : ws.id ≡ id = (str_iff ws.id id).0 y in
      absurd (let f : none ≡ some w = cc (same, n, l) in cc)
  | inr differs ↦ differs
]

gone_apart :
    (r : Registry) (id j : String) (w x : Workspace) (path : String)
    → (lookup id r.workspaces ≡ some w) ⊎ (lookup id r.workspaces ≡ none)
    → lookup j r.workspaces ≡ some x
    → x.path ≡ path
    → (w.path == path) ≡ false
    → (id == j) ≡ false
gone_apart r id j w x path o l p n = elim (Bool-cases (id == j)) [
  | inr differs ↦ differs
  | inl y ↦
      let same : id ≡ j = (str_iff id j).0 y in
      elim o [
        | inr none_there ↦ absurd (let f : none ≡ some x = cc (same, none_there, l) in cc)
        | inl there ↦
            let f : some w ≡ some x = cc (same, there, l) in
            let g : w.path ≡ path = cc (f, p) in
            absurd (let c : false ≡ true = cc (n, (str_iff w.path path).1 g) in cc)
      ]
]

pub keep-IsIndexed :
    (r : Registry) (ws : Workspace)
    → lookup ws.id r.workspaces ≡ none
    → IsIndexed r
    → IsIndexed (keep r ws)
keep-IsIndexed r ws n h path id e = elim (insert_found ws.path path ws.id id r.paths e) [
  | inl (p, i) ↦ (
    ws,
    subst (λ j. lookup j (insert ws.id ws r.workspaces) ≡ some ws) i
        (lookup-insert_self ws.id ws r.workspaces),
    p,
  )
  | inr old ↦
      let (w, l, p) = h path id old in
      let apart : (ws.id == id) ≡ false = new_apart r ws id w n l in
      (w, lookup-insert ws.id id ws r.workspaces ∙ rw apart l, p)
]

pub without-IsIndexed :
    (id : String) (w : Workspace) (r : Registry)
    → (lookup id r.workspaces ≡ some w) ⊎ (lookup id r.workspaces ≡ none)
    → IsIndexed r
    → IsIndexed (without id w r)
without-IsIndexed id w r o h path j e =
    let (n, old) = erase_found w.path path j r.paths e in
    let (x, l, p) = h path j old in
    (x, lookup-erase id j r.workspaces ∙ rw (gone_apart r id j w x path o l p n) l, p)

-- The workspace that the store gives for an id has it.
first_row-id :
    (codec : WorkspaceCodec) (id : String) (rows : List WorkspaceRow) (t : Tables) (fs : List Bool)
    (w : Workspace)
    → (settle t fs (first_row (map (scan_workspace codec) (select (workspace_of id) rows)) t)).0
      ≡ ok w
    → w.id ≡ id
first_row-id codec id [] t fs w e = absurd (let f : err SqlError.no_rows ≡ ok w = e in cc)
first_row-id codec id (row ∷ rows) t fs w e = elim (Bool-cases (row.id == id)) [
  | inl y ↦
      let f : ok (scan_workspace codec row) ≡ ok w = rw y at e in
      let g : scan_workspace codec row ≡ w = cc f in
      sym (ap (λ x. x.id) g) ∙ (str_iff row.id id).0 y
  | inr n ↦ first_row-id codec id rows t fs w (let f : _ = rw n at e in f)
]

statement-id :
    (codec : WorkspaceCodec) (id : String) (fault : Bool) (fs : List Bool) (t : Tables)
    (w : Workspace)
    → (run_unless fault fs
        (λ t. first_row (map (scan_workspace codec) (select (workspace_of id) t.workspaces)) t)
        t).0
      ≡ ok w
    → w.id ≡ id
statement-id codec id true fs t w e = absurd (let f : err SqlError.driver ≡ ok w = e in cc)
statement-id codec id false fs t w e = first_row-id codec id t.workspaces t fs w e

pub get_workspace-id :
    (codec : WorkspaceCodec) (id : String) (db : Db) (w : Workspace)
    → (get_workspace codec id db).0 ≡ ok w
    → w.id ≡ id
unfolding get_workspace statement
get_workspace-id codec id db w e =
    statement-id codec id (next_fault db.faults).0 (next_fault db.faults).1 db.tables w e
