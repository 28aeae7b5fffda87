-- ===== src/Workspace/Confinement.antt =====
-- Where the workspaces of a registry lie.
use Prim.Native.String.{◌++◌}
use codeallremote.Prelude.{
  String, true, false, Option, none, some, ◌≡◌, refl, ◌⊎◌, inl, inr, ◌&&◌, subst, ◌==◌, string_eq,
  str_iff, Bool-cases, Option-cases, not, if◌then◌else◌, arith,
}
use codeallremote.Prelude.Result.{Result, ok, err}
use codeallremote.Prelude.Text.{has_prefix, trim_prefix, after_prefix, append-after_prefix}
use codeallremote.Domain.{Workspace}
use codeallremote.Workspace.Paths.{
  FileSystem, PathError, EscapeError, abs, clean, is_abs, under, or_cleaned, resolve_links,
  check_base, validate_path_escape, resolve_canonical_path,
}
use text.Mathlib.TextLemmas.{append-nil}
use codeallremote.Workspace.Registry.{
  Registry, RegistryError, check_workspace, check_resolved, check_escape, check_new_path,
}

-- The directory itself, or a path below it.
abbrev pub IsWithin : String → String → Type 0
IsWithin base path = (path ≡ base) ⊎ ((rest : String) × (path ≡ base ++ ("/" ++ rest)))

after_slash : (rest : String) → has_prefix rest "/" ≡ true → (tail : String) × (rest ≡ "/" ++ tail)
unfolding has_prefix
after_slash rest h = elim (Option-cases (after_prefix "/" rest)) [
  | inl n ↦ absurd (let f : false ≡ true = rw n at h in cc)
  | inr (tail, e) ↦ (tail, append-after_prefix "/" rest e)
]

slash_of :
    (rest : String)
    → (rest == "") ≡ false
    → (not (rest == "") && not (has_prefix rest "/")) ≡ false
    → has_prefix rest "/" ≡ true
slash_of rest n h = ground arith

IsWithin-of_rest :
    (path base rest : String)
    → path ≡ base ++ rest
    → (not (rest == "") && not (has_prefix rest "/")) ≡ false
    → IsWithin base path
IsWithin-of_rest path base rest e h = elim (Bool-cases (rest == "")) [
  | inl z ↦ inl (cc (e, (str_iff rest "").0 z, append-nil base))
  | inr n ↦ let (tail, t) = after_slash rest (slash_of rest n h) in inr (tail, cc (e, t))
]

abbrev slash_check : String → Option EscapeError
slash_check rest =
    if not (rest == "") && not (has_prefix rest "/") then some EscapeError.escapes else none

slashed :
    (rest : String)
    → slash_check rest ≡ none
    → (not (rest == "") && not (has_prefix rest "/")) ≡ false
slashed rest h = ground arith

check_base-IsWithin : (path base : String) → check_base path (ok base) ≡ none → IsWithin base path
unfolding has_prefix trim_prefix
check_base-IsWithin path base h = elim (Option-cases (after_prefix base path)) [
  | inl n ↦ absurd (let f : some EscapeError.escapes ≡ none = rw n at h in cc)
  | inr (rest, e) ↦
      IsWithin-of_rest path base rest (append-after_prefix base path e)
        (slashed rest (let f : slash_check rest ≡ none = rw e at h in f))
]

-- What `check_workspace` accepts.
check_new_path_lem :
    (fs : FileSystem) (r : Registry) (ws : Workspace) (path : String) {out : String}
    → check_new_path fs r ws path ≡ ok out
    → path ≡ out
check_new_path_lem fs r ws path h = ground (arith, h)

-- A path that the check accepts, and that `resolveCanonicalPath` made of some path.
abbrev pub AcceptedBy : FileSystem → String → String → Type 0
AcceptedBy fs dir path =
    (validate_path_escape fs dir path ≡ none)
    × ((given : String) × (resolve_canonical_path fs given ≡ ok path))

check_escape-accepted :
    (fs : FileSystem) (r : Registry) (ws : Workspace) (path : String) (o : Option EscapeError)
    {out : String}
    → resolve_canonical_path fs ws.path ≡ ok path
    → validate_path_escape fs r.workspace_dir path ≡ o
    → check_escape fs r ws path o ≡ ok out
    → AcceptedBy fs r.workspace_dir out
check_escape-accepted fs r ws path none e v h =
    subst (AcceptedBy fs r.workspace_dir) (check_new_path_lem fs r ws path h) (v, (ws.path, e))
check_escape-accepted fs r ws path (some x) {out} e v h =
    absurd (let f : err (RegistryError.bad_path x) ≡ ok out = h in cc)

check_resolved-accepted :
    (fs : FileSystem) (r : Registry) (ws : Workspace) (res : Result PathError String) {out : String}
    → resolve_canonical_path fs ws.path ≡ res
    → check_resolved fs r ws res ≡ ok out
    → AcceptedBy fs r.workspace_dir out
check_resolved-accepted fs r ws (ok path) e h =
    check_escape-accepted fs r ws path (validate_path_escape fs r.workspace_dir path) e refl h
check_resolved-accepted fs r ws (err x) {out} e h =
    absurd (let f : err (RegistryError.unresolved x) ≡ ok out = h in cc)

pub check_workspace-accepted :
    (fs : FileSystem) (r : Registry) (ws : Workspace) {out : String}
    → check_workspace fs r ws ≡ ok out
    → AcceptedBy fs r.workspace_dir out
unfolding check_workspace
check_workspace-accepted fs r ws {out} h = elim (Bool-cases (ws.path == "")) [
  | inl z ↦ absurd (let f : err RegistryError.empty_path ≡ ok out = rw z at h in cc)
  | inr n ↦
      check_resolved-accepted fs r ws (resolve_canonical_path fs ws.path) refl (
        let f : check_resolved fs r ws (resolve_canonical_path fs ws.path) ≡ ok out = rw n at h in
        f)
]

-- `filepath.Clean` returned the path.
abbrev pub IsClean : String → Type 0
IsClean path = (from : String) × (path ≡ clean from)

module _ (fs : FileSystem) (cleans : (p q : String) → fs.eval_symlinks p ≡ ok q → IsClean q) where
  or_cleaned-IsClean :
      (cleaned : String) (res : Result PathError String) {path : String}
      → IsClean cleaned
      → fs.eval_symlinks cleaned ≡ res
      → or_cleaned cleaned res ≡ ok path
      → IsClean path
  or_cleaned-IsClean cleaned (ok q) {path} c e h =
      subst IsClean (let f : q ≡ path = cc h in f) (cleans cleaned q e)
  or_cleaned-IsClean cleaned (err PathError.not_exist) {path} c e h =
      subst IsClean (let f : cleaned ≡ path = cc h in f) c
  or_cleaned-IsClean cleaned (err PathError.no_working_dir) {path} c e h =
      absurd (let f : err PathError.no_working_dir ≡ ok path = h in cc)
  or_cleaned-IsClean cleaned (err PathError.unreadable) {path} c e h =
      absurd (let f : err PathError.unreadable ≡ ok path = h in cc)

  resolve_links-IsClean :
      (res : Result PathError String) {path : String}
      → ((cleaned : String) → res ≡ ok cleaned → IsClean cleaned)
      → resolve_links fs res ≡ ok path
      → IsClean path
  resolve_links-IsClean (ok cleaned) c h =
      or_cleaned-IsClean cleaned (fs.eval_symlinks cleaned) (c cleaned refl) refl h
  resolve_links-IsClean (err e) {path} c h = absurd (let f : err e ≡ ok path = h in cc)

  under-IsClean :
      (o : Option String) (path cleaned : String) → under o path ≡ ok cleaned → IsClean cleaned
  under-IsClean none path cleaned h =
      absurd (let f : err PathError.no_working_dir ≡ ok cleaned = h in cc)
  under-IsClean (some dir) path cleaned h = (dir ++ ("/" ++ path), cc h)

  abs-IsClean : (path cleaned : String) → abs fs path ≡ ok cleaned → IsClean cleaned
  unfolding abs
  abs-IsClean path cleaned h = elim (Bool-cases (is_abs path)) [
    | inl y ↦ (path, let f : ok (clean path) ≡ ok cleaned = rw (y, is_abs) at h in cc f)
    | inr n ↦
        under-IsClean fs.working_dir path cleaned
          (let f : under fs.working_dir path ≡ ok cleaned = rw (n, is_abs) at h in f)
  ]

  -- Where `EvalSymlinks` returns what `Clean` returns, `resolveCanonicalPath` does.
  pub resolve_canonical_path-IsClean :
      (given path : String) → resolve_canonical_path fs given ≡ ok path → IsClean path
  unfolding resolve_canonical_path
  resolve_canonical_path-IsClean given path h =
      resolve_links-IsClean
        (if not (is_abs (clean given)) then abs fs (clean given) else ok (clean given))
        (λ cleaned e. elim (Bool-cases (is_abs (clean given))) [
          | inl y ↦ (given, let f : ok (clean given) ≡ ok cleaned = rw y at e in cc f)
          | inr n ↦
              abs-IsClean (clean given) cleaned
                (let f : abs fs (clean given) ≡ ok cleaned = rw n at e in f)
        ])
        h

-- The base directory is none, or the path is within it.
abbrev pub IsConfined : FileSystem → String → String → Type 0
IsConfined fs dir path =
    ((dir == "") ≡ true) ⊎ ((base : String) × (abs fs dir ≡ ok base) × IsWithin base path)

check_base-IsConfined :
    (fs : FileSystem) (dir path : String) (res : Result PathError String)
    → abs fs dir ≡ res
    → check_base path res ≡ none
    → IsConfined fs dir path
check_base-IsConfined fs dir path (ok base) e h = inr (base, e, check_base-IsWithin path base h)
check_base-IsConfined fs dir path (err x) e h =
    absurd (let f : some EscapeError.base_unresolved ≡ none = h in cc)

pub validate_path_escape-IsConfined :
    (fs : FileSystem) (dir path : String)
    → validate_path_escape fs dir path ≡ none
    → (is_abs path ≡ true) × IsConfined fs dir path
unfolding validate_path_escape
validate_path_escape-IsConfined fs dir path h = (
  let f : is_abs path ≡ true = ground arith in f,
  elim (Bool-cases (dir == "")) [
    | inl y ↦ inl y
    | inr n ↦
        check_base-IsConfined fs dir path (abs fs dir) refl
          (let f : check_base path (abs fs dir) ≡ none = ground (arith, n, h) in f)
  ],
)
