-- ===== src/Workspace/Paths.antt =====
-- The paths of internal/workspace/registry.go: what `Registry` uses of Go's path/filepath, for Unix, and its
-- check of a path. The file system is a parameter.
use Prim.Native.Char.{Char, code}
use Prim.Native.String.{◌++◌}
use codeallremote.Prelude.{
  String, Bool, Option, none, some, List, [], ◌∷◌, ◌&&◌, ◌||◌, not, if◌then◌else◌, ◌==◌, string_eq,
  nat_beq,
}
use codeallremote.Prelude.Result.{Result, ok, err}
use codeallremote.Prelude.Text.{has_prefix, trim_prefix, contains_text, has_suffix}

-- What `os` says: the working directory, if it can be read; the target of a path after its symbolic
-- links, or whether it does not exist; and whether `Stat` says that a path does not exist.
pub data PathError : Type 0 where
  no_working_dir not_exist unreadable : PathError

pub record FileSystem : Type 0 where
  pub working_dir : Option String
  pub eval_symlinks : String → Result PathError String
  pub is_missing : String → Bool

-- The elements of a path, between its separators.
abbrev pub push_char : Char → List String → List String
push_char c [] = String.◌∷◌ c String.[] ∷ []
push_char c (w ∷ ws) = String.◌∷◌ c w ∷ ws

unfoldable pub elements : String → List String
elements String.[] = "" ∷ []
elements (String.◌∷◌ c s) =
    let rest = elements s in if nat_beq (code c) b'/' then "" ∷ rest else push_char c rest

-- The elements kept so far, the last one first, and the next element.
abbrev pub go_up : Bool → List String → List String
go_up rooted [] = if rooted then [] else ".." ∷ []
go_up rooted (top ∷ out) = if top == ".." then ".." ∷ top ∷ out else out

unfoldable pub clean_elements : Bool → List String → List String → List String
clean_elements rooted out [] = out
clean_elements rooted out (w ∷ ws) =
    clean_elements rooted
      (if w == "" || w == "." then out else if w == ".." then go_up rooted out else w ∷ out) ws

unfoldable pub join_reversed : String → List String → String
join_reversed tail [] = tail
join_reversed tail (w ∷ out) = join_reversed (if tail == "" then w else w ++ ("/" ++ tail)) out

-- `filepath.IsAbs`
unfoldable pub is_abs : String → Bool
unfolding has_prefix
is_abs path = has_prefix path "/"

abbrev pub or_dot : String → String
or_dot path = if path == "" then "." else path

-- `filepath.Clean`
unfoldable pub clean : String → String
unfolding is_abs
clean path =
    let rooted = is_abs path in
    let cleaned = join_reversed "" (clean_elements rooted [] (elements path)) in
    if rooted then "/" ++ cleaned else or_dot cleaned

-- `filepath.Abs`
abbrev pub under : Option String → String → Result PathError String
under none path = err no_working_dir
under (some dir) path = ok (clean (dir ++ ("/" ++ path)))

unfoldable pub abs : FileSystem → String → Result PathError String
unfolding is_abs
abs fs path = if is_abs path then ok (clean path) else under fs.working_dir path

-- `resolveCanonicalPath`
abbrev pub or_cleaned : String → Result PathError String → Result PathError String
or_cleaned cleaned (ok canonical) = ok canonical
or_cleaned cleaned (err PathError.not_exist) = ok cleaned
or_cleaned cleaned (err e) = err e

abbrev pub resolve_links : FileSystem → Result PathError String → Result PathError String
resolve_links fs (ok cleaned) = or_cleaned cleaned (fs.eval_symlinks cleaned)
resolve_links fs (err e) = err e

unfoldable pub resolve_canonical_path : FileSystem → String → Result PathError String
resolve_canonical_path fs path =
    let cleaned = clean path in
    resolve_links fs (if not (is_abs cleaned) then abs fs cleaned else ok cleaned)

-- Why `validatePathEscape` refuses a path.
pub data EscapeError : Type 0 where
  not_absolute traversal base_unresolved escapes : EscapeError

-- A path against the resolved base directory.
abbrev pub check_base : String → Result PathError String → Option EscapeError
check_base path (err e) = some base_unresolved
check_base path (ok base) =
    if not (has_prefix path base)
    then some escapes
    else let remaining = trim_prefix path base in
      if not (remaining == "") && not (has_prefix remaining "/") then some escapes else none

-- `validatePathEscape`
unfoldable pub validate_path_escape : FileSystem → String → String → Option EscapeError
validate_path_escape fs workspace_dir path =
    if not (is_abs path)
    then some not_absolute
    else let cleaned = clean path in
      if contains_text cleaned "../" || has_suffix cleaned ".."
      then some traversal
      else if workspace_dir == ""
      then none
      else check_base path (abs fs workspace_dir)
