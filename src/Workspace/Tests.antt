-- ===== src/Workspace/Tests.antt =====
-- The theorems of the workspace package at concrete inputs.
use codeallremote.Prelude.{true, false, none, some, [], ◌∷◌, ◌≡◌, refl, inr, string_eq, any}
use codeallremote.Prelude.Dict.{lookup, insert}
use codeallremote.Prelude.Result.{ok}
use codeallremote.Prelude.Text.{after_prefix, has_prefix, trim_prefix, contains_text, has_suffix}
use codeallremote.Domain.{Workspace, ExecutionPolicy}
use codeallremote.Storage.Database.{Tables, sound, statement}
use codeallremote.Storage.Workspaces.{
  WorkspaceCodec, create_workspace, get_workspace, workspace_row,
}
use codeallremote.Workspace.Paths.{
  FileSystem, clean, elements, clean_elements, join_reversed, is_abs, abs, validate_path_escape,
  resolve_canonical_path,
}
use codeallremote.Workspace.Registry.{
  Registry, new_registry, register, unregister, get_by_path, check_workspace,
  validate_allowed_adapters,
}
use codeallremote.Workspace.Config.{load_from_config}
use codeallremote.Workspace.Confinement.{IsClean, IsConfined}
use codeallremote.Workspace.Calls.{registry_after, registry_or}
use codeallremote.Workspace.Safety.{register_call, run, run-IsConfined}
use codeallremote.Workspace.Index.{IsIndexed}
use codeallremote.Workspace.Loading.{IsIndexed-calls}
use codeallremote.Workspace.Restart.{load_from_config_known}

cleaned : clean "/a//b/./../c/" ≡ "/a/c"
unfolding clean elements clean_elements join_reversed is_abs after_prefix
cleaned = refl

cleaned_relative : clean "../../a/.." ≡ "../.."
unfolding clean elements clean_elements join_reversed is_abs after_prefix
cleaned_relative = refl

cleaned_root : clean "/.." ≡ "/"
unfolding clean elements clean_elements join_reversed is_abs after_prefix
cleaned_root = refl

cleaned_empty : clean "" ≡ "."
unfolding clean elements clean_elements join_reversed is_abs after_prefix
cleaned_empty = refl

-- A file system without links in which every path exists.
abbrev file_system : FileSystem
file_system = record {
  working_dir = some "/srv";
  eval_symlinks = λ path. ok path;
  is_missing = λ path. false;
}

abbrev policy : ExecutionPolicy
policy = record { allow_network_access = false; allow_writes = true; allowed_commands = [] }

abbrev codec : WorkspaceCodec
codec = record {
  adapters_text = λ adapters. "[]";
  read_adapters = λ text. [];
  policy_text = λ p. "{}";
  read_policy = λ text. policy;
  text_le = λ a b. true;
}

abbrev workspace : Workspace
workspace = record {
  id = "w1";
  display_name = "One";
  path = "/srv/x/../one";
  allowed_adapters = "claude-code" ∷ [];
  execution_policy = policy;
  created_at = 0;
  updated_at = 0;
}

abbrev tables : Tables
tables = record {
  sessions = [];
  runs = [];
  events = [];
  approvals = [];
  devices = [];
  access_tokens = [];
  next_event_id = 1;
  workspaces = [];
  audit_log = [];
  next_audit_id = 1;
}

abbrev registered_workspace : Workspace
registered_workspace = record workspace { path = "/srv/one"; created_at = 5; updated_at = 5 }

-- A file system without links.
abbrev clean_system : FileSystem
clean_system = record file_system { eval_symlinks = λ path. ok (clean path) }

run-IsConfined_example :
    (is_abs "/srv/one" ≡ true) × IsClean "/srv/one" × IsConfined clean_system "." "/srv/one"
unfolding run register new_registry lookup insert check_workspace validate_path_escape
    resolve_canonical_path clean elements clean_elements join_reversed is_abs abs after_prefix
    has_prefix trim_prefix contains_text has_suffix create_workspace get_workspace statement any
    validate_allowed_adapters
run-IsConfined_example =
    run-IsConfined codec clean_system (λ p q e. (p, cc e)) "." (register_call 5 workspace ∷ [])
      (sound tables) "w1" registered_workspace refl

abbrev empty_registry : Registry
empty_registry = record { workspaces = []; paths = []; workspace_dir = "/srv" }

empty-IsIndexed : IsIndexed empty_registry
unfolding lookup
empty-IsIndexed path id e = absurd (let f : none ≡ some id = e in cc)

IsIndexed-calls_example :
    IsIndexed (
      registry_after empty_registry
        (register codec file_system 5 workspace empty_registry (sound tables)).0)
    × IsIndexed (
        registry_or empty_registry
          (unregister codec file_system "w1" empty_registry (sound tables)).0)
    × IsIndexed
        (load_from_config codec file_system 5 (workspace ∷ []) empty_registry (sound tables)).0.0
    × IsIndexed (new_registry "/srv")
    × (¬ ((get_by_path codec file_system "one" empty_registry (sound tables)).0 ≡ ok none))
IsIndexed-calls_example =
    IsIndexed-calls codec file_system 5 workspace "w1" "one" "/srv" (workspace ∷ []) empty_registry
      (sound tables) empty-IsIndexed

-- The workspace of the configuration has moved since it was stored.
abbrev later_tables : Tables
later_tables = record tables { workspaces = workspace_row codec registered_workspace ∷ [] }

abbrev moved_workspace : Workspace
moved_workspace = record workspace { path = "/srv/two" }

load_from_config_known_example :
    load_from_config codec file_system 9 (moved_workspace ∷ []) empty_registry (sound later_tables)
    ≡ ((empty_registry, ([], [])), sound later_tables)
unfolding any
load_from_config_known_example =
    load_from_config_known codec file_system 9 (moved_workspace ∷ []) empty_registry later_tables
      (inr refl, tt)
