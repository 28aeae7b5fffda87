-- ===== src/Plugin/Tests.antt =====
-- The theorems of the plugin package at concrete inputs.
use codeallremote.Prelude.{true, false, none, [], ◌∷◌, ◌≡◌, refl, ◌==◌, string_eq}
use codeallremote.Prelude.Int.{pos}
use codeallremote.Prelude.Dict.{lookup, insert, all_entries}
use codeallremote.Plugin.Registry.{
  Manifest, Plugin, Registry, active, stopped, new_registry, validate, register,
}
use codeallremote.Plugin.Safety.{register_call, run, step, run-active}

abbrev manifest : Manifest
manifest = record {
  id = "p1";
  name = "Notes";
  version = "1.0";
  min_protocol = pos 1;
  max_protocol = pos 2;
  capabilities = [];
  requires_secret = false;
}

abbrev plugin : Plugin
plugin = record { address = 1; manifest = manifest; activated = 0; state = stopped }

abbrev activated_plugin : Plugin
activated_plugin = record plugin { activated = 7; state = active }

abbrev empty_registry : Registry
empty_registry = new_registry (pos 1)

run-active_example :
    (validate (run (register_call 9 7 plugin ∷ []) empty_registry).supported manifest ≡ none)
    × ((manifest.id == "p1") ≡ true)
unfolding run step register validate new_registry lookup insert all_entries
run-active_example =
    run-active (register_call 9 7 plugin ∷ []) empty_registry "p1" activated_plugin refl refl refl
