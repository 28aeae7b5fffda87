-- ===== src/Plugin/Registry.antt =====
-- `Registry` of internal/plugin/registry.go. A plugin is an object that its caller keeps: `address` says
-- which one it is. `Shutdown` gives the lock up while plugins drain, so it is two steps; how a plugin
-- drains, and how long, is only logged.
use codeallremote.Prelude.{
  ℕ, String, Bool, true, false, Option, none, some, List, [], ◌∷◌, ◌||◌, if◌then◌else◌, ◌==◌,
  string_eq, nat_beq, any,
}
use codeallremote.Prelude.Int.{ℤ, pos, ltb_ℤ, leb_ℤ}
use codeallremote.Prelude.Dict.{Dict, lookup, insert, map_values}

-- `Manifest`
pub record Manifest : Type 0 where
  pub id : String
  pub name : String
  pub version : String
  pub min_protocol : ℤ
  pub max_protocol : ℤ
  pub capabilities : List String
  pub requires_secret : Bool

-- `State`
pub data State : Type 0 where
  active draining stopped rejected : State

-- `Plugin`, without `Drain`.
pub record Plugin : Type 0 where
  pub address : ℕ
  pub manifest : Manifest
  pub activated : ℕ
  pub state : State

-- `Registry`, without its lock and its logger.
pub record Registry : Type 0 where
  pub plugins : Dict Plugin
  pub supported : ℤ
  pub drain_timeout : ℕ

-- `NewRegistry`
unfoldable pub new_registry : ℤ → Registry
new_registry supported = record {
  plugins = [];
  supported = supported;
  drain_timeout = 5_000_000_000;
}

-- `SetDrainTimeout`
unfoldable pub set_drain_timeout : ℕ → Registry → Registry
set_drain_timeout d r = record r { drain_timeout = d }

-- Why a manifest or a registration is refused. A plugin that is nil is no value of the model.
pub data PluginError : Type 0 where
  id_required name_required version_required min_not_positive max_below_min : PluginError
  incompatible already_registered : PluginError

-- `Validate`, by the protocol version that the server speaks: nothing where the manifest is sound.
unfoldable pub validate : ℤ → Manifest → Option PluginError
validate supported m =
    if m.id == ""
    then some id_required
    else if m.name == ""
    then some name_required
    else if m.version == ""
    then some version_required
    else if leb_ℤ m.min_protocol (pos 0)
    then some min_not_positive
    else if ltb_ℤ m.max_protocol m.min_protocol
    then some max_below_min
    else if ltb_ℤ supported m.min_protocol || ltb_ℤ m.max_protocol supported
    then some incompatible
    else none

-- The new object that stands for a plugin that is refused.
abbrev pub rejected_plugin : ℕ → ℕ → Manifest → Plugin
rejected_plugin address now m = record {
  address = address;
  manifest = m;
  activated = now;
  state = rejected;
}

-- `Register` of a sound plugin, by what the map has under its id.
abbrev pub activate : ℕ → Plugin → Option Plugin → Registry → Registry × Option PluginError
activate now p (some old) r = (r, some already_registered)
activate now p none r = (
  record r {
    plugins = insert p.manifest.id (record p { activated = now; state = active }) r.plugins;
  },
  none,
)

abbrev pub register_checked :
    ℕ → ℕ → Plugin → Option PluginError → Registry → Registry × Option PluginError
register_checked address now p (some e) r = (
  record r { plugins = insert p.manifest.id (rejected_plugin address now p.manifest) r.plugins },
  some e,
)
register_checked address now p none r = activate now p (lookup p.manifest.id r.plugins) r

-- `Register`; `address` is that of the object made for a plugin that is refused.
unfoldable pub register : ℕ → ℕ → Plugin → Registry → Registry × Option PluginError
register address now p r = register_checked address now p (validate r.supported p.manifest) r

-- `Get`
unfoldable pub get : String → Registry → Option Plugin
get id r = lookup id r.plugins

-- `List`, in the order of the map.
unfoldable pub values : Dict Plugin → List Plugin
values [] = []
values ((id, p) ∷ m) = p ∷ values m

unfoldable pub list_plugins : Registry → List Plugin
list_plugins r = values r.plugins

abbrev pub is_active : Plugin → Bool
is_active p = elim p.state [ active ↦ true | _ ↦ false ]

-- The loop of `ActivePlugins`, and that of `Shutdown` which collects the active plugins.
unfoldable pub active_of : Dict Plugin → List Plugin
active_of [] = []
active_of ((id, p) ∷ m) = let rest = active_of m in if is_active p then p ∷ rest else rest

-- `ActivePlugins`
unfoldable pub active_plugins : Registry → List Plugin
active_plugins r = active_of r.plugins

-- `Diagnostic`
pub record Diagnostic : Type 0 where
  pub id : String
  pub name : String
  pub version : String
  pub state : State
  pub capabilities : List String
  pub min_protocol : ℤ
  pub max_protocol : ℤ
  pub activated_at : ℕ

abbrev pub diagnostic : Plugin → Diagnostic
diagnostic p = record {
  id = p.manifest.id;
  name = p.manifest.name;
  version = p.manifest.version;
  state = p.state;
  capabilities = p.manifest.capabilities;
  min_protocol = p.manifest.min_protocol;
  max_protocol = p.manifest.max_protocol;
  activated_at = p.activated;
}

-- `Diagnostics`
unfoldable pub diagnostics_of : Dict Plugin → List Diagnostic
diagnostics_of [] = []
diagnostics_of ((id, p) ∷ m) = diagnostic p ∷ diagnostics_of m

unfoldable pub diagnostics : Registry → List Diagnostic
diagnostics r = diagnostics_of r.plugins

abbrev pub drain : Plugin → Plugin
drain p = if is_active p then record p { state = draining } else p

-- The first locked step of `Shutdown`, with the addresses of the plugins to drain.
abbrev pub addresses : List Plugin → List ℕ
addresses [] = []
addresses (p ∷ ps) = p.address ∷ addresses ps

unfoldable pub shutdown_begin : Registry → Registry × List ℕ
shutdown_begin r =
    (record r { plugins = map_values drain r.plugins }, addresses (active_of r.plugins))

abbrev pub stop : List ℕ → Plugin → Plugin
stop drained p = if any (λ a. nat_beq a p.address) drained then record p { state = stopped } else p

-- The last locked step of `Shutdown`: the drained objects stop, those that are still in the map among
-- them.
unfoldable pub shutdown_end : List ℕ → Registry → Registry
shutdown_end drained r = record r { plugins = map_values (stop drained) r.plugins }

-- `Shutdown`, with nothing between its steps.
unfoldable pub shutdown : Registry → Registry
unfolding shutdown_begin shutdown_end
shutdown r = let (r', drained) = shutdown_begin r in shutdown_end drained r'
