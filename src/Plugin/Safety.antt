-- ===== src/Plugin/Safety.antt =====
-- What the registry guarantees of active plugins.
use codeallremote.Prelude.{
  ℕ, String, Bool, true, false, Option, none, some, List, [], ◌∷◌, ◌≡◌, refl, ◌&&◌, ◌||◌, not,
  is_some, arith, Option-cases, inl, inr, ◌==◌, string_eq, str_refl,
}
use codeallremote.Prelude.Int.{ℤ}
use codeallremote.Prelude.Dict.{
  lookup, all_entries, all_entries-insert, all_entries-map_values, lookup-all_entries,
}
use codeallremote.Plugin.Registry.{
  Plugin, PluginError, Registry, active, validate, register, register_checked, activate,
  rejected_plugin, is_active, drain, stop, shutdown_begin, shutdown_end, set_drain_timeout,
}

-- An active plugin's manifest is sound for the server's version, and it stands under its own id.
abbrev pub is_sound : ℤ → String → Plugin → Bool
is_sound supported id p =
    p.manifest.id == id && (not (is_active p) || not (is_some (validate supported p.manifest)))

abbrev pub IsValid : Registry → Type 0
IsValid r = all_entries (is_sound r.supported) r.plugins ≡ true

drain_sound :
    (supported : ℤ) (id : String) (p : Plugin)
    → is_sound supported id p ≡ true
    → is_sound supported id (drain p) ≡ true
drain_sound supported id p h = ground arith

stop_sound :
    (drained : List ℕ) (supported : ℤ) (id : String) (p : Plugin)
    → is_sound supported id p ≡ true
    → is_sound supported id (stop drained p) ≡ true
stop_sound drained supported id p h = ground arith

activate-IsValid :
    (now : ℕ) (p : Plugin) (o : Option Plugin) (r : Registry)
    → validate r.supported p.manifest ≡ none
    → IsValid r
    → IsValid (activate now p o r).0
activate-IsValid now p (some old) r h v = v
activate-IsValid now p none r h v =
    all_entries-insert (is_sound r.supported) p.manifest.id
      (record p { activated = now; state = active }) r.plugins
      (rw (str_refl p.manifest.id) (rw h refl)) v

register_checked-IsValid :
    (address now : ℕ) (p : Plugin) (o : Option PluginError) (r : Registry)
    → validate r.supported p.manifest ≡ o
    → IsValid r
    → IsValid (register_checked address now p o r).0
register_checked-IsValid address now p none r h v =
    activate-IsValid now p (lookup p.manifest.id r.plugins) r h v
register_checked-IsValid address now p (some e) r h v =
    all_entries-insert (is_sound r.supported) p.manifest.id (rejected_plugin address now p.manifest)
      r.plugins (rw (str_refl p.manifest.id) refl) v

-- A locked step of the registry; the last step of a shutdown may come at any time after its first.
pub data Call : Type 0 where
  register_call : ℕ → ℕ → Plugin → Call
  timeout_call : ℕ → Call
  begin_call : Call
  end_call : List ℕ → Call

unfoldable pub step : Call → Registry → Registry
step (register_call address now p) r = (register address now p r).0
step (timeout_call d) r = set_drain_timeout d r
step begin_call r = (shutdown_begin r).0
step (end_call drained) r = shutdown_end drained r

unfoldable pub run : List Call → Registry → Registry
run [] r = r
run (c ∷ cs) r = run cs (step c r)

step-IsValid : (c : Call) (r : Registry) → IsValid r → IsValid (step c r)
unfolding step register set_drain_timeout shutdown_begin shutdown_end
step-IsValid (register_call address now p) r v =
    register_checked-IsValid address now p (validate r.supported p.manifest) r refl v
step-IsValid (timeout_call d) r v = v
step-IsValid begin_call r v =
    all_entries-map_values (is_sound r.supported) drain r.plugins (drain_sound r.supported) v
step-IsValid (end_call drained) r v =
    all_entries-map_values (is_sound r.supported) (stop drained) r.plugins
      (stop_sound drained r.supported) v

-- After any sequence of registrations and steps of shutdowns on a registry whose active plugins have
-- sound manifests under their own ids, every plugin that `Get` finds active has a manifest that is sound
-- for the version that the server speaks, and the id that was asked for.
pub run-active :
    (cs : List Call) (r : Registry) (id : String) (p : Plugin)
    → IsValid r
    → lookup id (run cs r).plugins ≡ some p
    → is_active p ≡ true
    → (validate (run cs r).supported p.manifest ≡ none) × ((p.manifest.id == id) ≡ true)
unfolding run
run-active [] r id p v found on =
    let sound = lookup-all_entries (is_sound r.supported) id {v = p} r.plugins v found in
    (
      elim (Option-cases (validate r.supported p.manifest)) [
        | inl e ↦ e
        | inr (e, h) ↦ absurd (let f : true ≡ false = ground arith in cc)
      ],
      ground arith,
    )
run-active (c ∷ cs) r id p v found on = run-active cs (step c r) id p (step-IsValid c r v) found on
