-- ===== src/Lifecycle/Drain.antt =====
-- What the work of `Shutdown` between its locked steps leaves for the next start of the server.
use codeallremote.Prelude.{
  ℕ, String, Bool, true, false, Option, none, some, List, [], ◌∷◌, ◌≡◌, refl, ◌&&◌, ◌||◌,
  if◌then◌else◌, ◌==◌, string_eq, Bool-cases, inl, inr, ◌∙◌, ap, not, arith, sym,
}
use mathlib.Core.Option
use codeallremote.Prelude.Dict.{Dict}
use codeallremote.Prelude.Result.{ok}
use codeallremote.Domain.{Session}
use codeallremote.Domain.SessionState
use codeallremote.Storage.Database.{sound, Tables, Action}
use codeallremote.Storage.Sessions.{set_state, update_sessions, update_state}
use codeallremote.Storage.States.{
  find, state_of, HasDistinctIds, state_of-find, state_of-update, accepts,
}
use codeallremote.Lifecycle.Recovery.{is_nonterminal_state, mark_session_for_recovery}
use codeallremote.Lifecycle.Manager.{
  DrainingRun, Wait, drained, timed_out, cancelled, drain_run, drain_runs, shutdown_work,
}
use codeallremote.Lifecycle.Shutdown.{parked_state, mark_unresolved_for_recovery_states}

abbrev pub is_drained : Wait → Bool
is_drained drained = true
is_drained timed_out = false
is_drained cancelled = false

-- Whether the wait for a run of the session did not end with the run.
unfoldable pub has_undrained : (String → Wait) → String → Dict DrainingRun → Bool
has_undrained wait j [] = false
has_undrained wait j ((id, run) ∷ runs) =
    (not (is_drained (wait id)) && run.session_id == j) || has_undrained wait j runs

-- The state that a session is left in.
abbrev pub left_state : Bool → String → String
left_state undrained q =
    if undrained
    then SessionState.recovering
    else if is_nonterminal_state q
    then SessionState.recovering
    else q

find-update :
    (p : Session → Bool) (now : ℕ) (new_state j : String) (rows : List Session)
    → find j rows ≡ none
    → find j (update_sessions p (set_state now new_state) rows) ≡ none
unfolding find update_sessions
find-update p now new_state j [] h = h
find-update p now new_state j (s ∷ rest) h = ground (arith, find-update p now new_state j rest)

HasDistinctIds-update :
    (p : Session → Bool) (now : ℕ) (new_state : String) (rows : List Session)
    → HasDistinctIds rows
    → HasDistinctIds (update_sessions p (set_state now new_state) rows)
unfolding HasDistinctIds update_sessions
HasDistinctIds-update p now new_state [] h = tt
HasDistinctIds-update p now new_state (s ∷ rest) h = elim (Bool-cases (p s)) [
  | inl e ↦
      rw e
        (find-update p now new_state s.id rest h.0, HasDistinctIds-update p now new_state rest h.1)
  | inr n ↦
      rw n
        (find-update p now new_state s.id rest h.0, HasDistinctIds-update p now new_state rest h.1)
]

abbrev recovering_if : Bool → String → String
recovering_if b q = if b then SessionState.recovering else q

recovering_if-twice :
    (a b : Bool) (o : Option String)
    → Option.map (recovering_if b) (Option.map (recovering_if a) o)
      ≡ Option.map (recovering_if (a || b)) o
recovering_if-twice a b none = refl
recovering_if-twice true true (some q) = refl
recovering_if-twice true false (some q) = refl
recovering_if-twice false b (some q) = refl

recovering_if-false : (o : Option String) → o ≡ Option.map (recovering_if false) o
recovering_if-false none = refl
recovering_if-false (some q) = refl

accepts-any :
    (b : Bool) (o : Option String)
    → Option.map (λ q. if b && accepts none q then SessionState.recovering else q) o
      ≡ Option.map (recovering_if b) o
accepts-any b none = refl
accepts-any true (some q) = refl
accepts-any false (some q) = refl

left_state-parked :
    (b : Bool) (o : Option String)
    → Option.map (left_state false) (Option.map (recovering_if b) o) ≡ Option.map (left_state b) o
unfolding is_nonterminal_state
left_state-parked b none = refl
left_state-parked true (some q) = refl
left_state-parked false (some q) = refl

parked_state-left :
    (o : Option Session)
    → Option.map parked_state o ≡ Option.map (left_state false) (Option.map (λ s. s.state) o)
parked_state-left none = refl
parked_state-left (some s) = refl

module _ (now : ℕ) where
  -- The work of an action, that it keeps the ids distinct, and what it makes of the state of `j`.
  abbrev Ends : Action (Unit {0}) → (String → String) → Tables → String → Type 0
  Ends act f t j =
      (t' : Tables) × (act (sound t) ≡ (ok tt, sound t'))
      × HasDistinctIds t'.sessions
      × (state_of j t'.sessions ≡ Option.map f (state_of j t.sessions))

  drain_run_states :
      (w : Wait) (run : DrainingRun) (t : Tables) (j : String)
      → HasDistinctIds t.sessions
      → Ends (drain_run now w run) (recovering_if (not (is_drained w) && run.session_id == j)) t j
  unfolding drain_run mark_session_for_recovery update_state
  drain_run_states drained run t j d = (t, refl, d, recovering_if-false (state_of j t.sessions))
  drain_run_states timed_out run t j d = (
    _,
    refl,
    HasDistinctIds-update _ now SessionState.recovering t.sessions d,
    state_of-update now run.session_id SessionState.recovering none j t.sessions
        ∙ accepts-any (run.session_id == j) (state_of j t.sessions),
  )
  drain_run_states cancelled run t j d = (
    _,
    refl,
    HasDistinctIds-update _ now SessionState.recovering t.sessions d,
    state_of-update now run.session_id SessionState.recovering none j t.sessions
        ∙ accepts-any (run.session_id == j) (state_of j t.sessions),
  )

  drain_runs_states :
      (wait : String → Wait) (runs : Dict DrainingRun) (t : Tables) (j : String)
      → HasDistinctIds t.sessions
      → Ends (drain_runs now wait runs) (recovering_if (has_undrained wait j runs)) t j
  unfolding drain_runs has_undrained
  drain_runs_states wait [] t j d = (t, refl, d, recovering_if-false (state_of j t.sessions))
  drain_runs_states wait ((id, run) ∷ runs) t j d =
      let (t1, did, d1, st) = drain_run_states (wait id) run t j d in
      let (t', rest, d', st') = drain_runs_states wait runs t1 j d1 in
      (
        t',
        rw did rest,
        d',
        st'
            ∙ ap (Option.map (recovering_if (has_undrained wait j runs))) st
            ∙ recovering_if-twice (not (is_drained (wait id)) && run.session_id == j)
                (has_undrained wait j runs) (state_of j t.sessions),
      )

  -- Where the driver does not fail and the sessions have distinct ids, the work that `Shutdown` does between
  -- its locked steps ends without an error. It puts into the state `recovering` every session for which the
  -- wait for one of the runs to drain timed out or was cancelled, whatever its state was, and every other
  -- session whose state needs recovery, and leaves the other sessions in their states.
  pub shutdown_work_states :
      (wait : String → Wait) (runs : Dict DrainingRun) (t : Tables) (j : String)
      → HasDistinctIds t.sessions
      → (t' : Tables) × (shutdown_work now wait runs (sound t) ≡ (ok tt, sound t'))
        × (state_of j t'.sessions
            ≡ Option.map (left_state (has_undrained wait j runs)) (state_of j t.sessions))
  unfolding shutdown_work
  shutdown_work_states wait runs t j d =
      let (t1, drains, d1, st) = drain_runs_states wait runs t j d in
      let (t', marks, st') = mark_unresolved_for_recovery_states now t1 j d1 in
      (
        t',
        rw drains (rw marks refl),
        st'
            ∙ parked_state-left (find j t1.sessions)
            ∙ ap (Option.map (left_state false)) (sym (state_of-find j t1.sessions))
            ∙ ap (Option.map (left_state false)) st
            ∙ left_state-parked (has_undrained wait j runs) (state_of j t.sessions),
      )
