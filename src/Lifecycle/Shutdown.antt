-- ===== src/Lifecycle/Shutdown.antt =====
-- What `markUnresolvedForRecovery` leaves for the next start of the server, where the driver does not
-- fail.
use codeallremote.Prelude.{
  ℕ, String, Bool, true, false, Option, none, some, List, [], ◌∷◌, ◌≡◌, refl, ◌&&◌, if◌then◌else◌,
  ◌==◌, string_eq, str_iff, Bool-cases, inl, inr, ◌∙◌, ap,
}
use mathlib.Core.Option
use codeallremote.Prelude.Result.{ok}
use codeallremote.Domain.{Session}
use codeallremote.Domain.SessionState
use codeallremote.Storage.Database.{sound, Tables}
use codeallremote.Storage.Sort.{sort_by}
use codeallremote.Storage.Sessions.{
  matches, set_state, update_sessions, update_state, get_all, newest_first,
}
use codeallremote.Storage.States.{
  find, state_of, HasDistinctIds, state_of-find, state_of-update, accepts, find-sort_by,
  HasDistinctIds-sort_by,
}
use codeallremote.Lifecycle.Recovery.{
  is_nonterminal_state, mark_session_for_recovery, mark_unresolved, mark_all_unresolved,
  mark_unresolved_for_recovery,
}

-- The state that a session is left in.
abbrev pub parked_state : Session → String
parked_state s = if is_nonterminal_state s.state then SessionState.recovering else s.state

abbrev parked_or : Option Session → String → String
parked_or none q = q
parked_or (some s) q = if is_nonterminal_state s.state then SessionState.recovering else q

module _ (now : ℕ) where
  abbrev marked : String → Tables → Tables
  marked id t = record t {
    sessions = update_sessions (matches id none) (set_state now SessionState.recovering) t.sessions;
  }

  abbrev parked : Session → Tables → Tables
  parked s t = if is_nonterminal_state s.state then marked s.id t else t

  mark_unresolved_runs :
      (s : Session) (t : Tables) → mark_unresolved now s (sound t) ≡ (ok tt, sound (parked s t))
  unfolding mark_session_for_recovery update_state
  mark_unresolved_runs s t = elim (Bool-cases (is_nonterminal_state s.state)) [
    | inl e ↦ rw e refl
    | inr n ↦ rw n refl
  ]

  none_parked : (o : Option String) → o ≡ Option.map (parked_or none) o
  none_parked none = refl
  none_parked (some q) = refl

  park_step :
      (s : Session) (f : Option Session) (c : Bool) (o : Option String)
      → (c ≡ true → f ≡ none)
      → is_nonterminal_state s.state ≡ true
      → Option.map
          (parked_or f)
          (Option.map (λ q. if c && accepts none q then SessionState.recovering else q) o)
        ≡ Option.map (parked_or (if c then some s else f)) o
  park_step s f c none h e = refl
  park_step s f true (some q) h e = rw (h refl) (rw e refl)
  park_step s f false (some q) h e = refl

  keep_step :
      (s : Session) (f : Option Session) (c : Bool) (o : Option String)
      → (c ≡ true → f ≡ none)
      → is_nonterminal_state s.state ≡ false
      → Option.map (parked_or f) o ≡ Option.map (parked_or (if c then some s else f)) o
  keep_step s f c none h n = refl
  keep_step s f true (some q) h n = rw (h refl) (rw n refl)
  keep_step s f false (some q) h n = refl

  state_of-parked :
      (s : Session) (f : Option Session) (j : String) (t : Tables)
      → ((s.id == j) ≡ true → f ≡ none)
      → Option.map (parked_or f) (state_of j (parked s t).sessions)
        ≡ Option.map (parked_or (if s.id == j then some s else f)) (state_of j t.sessions)
  state_of-parked s f j t h = elim (Bool-cases (is_nonterminal_state s.state)) [
    | inl e ↦ rw e (
        ap (Option.map (parked_or f))
          (state_of-update now s.id SessionState.recovering none j t.sessions)
        ∙ park_step s f (s.id == j) (state_of j t.sessions) h e)
    | inr n ↦ rw n (keep_step s f (s.id == j) (state_of j t.sessions) h n)
  ]

  mark_all_state :
      (L : List Session) (t : Tables) (j : String)
      → HasDistinctIds L
      → (t' : Tables) × (mark_all_unresolved now L (sound t) ≡ (ok tt, sound t'))
        × (state_of j t'.sessions ≡ Option.map (parked_or (find j L)) (state_of j t.sessions))
  unfolding mark_all_unresolved find HasDistinctIds
  mark_all_state [] t j d = (t, refl, none_parked (state_of j t.sessions))
  mark_all_state (s ∷ rest) t j d =
      let (t', run, st) = mark_all_state rest (parked s t) j d.1 in
      (
        t',
        rw (mark_unresolved_runs s t) run,
        st ∙ state_of-parked s (find j rest) j t (λ e. rw (← (str_iff s.id j).0 e) d.0),
      )

  parked_self :
      (o : Option Session)
      → Option.map (parked_or o) (Option.map (λ s. s.state) o) ≡ Option.map parked_state o
  parked_self none = refl
  parked_self (some s) = refl

  -- Where the driver does not fail and the sessions have distinct ids, `markUnresolvedForRecovery` ends
  -- without an error, leaves every session whose state needs no recovery in that state, and puts every
  -- other one into the state `recovering`.
  pub mark_unresolved_for_recovery_states :
      (t : Tables) (j : String)
      → HasDistinctIds t.sessions
      → (t' : Tables) × (mark_unresolved_for_recovery now (sound t) ≡ (ok tt, sound t'))
        × (state_of j t'.sessions ≡ Option.map parked_state (find j t.sessions))
  unfolding mark_unresolved_for_recovery get_all
  mark_unresolved_for_recovery_states t j d =
      let rows = sort_by newest_first t.sessions in
      let (t', run, st) =
        mark_all_state rows t j (HasDistinctIds-sort_by newest_first t.sessions d) in
      (
        t',
        run,
        st
            ∙ ap (λ o. Option.map (parked_or o) (state_of j t.sessions))
                (find-sort_by newest_first j t.sessions d)
            ∙ ap (Option.map (parked_or (find j t.sessions))) (state_of-find j t.sessions)
            ∙ parked_self (find j t.sessions),
      )
