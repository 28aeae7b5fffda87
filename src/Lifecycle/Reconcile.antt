-- ===== src/Lifecycle/Reconcile.antt =====
-- What `reconcileOnStartup` and `markUnresolvedForRecovery` make of every session, where the driver does
-- not fail.
use codeallremote.Prelude.{
  ℕ, String, Bool, true, false, Option, none, some, List, [], ◌∷◌, ◌≡◌, refl, ◌&&◌, if◌then◌else◌,
  ◌==◌, string_eq, str_iff, Bool-cases, inl, inr, ◌∙◌, ap,
}
use mathlib.Core.Option
use codeallremote.Prelude.Result.{Result, ok, err}
use codeallremote.Domain.{Session}
use codeallremote.Domain.SessionState
use codeallremote.Storage.Database.{sound, Tables}
use codeallremote.Storage.Sort.{sort_by}
use codeallremote.Storage.Sessions.{
  matches, set_state, update_sessions, update_state, get_all, newest_first,
}
use codeallremote.Storage.States.{
  find, state_of, HasDistinctIds, state_of-find, state_of-update, accepts, find-sort_by,
  HasDistinctIds-sort_by,
}
use codeallremote.Lifecycle.Recovery.{
  Reconciler, Counts, is_nonterminal_state, resolve_recovery, reconcile_session, reconcile_sessions,
  reconcile_on_startup, mark_failed, settle_session,
}

-- The state that a session which has to be reconciled ends in.
abbrev pub outcome : Result String String → String
outcome (err e) = SessionState.failed
outcome (ok state) = state

abbrev pub reconciled_state : Option Reconciler → Session → String
reconciled_state reconciler s =
    if is_nonterminal_state s.state then outcome (resolve_recovery reconciler s) else s.state

-- What the loop makes of a state, by the row that it has for the id.
abbrev after_loop : Option Reconciler → Option Session → String → String
after_loop reconciler none q = q
after_loop reconciler (some s) q =
    if is_nonterminal_state s.state then outcome (resolve_recovery reconciler s) else q

twice :
    (c : Bool) (expected : Option String) (new_state : String) (o : Option String)
    → accepts expected SessionState.recovering ≡ true
    → Option.map
        (λ q. if c && accepts expected q then new_state else q)
        (Option.map (λ q. if c && accepts none q then SessionState.recovering else q) o)
      ≡ Option.map (λ q. if c then new_state else q) o
twice c expected new_state none h = refl
twice true expected new_state (some q) h = rw h refl
twice false expected new_state (some q) h = refl

both_true :
    (c : Bool) (x : String) (o : Option String)
    → Option.map (λ q. if c then x else q) o ≡ Option.map (λ q. if c && true then x else q) o
both_true true x o = refl
both_true false x o = refl

both_false :
    (c : Bool) (x : String) (o : Option String)
    → o ≡ Option.map (λ q. if c && false then x else q) o
both_false true x none = refl
both_false true x (some q) = refl
both_false false x none = refl
both_false false x (some q) = refl

unchanged :
    (reconciler : Option Reconciler) (o : Option String)
    → o ≡ Option.map (after_loop reconciler none) o
unchanged reconciler none = refl
unchanged reconciler (some q) = refl

loop_step :
    (reconciler : Option Reconciler) (s : Session) (f : Option Session) (c : Bool)
    (o : Option String)
    → (c ≡ true → f ≡ none)
    → Option.map (after_loop reconciler f) (
        Option.map
          (λ q.
            if c && is_nonterminal_state s.state
            then outcome (resolve_recovery reconciler s)
            else q)
          o)
      ≡ Option.map (after_loop reconciler (if c then some s else f)) o
loop_step reconciler s f c none h = refl
loop_step reconciler s f true (some q) h = rw (h refl) refl
loop_step reconciler s f false (some q) h = refl

module _ (now : ℕ) where
  abbrev with_state : String → String → Option String → Tables → Tables
  with_state id new_state expected t = record t {
    sessions = update_sessions (matches id expected) (set_state now new_state) t.sessions;
  }

  -- Each call of `reconcile_session` ends well, in these tables.
  abbrev settled : Session → Result String String → Tables → Tables
  settled s (err e) t = with_state s.id SessionState.failed none t
  settled s (ok state) t = with_state s.id state (some SessionState.recovering) t

  abbrev reconciled : Option Reconciler → Session → Tables → Tables
  reconciled reconciler s t =
      if is_nonterminal_state s.state
      then settled s (resolve_recovery reconciler s)
          (with_state s.id SessionState.recovering none t)
      else t

  settle_session_runs :
      (s : Session) (r : Result String String) (counts : Counts) (t : Tables)
      → (counts' : Counts) × (settle_session now s r counts (sound t)
          ≡ (ok counts', sound (settled s r t)))
  unfolding mark_failed update_state
  settle_session_runs s (err e) counts t = (_, refl)
  settle_session_runs s (ok state) counts t = (_, refl)

  reconcile_session_runs :
      (reconciler : Option Reconciler) (s : Session) (counts : Counts) (t : Tables)
      → (counts' : Counts) × (reconcile_session now reconciler s counts (sound t)
          ≡ (ok counts', sound (reconciled reconciler s t)))
  unfolding reconcile_session update_state
  reconcile_session_runs reconciler s counts t = elim (Bool-cases (is_nonterminal_state s.state)) [
    | inl e ↦ rw e (
        settle_session_runs s (resolve_recovery reconciler s) counts
          (with_state s.id SessionState.recovering none t))
    | inr n ↦ rw n (counts, refl)
  ]

  settled_state :
      (s : Session) (r : Result String String) (j : String) (t : Tables)
      → state_of j (settled s r (with_state s.id SessionState.recovering none t)).sessions
        ≡ Option.map (λ q. if s.id == j then outcome r else q) (state_of j t.sessions)
  settled_state s (err e) j t = rw (state_of-update now s.id SessionState.failed none j) (
      rw (state_of-update now s.id SessionState.recovering none j)
        (twice (s.id == j) none SessionState.failed (state_of j t.sessions) refl))
  settled_state s (ok state) j t =
      rw (state_of-update now s.id state (some SessionState.recovering) j) (
        rw (state_of-update now s.id SessionState.recovering none j)
          (twice (s.id == j) (some SessionState.recovering) state (state_of j t.sessions) refl))

  state_of-reconciled :
      (reconciler : Option Reconciler) (s : Session) (j : String) (t : Tables)
      → state_of j (reconciled reconciler s t).sessions
        ≡ Option.map
            (λ q.
              if s.id == j && is_nonterminal_state s.state
              then outcome (resolve_recovery reconciler s)
              else q)
            (state_of j t.sessions)
  state_of-reconciled reconciler s j t = elim (Bool-cases (is_nonterminal_state s.state)) [
    | inl e ↦ rw e (
        settled_state s (resolve_recovery reconciler s) j t
        ∙ both_true (s.id == j) _ (state_of j t.sessions))
    | inr n ↦ rw n (both_false (s.id == j) _ (state_of j t.sessions))
  ]

  -- The state after the whole loop, by the row that the loop has for the id.
  loop_state :
      (reconciler : Option Reconciler) (L : List Session) (counts : Counts) (t : Tables)
      (j : String)
      → HasDistinctIds L
      → (counts' : Counts) × (t' : Tables) × (reconcile_sessions now reconciler L counts (sound t)
          ≡ (ok counts', sound t'))
        × (state_of j t'.sessions
            ≡ Option.map (after_loop reconciler (find j L)) (state_of j t.sessions))
  unfolding reconcile_sessions find HasDistinctIds
  loop_state reconciler [] counts t j d =
      (counts, t, refl, unchanged reconciler (state_of j t.sessions))
  loop_state reconciler (s ∷ rest) counts t j d =
      let (counts', run) = reconcile_session_runs reconciler s counts t in
      let (counts'', t'', run', st) =
        loop_state reconciler rest counts' (reconciled reconciler s t) j d.1 in
      (
        counts'',
        t'',
        rw run run',
        st
            ∙ ap (Option.map (after_loop reconciler (find j rest)))
                (state_of-reconciled reconciler s j t)
            ∙ loop_step reconciler s (find j rest) (s.id == j) (state_of j t.sessions)
                (λ e. rw (← (str_iff s.id j).0 e) d.0),
      )

  after_loop_self :
      (reconciler : Option Reconciler) (o : Option Session)
      → Option.map (after_loop reconciler o) (Option.map (λ s. s.state) o)
        ≡ Option.map (reconciled_state reconciler) o
  after_loop_self reconciler none = refl
  after_loop_self reconciler (some s) = refl

  -- Where the driver does not fail and the sessions have distinct ids, the reconciliation at start-up ends
  -- without an error, leaves every session whose state needs no recovery in that state, and puts every
  -- other one into the state that its adapter's answer maps to, or into `failed` if there is no adapter
  -- or it returns an error.
  pub reconcile_on_startup_states :
      (reconciler : Option Reconciler) (t : Tables) (j : String)
      → HasDistinctIds t.sessions
      → (counts : Counts) × (t' : Tables) × (reconcile_on_startup now reconciler (sound t)
          ≡ (ok counts, sound t'))
        × (state_of j t'.sessions ≡ Option.map (reconciled_state reconciler) (find j t.sessions))
  unfolding reconcile_on_startup get_all
  reconcile_on_startup_states reconciler t j d =
      let rows = sort_by newest_first t.sessions in
      let (counts, t', run, st) =
        loop_state reconciler rows (0, 0) t j (HasDistinctIds-sort_by newest_first t.sessions d) in
      (
        counts,
        t',
        run,
        st
            ∙ ap (λ o. Option.map (after_loop reconciler o) (state_of j t.sessions))
                (find-sort_by newest_first j t.sessions d)
            ∙ ap (Option.map (after_loop reconciler (find j t.sessions)))
                (state_of-find j t.sessions)
            ∙ after_loop_self reconciler (find j t.sessions),
      )
