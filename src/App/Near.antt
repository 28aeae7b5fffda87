-- ===== src/App/Near.antt =====
-- How far one request of the world outside moves the state of a session.
use codeallremote.Prelude.{
  ℕ, String, Bool, true, false, some, List, ◌≡◌, ◌⊎◌, inl, inr, refl, ◌&&◌, ◌==◌, string_eq,
  str_iff, if◌then◌else◌, Bool-cases, [], ◌∷◌, ◌++◌, arith, subst, ap, ◌∙◌,
}
use mathlib.Core.Option
use codeallremote.Domain.{Session, Event}
use codeallremote.Domain.SessionState
use codeallremote.Storage.Database.{Tables}
use codeallremote.Storage.Sessions.{has_id, update_state, update_sessions}
use codeallremote.Storage.Outcome.{statement-kept}
use codeallremote.Storage.Cursor.{advance}
use codeallremote.Storage.States.{state_of, state_of-update}
use codeallremote.Session.Machine.{can_transition}
use codeallremote.App.State.{App, Method, bind_rest, ◌>>=◌, dropped, with_error, guard, on_db}
use codeallremote.Prelude.Result.{Result, ok, err}
use codeallremote.App.Kept.{IsKept, Holds, Keeps, bind_rest-kept}

-- The state did not change, or it changed to `to` along the table.
abbrev pub IsToward : String → String → String → Type 0
IsToward to q q' = (q' ≡ q) ⊎ ((q' ≡ to) × (can_transition q to ≡ true))

-- The state did not change, or it changed along the table to `starting` or from it, or by one transition to
-- `starting` and one from it.
abbrev pub IsStarted : String → String → Type 0
IsStarted q q' =
    (q' ≡ q)
    ⊎ (((can_transition q q' ≡ true) × ((q ≡ SessionState.starting) ⊎ (q' ≡ SessionState.starting)))
        ⊎ ((can_transition q SessionState.starting ≡ true)
            × (can_transition SessionState.starting q' ≡ true)))

pub state_of-snoc :
    (id : String) (rows : List Session) (s : Session) {q : String}
    → state_of id rows ≡ some q
    → state_of id (rows ++ s ∷ []) ≡ some q
unfolding state_of
state_of-snoc id [] s h = cc
state_of-snoc id (r ∷ rows) s {q} h = elim (Bool-cases (has_id id r)) [
  | inl y ↦ let f : some r.state ≡ some q = rw y at h in rw y f
  | inr n ↦ let f : state_of id rows ≡ some q = rw n at h in rw n (state_of-snoc id rows s f)
]

-- An update that changes neither ids nor states.
pub state_of-same :
    (id : String) (p : Session → Bool) (f : Session → Session)
    → ((s : Session) → ((f s).id ≡ s.id) × ((f s).state ≡ s.state))
    → (rows : List Session) → state_of id (update_sessions p f rows) ≡ state_of id rows
unfolding state_of update_sessions
state_of-same id p f same [] = refl
state_of-same id p f same (r ∷ rows) = ground (arith, same r, state_of-same id p f same rows)

-- The session `id` is there, with a state of which `R` holds.
module _ (id : String) (R : String → Type 0) where
  abbrev pub HasState : Tables → List Event → Type 0
  HasState t ps = (q : String) × (state_of id t.sessions ≡ some q) × R q

  pub HasState-IsKept : IsKept HasState
  HasState-IsKept = record {
    session_added = λ t ps s n h. (h.0, state_of-snoc id t.sessions s h.1, h.2);
    pending_set = λ t ps now j a h.
        (h.0, state_of-same id (has_id j) _ (λ s. (refl, refl)) t.sessions ∙ h.1, h.2);
    runs_changed = λ t ps rs h. h;
    approvals_changed = λ t ps l h. h;
    audit_changed = λ t ps l n h. h;
    event_appended = λ t ps now e seq payload hp h.
        let kept : HasState
            (record t {
              sessions = update_sessions (has_id e.session_id) (advance now seq) t.sessions;
            })
            ps =
          (
            h.0,
            state_of-same id (has_id e.session_id) (advance now seq) (λ s. (refl, refl)) t.sessions
                ∙ h.1,
            h.2,
          ) in
        (kept, kept);
  }

-- What `UpdateState` with an expected state leads to.
module _ (id : String) (R R' : String → Type 0) (from to : String)
    (same : (r : String) → R r → R' r) (move : R from → R' to) where
  hit : (b : Bool) (r : String) → R r → R' (if b && r == from then to else r)
  hit false r x = same r x
  hit true r x = elim (Bool-cases (r == from)) [
    | inl y ↦ rw y (move (subst R ((str_iff r from).0 y) x))
    | inr n ↦ rw n (same r x)
  ]

  pub update_state-leads :
      (now : ℕ) (j : String) (app : App)
      → Holds (HasState id R) app
      → Holds (HasState id R') (on_db (update_state now j to (some from)) app).1
  unfolding on_db update_state
  update_state-leads now j app h =
      statement-kept _ (λ t. HasState id R' t app.published) app.db (h.0, h.1, same h.0 h.2)
        (
          _,
          state_of-update now j to (some from) id app.db.tables.sessions ∙ ap (Option.map _) h.1,
          hit (j == id) h.0 h.2,
        )

-- A method that starts where `P` holds ends where `Q` does.
module _ (P Q : Tables → List Event → Type 0)
    (widen : (t : Tables) (ps : List Event) → P t ps → Q t ps) where
  pub record Leads {E A : Type 0} (m : Method E A) : Type 0 where
    pub leads : (app : App) → Holds P app → Holds Q (m app).1

  bind_rest-leads :
      {E A B : Type 0} (f : A → Method E B) (q : Result E A × App)
      → ((a : A) → Leads (f a))
      → Holds P q.1
      → Holds Q (bind_rest f q).1
  bind_rest-leads f (ok a, app) k h = (k a).leads app h
  bind_rest-leads f (err e, app) k h = widen app.db.tables app.published h

  -- The part that leads to `Q` comes later, or now.
  pub later :
      {E A B : Type 0} (m : Method E A) (f : A → Method E B)
      → Keeps P m
      → ((a : A) → Leads (f a))
      → Leads (m >>= f)
  unfolding ◌>>=◌
  later m f hm hf = record { leads = λ app h. bind_rest-leads f (m app) hf (hm.apply app h) }

  pub now_first :
      {E A B : Type 0} (m : Method E A) (f : A → Method E B)
      → Leads m
      → ((a : A) → Keeps Q (f a))
      → Leads (m >>= f)
  unfolding ◌>>=◌
  now_first m f hm hf = record {
    leads = λ app h. bind_rest-kept Q f (m app) (λ a. (hf a).apply) (hm.leads app h);
  }

  guarded :
      {E B : Type 0} (b : Bool) (e : E) (f : Unit {0} → Method E B) (app : App)
      → (b ≡ true → Leads (f tt))
      → Holds P app
      → Holds Q ((guard b e >>= f) app).1
  unfolding guard ◌>>=◌
  guarded true e f app hf h = (hf refl).leads app h
  guarded false e f app hf h = widen app.db.tables app.published h

  pub guard-leads :
      {E B : Type 0} (b : Bool) (e : E) (f : Unit {0} → Method E B)
      → (b ≡ true → Leads (f tt))
      → Leads (guard b e >>= f)
  guard-leads b e f hf = record { leads = λ app h. guarded b e f app hf h }

  pub kept-leads : {E A : Type 0} (m : Method E A) → Keeps P m → Leads m
  kept-leads m h = record {
    leads = λ app p. widen (m app).1.db.tables (m app).1.published (h.apply app p);
  }

  pub dropped-leads : {E F A : Type 0} (m : Method E A) → Leads m → Leads (dropped {F = F} m)
  unfolding dropped
  dropped-leads m h = record { leads = h.leads }

  pub with_error-leads :
      {E F A : Type 0} (f : E → F) (m : Method E A) → Leads m → Leads (with_error f m)
  unfolding with_error
  with_error-leads f m h = record { leads = h.leads }
