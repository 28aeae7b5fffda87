-- ===== src/App/Kept.antt =====
-- An invariant of the tables and of what was published, and the rules by which the methods of `App` keep it.
use codeallremote.Prelude.{
  ℕ, ◌+◌, String, Bool, true, false, Option, some, List, [], ◌∷◌, ◌++◌, ◌≡◌, refl, any,
  if◌then◌else◌, subst, sym,
}
use codeallremote.Prelude.Int.{ℤ}
use codeallremote.Prelude.Result.{Result, ok, err}
use codeallremote.Domain.{Session, Run, Event, Approval, AuditEntry}
use codeallremote.Storage.Database.{Db, SqlError, Tables, statement}
use codeallremote.Storage.Sessions.{has_id, matches, set_state, update_sessions}
use codeallremote.Storage.Cursor.{append_without_tx}
use codeallremote.Storage.Append.{appended}
use codeallremote.Storage.Outcome.{
  tables_after, statement-kept, append_without_tx-ok, append_without_tx-err,
}
use codeallremote.Session.Machine.{can_transition}
use codeallremote.Audit.Redaction.{Fields}
use codeallremote.App.State.{
  App, AdapterCall, Outside, Clock, Method, pure, fail, called, bind_rest, ◌>>=◌, attempt, dropped,
  with_error, guard, on_db, publish, new_id, new_event, emit_event,
}

-- What is asked of an invariant: that the statements of the service keep it, except those that
-- change a session's state.
pub record IsKept (P : Tables → List Event → Type 0) : Type 0 where
  pub session_added :
      (t : Tables) (ps : List Event) (s : Session)
      → any (has_id s.id) t.sessions ≡ false
      → P t ps
      → P (record t { sessions = t.sessions ++ s ∷ [] }) ps
  pub pending_set :
      (t : Tables) (ps : List Event) (now : ℕ) (id : String) (approval : Option String)
      → P t ps
      → P
          (record t {
            sessions =
                update_sessions
                  (has_id id)
                  (λ s. record s { pending_approval = approval; updated_at = now })
                  t.sessions;
          })
          ps
  pub runs_changed :
      (t : Tables) (ps : List Event) (rs : List Run) → P t ps → P (record t { runs = rs }) ps
  pub approvals_changed :
      (t : Tables) (ps : List Event) (l : List Approval)
      → P t ps
      → P (record t { approvals = l }) ps
  pub audit_changed :
      (t : Tables) (ps : List Event) (l : List AuditEntry) (n : ℕ)
      → P t ps
      → P (record t { audit_log = l; next_audit_id = n }) ps
  pub event_appended :
      (t : Tables) (ps : List Event) (now : ℕ) (e : Event) (seq : ℤ) (payload : String)
      → e.payload ≡ some payload
      → P t ps
      → P (appended now e seq payload t) ps
        × P (appended now e seq payload t) (ps ++ record e { sequence = seq } ∷ [])

-- And of one that moves of sessions' states along the table keep too.
pub record AllowsMoves (P : Tables → List Event → Type 0) : Type 0 where
  pub state_moved :
      (t : Tables) (ps : List Event) (now : ℕ) (id from to : String)
      → can_transition from to ≡ true
      → P t ps
      → P
          (record t {
            sessions = update_sessions (matches id (some from)) (set_state now to) t.sessions;
          })
          ps

module _ (P : Tables → List Event → Type 0) where
  abbrev pub Holds : App → Type 0
  Holds app = P app.db.tables app.published

  -- A method keeps the invariant, whatever the driver does.
  pub record Keeps {E A : Type 0} (m : Method E A) : Type 0 where
    pub apply : (app : App) → Holds app → Holds (m app).1

  pub bind_rest-kept :
      {E A B : Type 0} (f : A → Method E B) (q : Result E A × App)
      → ((a : A) (app : App) → Holds app → Holds (f a app).1)
      → Holds q.1
      → Holds (bind_rest f q).1
  bind_rest-kept f (ok a, app) k h = k a app h
  bind_rest-kept f (err e, app) k h = h

  pub bind-kept :
      {E A B : Type 0} (m : Method E A) (f : A → Method E B)
      → Keeps m
      → ((a : A) → Keeps (f a))
      → Keeps (m >>= f)
  unfolding ◌>>=◌
  bind-kept m f hm hf = record {
    apply = λ app h. bind_rest-kept f (m app) (λ a. (hf a).apply) (hm.apply app h);
  }

  guarded :
      {E B : Type 0} (b : Bool) (e : E) (f : Unit {0} → Method E B) (app : App)
      → (b ≡ true → Keeps (f tt))
      → Holds app
      → Holds ((guard b e >>= f) app).1
  unfolding guard ◌>>=◌
  guarded true e f app hf h = (hf refl).apply app h
  guarded false e f app hf h = h

  -- What follows a guard may rely on it.
  pub guard-kept :
      {E B : Type 0} (b : Bool) (e : E) (f : Unit {0} → Method E B)
      → (b ≡ true → Keeps (f tt))
      → Keeps (guard b e >>= f)
  guard-kept b e f hf = record { apply = λ app h. guarded b e f app hf h }

  unless_kept : {E : Type 0} (b : Bool) (e : E) (app : App) → Holds app → Holds (guard b e app).1
  unfolding guard
  unless_kept true e app h = h
  unless_kept false e app h = h

  pub guard_only-kept : {E : Type 0} (b : Bool) (e : E) → Keeps (guard b e)
  guard_only-kept b e = record { apply = λ app h. unless_kept b e app h }

  pub pure-kept : {E A : Type 0} (a : A) → Keeps (pure {E = E} a)
  unfolding pure
  pure-kept a = record { apply = λ app h. h }

  pub fail-kept : {E A : Type 0} (e : E) → Keeps (fail {A = A} e)
  unfolding fail
  fail-kept e = record { apply = λ app h. h }

  pub attempt-kept : {E F A : Type 0} (m : Method E A) → Keeps m → Keeps (attempt {F = F} m)
  unfolding attempt
  attempt-kept m hm = record { apply = hm.apply }

  pub dropped-kept : {E F A : Type 0} (m : Method E A) → Keeps m → Keeps (dropped {F = F} m)
  unfolding dropped
  dropped-kept m hm = record { apply = hm.apply }

  pub with_error-kept :
      {E F A : Type 0} (f : E → F) (m : Method E A) → Keeps m → Keeps (with_error f m)
  unfolding with_error
  with_error-kept f m hm = record { apply = hm.apply }

  pub called-kept : {E : Type 0} (c : AdapterCall) → Keeps (called {E = E} c)
  unfolding called
  called-kept c = record { apply = λ app h. h }

  pub new_id-kept : {E : Type 0} (outside : Outside) (s : String) → Keeps (new_id outside {E = E} s)
  unfolding new_id
  new_id-kept outside s = record { apply = λ app h. h }

  -- A statement on the tables.
  pub on_db-kept :
      {A : Type 0} (f : Tables → Result SqlError (A × Tables))
      → ((t : Tables) (ps : List Event) → P t ps → P (tables_after t (f t)) ps)
      → Keeps (on_db (statement f))
  unfolding on_db
  on_db-kept f hf = record {
    apply = λ app h.
        statement-kept f (λ t. P t app.published) app.db h (hf app.db.tables app.published h);
  }

  published-kept :
      (b : Bool) (t : Tables) (ps : List Event) (e : Event)
      → P t ps
      → P t (ps ++ e ∷ [])
      → P t (if b then ps ++ e ∷ [] else ps)
  published-kept true t ps e h h' = h'
  published-kept false t ps e h h' = h

  append_rest-kept :
      (e : Event) (app : App) (q : Result SqlError ℤ × Db)
      → ((seq : ℤ)
          → q.0 ≡ ok seq
          → P q.1.tables app.published
            × P q.1.tables (app.published ++ record e { sequence = seq } ∷ []))
      → ((x : SqlError) → q.0 ≡ err x → P q.1.tables app.published)
      → Holds
          (bind_rest {E = SqlError}
            (λ seq. publish (record e { sequence = seq }))
            (q.0, record app { db = q.1 })).1
  unfolding publish
  append_rest-kept e app (ok seq, db') good bad =
      let (h, h') = good seq refl in
      published-kept app.has_publisher db'.tables app.published (record e { sequence = seq }) h h'
  append_rest-kept e app (err x, db') good bad = bad x refl

module _ (P : Tables → List Event → Type 0) (kept : IsKept P) (outside : Outside)
    (clock : Clock) where
  append-kept :
      (e : Event) (app : App)
      → Holds P app
      → Holds P
          (bind_rest {E = SqlError}
            (λ seq. publish (record e { sequence = seq }))
            (let (r, db') = append_without_tx clock.db_now e app.db in
              (r, record app { db = db' }))).1
  append-kept e app h =
      append_rest-kept P e app (append_without_tx clock.db_now e app.db)
        (λ seq done.
          let (payload, hp, tables) = append_without_tx-ok clock.db_now e app.db done in
          let (a, b) =
            kept.event_appended app.db.tables app.published clock.db_now e seq payload hp h in
          (
            subst (λ t. P t app.published) (sym tables) a,
            subst (λ t. P t (app.published ++ record e { sequence = seq } ∷ [])) (sym tables) b,
          ))
        (λ x failed.
          subst (λ t. P t app.published) (sym (append_without_tx-err clock.db_now e app.db failed))
            h)

  pub emit_event-kept :
      (session_id event_type : String) (payload : Fields)
      → Keeps P (emit_event outside clock session_id event_type payload)
  unfolding emit_event ◌>>=◌ new_id on_db
  emit_event-kept session_id event_type payload = record {
    apply = λ app h.
        let id = outside.id_of "msg" app.next_id in
        append-kept (new_event outside clock session_id event_type id payload)
          (record app { next_id = app.next_id + 1 }) h;
  }
