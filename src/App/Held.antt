-- ===== src/App/Held.antt =====
-- What `ResolveApproval` of internal/app/session_service.go leaves in the map of the bridge.
use codeallremote.Prelude.{String, Bool, true, false, Option, none, some, ◌≡◌, string_eq}
use codeallremote.Prelude.Dict.{lookup}
use codeallremote.Prelude.Result.{Result, ok, err}
use codeallremote.Domain.{Session, Run, Event, Approval}
use codeallremote.Storage.Database.{Does}
use codeallremote.Approval.Bridge
use codeallremote.Approval.Bridge.{BridgeError, Decision, DecisionResult, decide}
use codeallremote.Approval.DbStore.{db_store}
use codeallremote.Approval.Upkeep
use codeallremote.Audit.Redaction.{Fields}
use codeallremote.Audit.Writer.{Entry}
use codeallremote.App.State.{
  Adapter, AdapterCall, App, Outside, Clock, Method, pure, fail, bind_rest, ◌>>=◌, attempt, dropped,
  on_db, on_bridge, publish, called, new_id, emit_event, record_audit,
}
use codeallremote.App.Resolve.{
  check_decided, notify_run, notify_adapter, notify_session, announce, after_check,
}

module _ (id : String) (x : Approval) where
  abbrev pub IsHeld : App → Type 0
  IsHeld app = lookup id app.approvals.approvals ≡ some x

  -- A method leaves the approval in the map.
  pub record Holds {E A : Type 0} (m : Method E A) : Type 0 where
    pub held : (app : App) → IsHeld app → IsHeld (m app).1

  bind_rest-held :
      {E A B : Type 0} (f : A → Method E B) (q : Result E A × App)
      → ((a : A) → Holds (f a))
      → IsHeld q.1
      → IsHeld (bind_rest f q).1
  bind_rest-held f (ok a, app) k h = (k a).held app h
  bind_rest-held f (err e, app) k h = h

  bind-held :
      {E A B : Type 0} (m : Method E A) (f : A → Method E B)
      → Holds m
      → ((a : A) → Holds (f a))
      → Holds (m >>= f)
  unfolding ◌>>=◌
  bind-held m f hm hf = record { held = λ app h. bind_rest-held f (m app) hf (hm.held app h) }

  pure-held : {E A : Type 0} (a : A) → Holds (pure {E = E} a)
  unfolding pure
  pure-held a = record { held = λ app h. h }

  fail-held : {E A : Type 0} (e : E) → Holds (fail {A = A} e)
  unfolding fail
  fail-held e = record { held = λ app h. h }

  attempt-held : {E F A : Type 0} (m : Method E A) → Holds m → Holds (attempt {F = F} m)
  unfolding attempt
  attempt-held m h = record { held = h.held }

  dropped-held : {E F A : Type 0} (m : Method E A) → Holds m → Holds (dropped {F = F} m)
  unfolding dropped
  dropped-held m h = record { held = h.held }

  on_db-held : {E A : Type 0} (act : Does E A) → Holds (on_db act)
  unfolding on_db
  on_db-held act = record { held = λ app h. h }

  called-held : {E : Type 0} (c : AdapterCall) → Holds (called {E = E} c)
  unfolding called
  called-held c = record { held = λ app h. h }

  publish-held : {E : Type 0} (e : Event) → Holds (publish {E = E} e)
  unfolding publish
  publish-held e = record { held = λ app h. h }

  new_id-held : {E : Type 0} (outside : Outside) (s : String) → Holds (new_id outside {E = E} s)
  unfolding new_id
  new_id-held outside s = record { held = λ app h. h }

  record_audit-held :
      (outside : Outside) (clock : Clock) (e : Entry) → Holds (record_audit outside clock e)
  unfolding record_audit on_db
  record_audit-held outside clock e = record { held = λ app h. h }

  emit_event-held :
      (outside : Outside) (clock : Clock) (session_id event_type : String) (payload : Fields)
      → Holds (emit_event outside clock session_id event_type payload)
  unfolding emit_event
  emit_event-held outside clock session_id event_type payload =
      search (bind-held, new_id-held, on_db-held, publish-held)

  ruleset held_rules = (
    bind-held, pure-held, fail-held, attempt-held, dropped-held, on_db-held, called-held,
    record_audit-held, emit_event-held,
  )

  get_by_id-held :
      {E : Type 0} (outside : Outside)
      → Holds (on_bridge {E = E} (Upkeep.get_by_id (db_store outside.codec) id))
  unfolding on_bridge Upkeep.get_by_id
  get_by_id-held outside = record { held = λ app h. rw h h }

  notify_run-held :
      (session_id : String) (approved : Bool) (reason : String) (run : Option Run)
      → Holds (notify_run session_id id approved reason run)
  unfolding notify_run
  notify_run-held session_id approved reason none = search held_rules
  notify_run-held session_id approved reason (some run) = search held_rules

  notify_adapter-held :
      (session_id : String) (approved : Bool) (reason : String) (ad : Option Adapter)
      → Holds (notify_adapter session_id id approved reason ad)
  unfolding notify_adapter
  notify_adapter-held session_id approved reason none = search held_rules
  notify_adapter-held session_id approved reason (some ad) = search (held_rules, notify_run-held)

  notify_session-held :
      (session_id : String) (approved : Bool) (reason : String) (s : Option Session)
      → Holds (notify_session session_id id approved reason s)
  unfolding notify_session
  notify_session-held session_id approved reason none = record { held = λ app h. h }
  notify_session-held session_id approved reason (some s) = record {
    held = λ app h.
        (notify_adapter-held session_id approved reason (lookup s.adapter_id app.adapters)).held app
          h;
  }

  module _ (outside : Outside) (clock : Clock) where
    announce-held :
        (actor decision : String) (approved : Bool) (reason : String) (result : DecisionResult)
        → Holds (announce outside clock actor id decision approved reason result)
    unfolding announce
    announce-held actor decision approved reason result =
        search (held_rules, notify_session-held, get_by_id-held) fits 4000 depth 60

    after_check-held :
        (final : Bool) (actor decision : String) (approved : Bool) (reason : String)
        (result : DecisionResult)
        → Holds (after_check outside clock final actor id decision approved reason result)
    unfolding after_check
    after_check-held true actor decision approved reason result =
        search (held_rules, get_by_id-held)
    after_check-held false actor decision approved reason result =
        announce-held actor decision approved reason result

    check_decided-held : (e : Option BridgeError) → Holds (check_decided id e)
    unfolding check_decided
    check_decided-held none = search held_rules
    check_decided-held (some Bridge.not_found) = search held_rules
    check_decided-held (some Bridge.not_pending) = search held_rules
    check_decided-held (some Bridge.expired) = search held_rules
    check_decided-held (some (Bridge.persisting t)) = search held_rules
    check_decided-held (some (Bridge.updating t)) = search held_rules

    -- `ResolveApproval` after the call of `Decide`.
    pub after_decide-held :
        (actor decision : String) (approved : Bool) (reason : String) (result : DecisionResult)
        → Holds (
            check_decided id result.error >>= λ u.
            after_check outside clock result.already_final actor id decision approved reason result)
    after_decide-held actor decision approved reason result =
        search (held_rules, check_decided-held, after_check-held)
