-- ===== src/App/Transitions.antt =====
-- The states of the sessions, under the requests of the world outside.
use codeallremote.Prelude.{String, none, some, ◌≡◌, refl}
use codeallremote.Domain.{Session}
use codeallremote.Domain.SessionState
use codeallremote.Storage.States.{state_of}
use codeallremote.App.State.{App, Outside, Method, Clock, ServiceError, pure, ◌>>◌}
use codeallremote.App.Service.{Observed}
use codeallremote.App.Observe.{
  Signal, output_signal, approval_signal, status_signal, completion_signal, error_signal,
  other_signal, state_after, handle_signal, handle_completion,
}
use codeallremote.App.Kept.{IsKept, Holds, Keeps, pure-kept}
use codeallremote.App.MethodsKept.{kept_rules, create_session_method-kept, submit_prompt-kept}
use codeallremote.App.ResolveKept.{resolve_approval-kept}
use codeallremote.App.ObserveKept.{end_run-kept, handle_status_change-kept}
use codeallremote.App.Serve.{
  Incoming, create_session_of, start_run_of, submit_prompt_of, interrupt_of, resolve_approval_of,
  signal_of, end_of, serve,
}
use codeallremote.App.Near.{IsToward, IsStarted, HasState, HasState-IsKept, now_first}
use codeallremote.App.Moves.{
  stayed, start_run-leads, interrupt-leads, handle_approval_request-leads, handle_completion-leads,
}

-- What one signal of an adapter may do to a state, and what one request may.
abbrev pub IsSignalMove : Signal → String → String → Type 0
IsSignalMove (approval_signal p) q q' = IsToward SessionState.waiting_approval q q'
IsSignalMove (completion_signal (some p)) q q' = IsToward (state_after p.exit_code) q q'
IsSignalMove (completion_signal none) q q' = q' ≡ q
IsSignalMove (output_signal content) q q' = q' ≡ q
IsSignalMove (status_signal p) q q' = q' ≡ q
IsSignalMove (error_signal message) q q' = q' ≡ q
IsSignalMove other_signal q q' = q' ≡ q

abbrev pub IsMove : Incoming → String → String → Type 0
IsMove (start_run_of clock answer actor id) q q' = IsStarted q q'
IsMove (interrupt_of clock answer actor id) q q' = IsToward SessionState.interrupted q q'
IsMove (signal_of clock o sig) q q' = IsSignalMove sig q q'
IsMove (create_session_of clock actor req) q q' = q' ≡ q
IsMove (submit_prompt_of clock answer actor id prompt) q q' = q' ≡ q
IsMove (resolve_approval_of clock actor id decision reason) q q' = q' ≡ q
IsMove (end_of run_id) q q' = q' ≡ q

module _ (outside : Outside) (id q : String) where
  abbrev at : IsKept (HasState id (λ r. r ≡ q))
  at = HasState-IsKept id (λ r. r ≡ q)

  abbrev Handles : Clock → Observed → Signal → Type 0
  Handles clock o sig =
      (app : App)
      → Holds (HasState id (λ r. r ≡ q)) app
      → Holds (HasState id (IsSignalMove sig q)) (handle_signal outside clock o sig app).1

  unchanged :
      (clock : Clock) (s : Session) (m : Method ServiceError (Unit {0}))
      → Keeps (HasState id (λ r. r ≡ q)) m
      → Keeps (HasState id (λ r. r ≡ q)) (m >> pure s)
  unchanged clock s m h = search kept_rules

  handled : (clock : Clock) (o : Observed) (sig : Signal) → Handles clock o sig
  unfolding handle_signal handle_completion
  handled clock o (approval_signal p) = (handle_approval_request-leads outside clock id q o p).leads
  handled clock o (completion_signal (some p)) =
      (now_first _ _ (stayed outside clock id q (state_after p.exit_code)) _ _
        (handle_completion-leads outside clock id q o p) (λ u. pure-kept _ o.session)).leads
  handled clock o (completion_signal none) = (unchanged clock o.session _ (pure-kept _ tt)).apply
  handled clock o (output_signal content) =
      (unchanged clock o.session _ (search (kept_rules, at))).apply
  handled clock o (status_signal p) =
      (unchanged clock o.session _ (handle_status_change-kept _ at outside clock o p)).apply
  handled clock o (error_signal message) =
      (unchanged clock o.session _ (search (kept_rules, at))).apply
  handled clock o other_signal = (pure-kept _ o.session).apply

  served :
      (r : Incoming) (app : App)
      → Holds (HasState id (λ r. r ≡ q)) app
      → Holds (HasState id (IsMove r q)) (serve outside r app)
  unfolding serve
  served (create_session_of clock actor req) =
      (create_session_method-kept _ at outside clock actor req).apply
  served (start_run_of clock answer actor j) =
      (start_run-leads outside clock id q answer actor j).leads
  served (submit_prompt_of clock answer actor j prompt) =
      (submit_prompt-kept _ at outside clock answer actor j prompt).apply
  served (interrupt_of clock answer actor j) =
      (interrupt-leads outside clock id q answer actor j).leads
  served (resolve_approval_of clock actor j decision reason) =
      (resolve_approval-kept _ at outside clock actor j decision reason).apply
  served (signal_of clock o sig) = handled clock o sig
  served (end_of run_id) = (end_run-kept _ run_id).apply

-- One request of the world outside, in whatever state the service is, leaves a session that is there, and its
-- state changes along the table at most: `StartRun` moves a session to `starting` or from it, and may do both,
-- `Interrupt` to `interrupted`, an approval request to `waiting_approval`, the end of a run to `completed` where
-- the exit code is 0 and to `failed` otherwise, and every other request leaves the state. The adapters may answer
-- anything, and any statement may fail.
pub serve-IsMove :
    (outside : Outside) (r : Incoming) (app : App) (id : String) {q : String}
    → state_of id app.db.tables.sessions ≡ some q
    → (q' : String) × (state_of id (serve outside r app).db.tables.sessions ≡ some q')
      × IsMove r q q'
serve-IsMove outside r app id {q} h = served outside id q r app (q, h, refl)
