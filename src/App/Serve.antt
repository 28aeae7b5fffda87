-- ===== src/App/Serve.antt =====
-- What the world outside may ask of the service, in any order: the calls of its methods, each with the readings
-- of the clocks and the adapter's answer, the signals of adapters, and the end of a run's signals.
use codeallremote.Prelude.{String, List, [], ◌∷◌}
use codeallremote.Prelude.Result.{Result}
use codeallremote.Domain.{Event}
use codeallremote.Storage.Database.{Tables}
use codeallremote.App.State.{App, Outside, Clock}
use codeallremote.App.Service.{CreateSessionRequest, RunHandle, Accepted, Observed, create_session}
use codeallremote.App.Runs.{start_run, submit_prompt, interrupt}
use codeallremote.App.Resolve.{resolve_approval}
use codeallremote.App.Observe.{Signal, handle_signal, end_run}
use codeallremote.App.Kept.{IsKept, AllowsMoves, Holds}
use codeallremote.App.MethodsKept.{
  create_session_method-kept, start_run-kept, submit_prompt-kept, interrupt-kept,
}
use codeallremote.App.ResolveKept.{resolve_approval-kept}
use codeallremote.App.ObserveKept.{handle_signal-kept, end_run-kept}

pub data Incoming : Type 0 where
  create_session_of : Clock → String → CreateSessionRequest → Incoming
  start_run_of : Clock → Result String RunHandle → String → String → Incoming
  submit_prompt_of : Clock → Accepted → String → String → String → Incoming
  interrupt_of : Clock → Accepted → String → String → Incoming
  resolve_approval_of : Clock → String → String → String → String → Incoming
  signal_of : Clock → Observed → Signal → Incoming
  end_of : String → Incoming

module _ (outside : Outside) where
  unfoldable pub serve : Incoming → App → App
  serve (create_session_of clock actor req) app = (create_session outside clock actor req app).1
  serve (start_run_of clock answer actor id) app = (start_run outside clock answer actor id app).1
  serve (submit_prompt_of clock answer actor id prompt) app =
      (submit_prompt outside clock answer actor id prompt app).1
  serve (interrupt_of clock answer actor id) app = (interrupt outside clock answer actor id app).1
  serve (resolve_approval_of clock actor id decision reason) app =
      (resolve_approval outside clock actor id decision reason app).1
  serve (signal_of clock o sig) app = (handle_signal outside clock o sig app).1
  serve (end_of run_id) app = (end_run run_id app).1

  unfoldable pub serve_all : List Incoming → App → App
  serve_all [] app = app
  serve_all (r ∷ rest) app = serve_all rest (serve r app)

module _ (P : Tables → List Event → Type 0) (kept : IsKept P) (moves : AllowsMoves P)
    (outside : Outside) where
  pub serve-kept : (r : Incoming) (app : App) → Holds P app → Holds P (serve outside r app)
  unfolding serve
  serve-kept (create_session_of clock actor req) =
      (create_session_method-kept P kept outside clock actor req).apply
  serve-kept (start_run_of clock answer actor id) =
      (start_run-kept P kept moves outside clock answer actor id).apply
  serve-kept (submit_prompt_of clock answer actor id prompt) =
      (submit_prompt-kept P kept outside clock answer actor id prompt).apply
  serve-kept (interrupt_of clock answer actor id) =
      (interrupt-kept P kept moves outside clock answer actor id).apply
  serve-kept (resolve_approval_of clock actor id decision reason) =
      (resolve_approval-kept P kept outside clock actor id decision reason).apply
  serve-kept (signal_of clock o sig) = (handle_signal-kept P kept moves outside clock o sig).apply
  serve-kept (end_of run_id) = (end_run-kept P run_id).apply

  pub serve_all-kept :
      (rs : List Incoming) (app : App) → Holds P app → Holds P (serve_all outside rs app)
  unfolding serve_all
  serve_all-kept [] app p = p
  serve_all-kept (r ∷ rest) app p = serve_all-kept rest (serve outside r app) (serve-kept r app p)
