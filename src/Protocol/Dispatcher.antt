-- ===== src/Protocol/Dispatcher.antt =====
-- `Dispatcher` of internal/protocol/dispatcher.go. The handlers work on the state `S` of the application.
-- The authenticator and the idempotency store are interfaces with no implementation in the package: they
-- are parameters.
use codeallremote.Prelude.{
  String, Bool, true, false, Option, none, some, List, [], ◌∷◌, ◌&&◌, not, if◌then◌else◌, ◌==◌,
  string_eq, nat_eq, contains,
}
use codeallremote.Prelude.Int.{ℤ, pos, ltb_ℤ, eqb_ℤ}
use codeallremote.Prelude.Dict.{Dict, lookup, insert}
use codeallremote.Protocol.Errors.{
  ApiError, unauthorized, unsupported_command, invalid_input, new_error,
}
use codeallremote.Protocol.Schemas.{Schema, SchemaError, describe}

-- `Command`
pub record Command : Type 0 where
  pub command_id : String
  pub kind : String
  pub session_id : String
  pub idempotency_key : String
  pub payload : String
  pub protocol_version : ℤ

-- `Result`
pub record Outcome : Type 0 where
  pub accepted : Bool
  pub message : String
  pub error : Option ApiError
  pub event_types : List String

-- `documentedCommands`
unfoldable pub documented_commands : List String
documented_commands =
    "session.start" ∷ "session.prompt" ∷ "session.interrupt" ∷ "approval.decide" ∷ []

-- `IsDocumented`
unfoldable pub is_documented : String → Bool
unfolding documented_commands contains
is_documented kind = contains kind documented_commands

-- `Handler`
abbrev pub Handler : Type 0 → Type 0
Handler S = Command → S → S × Outcome

-- `IdempotencyStore`, over its state.
pub record OutcomeStore (I : Type 0) : Type 0 where
  pub get : String → I → Option Outcome
  pub add : String → Outcome → I → I

-- `Dispatcher`; a field that is nil in Go is nothing. `auth` says whether the command is authenticated.
pub record Dispatcher (S I : Type 0) : Type 0 where
  pub handlers : Dict (Handler S)
  pub schemas : Dict Schema
  pub idempotent : Option I
  pub auth : Option (Command → Bool)

-- `NewDispatcher`
unfoldable pub new_dispatcher : {S I : Type 0} → Option (Command → Bool) → Option I → Dispatcher S I
new_dispatcher auth idempotent = record {
  handlers = [];
  schemas = [];
  idempotent = idempotent;
  auth = auth;
}

-- `Register`
unfoldable pub register :
    {S I : Type 0} → String → Schema → Handler S → Dispatcher S I → Dispatcher S I
register kind schema handler d = record d {
  handlers = insert kind handler d.handlers;
  schemas = insert kind schema d.schemas;
}

abbrev pub refusal : ApiError → Outcome
refusal e = record { accepted = false; message = ""; error = some e; event_types = [] }

-- `d.auth != nil` and an error of `Authenticate`
abbrev pub is_refused : Option (Command → Bool) → Command → Bool
is_refused none cmd = false
is_refused (some auth) cmd = not (auth cmd)

-- `SupportedProtocolVersion` is 1.
abbrev pub is_too_new : ℤ → Bool
is_too_new version = not (eqb_ℤ version (pos 0)) && ltb_ℤ (pos 1) version

abbrev pub is_none : {A : Type 0} → Option A → Bool
is_none none = true
is_none (some a) = false

-- `if r.Error == nil && !r.Accepted { r.Accepted = true }`
abbrev pub accept : Outcome → Outcome
accept r = if is_none r.error && not r.accepted then record r { accepted = true } else r

-- The handler and the schema of a command, if both are registered.
abbrev pub both : {A B : Type 0} → Option A → Option B → Option (A × B)
both (some a) (some b) = some (a, b)
both (some a) none = none
both none o = none

module _ {I : Type 0} (store : OutcomeStore I) where
  -- The stored result of the command's key.
  abbrev pub stored_in : Option I → String → Option Outcome
  stored_in none key = none
  stored_in (some i) key = if key == "" then none else store.get key i

  abbrev pub remember : String → Outcome → Option I → Option I
  remember key r none = none
  remember key r (some i) = if key == "" then some i else some (store.add key r i)

module _ {S I : Type 0} (store : OutcomeStore I) where
  -- Steps 6 and 7 of `Dispatch`.
  abbrev pub delegate : Command → Handler S → Dispatcher S I → S → (Dispatcher S I × S) × Outcome
  delegate cmd handler d s =
      let (s', r) = handler cmd s in
      (
        (record d { idempotent = remember store cmd.idempotency_key (accept r) d.idempotent }, s'),
        accept r,
      )

  -- Step 5.
  abbrev pub validate_and_delegate :
      Command → Option SchemaError → Handler S → Dispatcher S I → S → (Dispatcher S I × S) × Outcome
  validate_and_delegate cmd (some e) handler d s =
      ((d, s), refusal (new_error invalid_input (describe e)))
  validate_and_delegate cmd none handler d s = delegate cmd handler d s

  abbrev pub dispatch_configured :
      Command → Option (Handler S × Schema) → Dispatcher S I → S → (Dispatcher S I × S) × Outcome
  dispatch_configured cmd none d s =
      ((d, s), refusal (new_error unsupported_command "command not configured"))
  dispatch_configured cmd (some (handler, schema)) d s =
      validate_and_delegate cmd (schema cmd.payload) handler d s

  -- Step 4 and what follows it.
  abbrev pub dispatch_new : Command → Dispatcher S I → S → (Dispatcher S I × S) × Outcome
  dispatch_new cmd d s =
      if not (is_documented cmd.kind)
      then ((d, s), refusal (new_error unsupported_command "unknown command type"))
      else dispatch_configured cmd (both (lookup cmd.kind d.handlers) (lookup cmd.kind d.schemas)) d
          s

  -- Step 3.
  abbrev pub dispatch_stored :
      Command → Option Outcome → Dispatcher S I → S → (Dispatcher S I × S) × Outcome
  dispatch_stored cmd (some r) d s = ((d, s), r)
  dispatch_stored cmd none d s = dispatch_new cmd d s

  -- `Dispatch`. The texts of the messages leave out what they quote of the command.
  unfoldable pub dispatch : Command → Dispatcher S I → S → (Dispatcher S I × S) × Outcome
  dispatch cmd d s =
      if is_refused d.auth cmd
      then ((d, s), refusal (new_error unauthorized ""))
      else if is_too_new cmd.protocol_version
      then ((d, s), refusal (new_error unsupported_command "protocol version is not supported"))
      else dispatch_stored cmd (stored_in store d.idempotent cmd.idempotency_key) d s
