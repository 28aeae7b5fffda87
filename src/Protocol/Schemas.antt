-- ===== src/Protocol/Schemas.antt =====
-- internal/protocol/schemas.go: the checks of the payloads. What `json.Unmarshal` makes of a payload is a
-- parameter; `len` counts the bytes of a text.
use Prim.Native.String.{len}
use codeallremote.Prelude.{
  ℕ, String, Bool, Option, none, some, [], ◌∷◌, ◌||◌, not, if◌then◌else◌, ◌==◌, string_eq, nat_eq,
  ltb,
}
use codeallremote.Prelude.Dict.{Dict}
use codeallremote.Prelude.Result.{Result, ok, err}

abbrev pub max_prompt_length : ℕ
max_prompt_length = 100000

abbrev pub max_reason_length : ℕ
max_reason_length = 2000

-- `PromptPayload`
pub record PromptPayload : Type 0 where
  pub text : String

-- `StartPayload`
pub record StartPayload : Type 0 where
  pub workspace_id : String
  pub adapter_id : String
  pub title : String

-- `DecisionPayload`
pub record DecisionPayload : Type 0 where
  pub decision : String
  pub reason : String

-- `json.Unmarshal` into each payload type; an error is its text.
pub record Decoders : Type 0 where
  pub prompt : String → Result String PromptPayload
  pub start : String → Result String StartPayload
  pub interrupt : String → Result String (Unit {0})
  pub decision : String → Result String DecisionPayload

-- What is wrong with a payload.
pub data SchemaError : Type 0 where
  invalid_payload : String → SchemaError
  text_required text_too_long workspace_required adapter_required : SchemaError
  bad_decision reason_too_long : SchemaError

-- The text of the error.
unfoldable pub describe : SchemaError → String
describe (invalid_payload e) = e
describe text_required = "text is required"
describe text_too_long = "text exceeds 100000 characters"
describe workspace_required = "workspace_id is required"
describe adapter_required = "adapter_id is required"
describe bad_decision = "decision must be approve or deny"
describe reason_too_long = "reason exceeds 2000 characters"

abbrev pub check_prompt : Result String PromptPayload → Option SchemaError
check_prompt (err e) = some (invalid_payload e)
check_prompt (ok p) =
    if p.text == ""
    then some text_required
    else if ltb max_prompt_length (len p.text)
    then some text_too_long
    else none

abbrev pub check_start : Result String StartPayload → Option SchemaError
check_start (err e) = some (invalid_payload e)
check_start (ok p) =
    if p.workspace_id == ""
    then some workspace_required
    else if p.adapter_id == ""
    then some adapter_required
    else none

abbrev pub check_interrupt : Result String (Unit {0}) → Option SchemaError
check_interrupt (err e) = some (invalid_payload e)
check_interrupt (ok p) = none

abbrev pub check_decision : Result String DecisionPayload → Option SchemaError
check_decision (err e) = some (invalid_payload e)
check_decision (ok p) =
    if not (p.decision == "approve" || p.decision == "deny")
    then some bad_decision
    else if ltb max_reason_length (len p.reason)
    then some reason_too_long
    else none

abbrev pub Schema : Type 0
Schema = String → Option SchemaError

module _ (decode : Decoders) where
  -- `promptSchema.Validate`
  unfoldable pub prompt_schema : Schema
  prompt_schema payload = check_prompt (decode.prompt payload)

  -- `startSchema.Validate`
  unfoldable pub start_schema : Schema
  start_schema payload = check_start (decode.start payload)

  -- `interruptSchema.Validate`
  unfoldable pub interrupt_schema : Schema
  interrupt_schema payload =
      if payload == "" || payload == "null"
      then none
      else check_interrupt (decode.interrupt payload)

  -- `decideSchema.Validate`
  unfoldable pub decide_schema : Schema
  decide_schema payload = check_decision (decode.decision payload)

  -- `Schemas`
  abbrev pub schemas : Dict Schema
  schemas =
      ("session.start", start_schema)
      ∷ ("session.prompt", prompt_schema)
      ∷ ("session.interrupt", interrupt_schema)
      ∷ ("approval.decide", decide_schema)
      ∷ []

-- `ValidateIdempotencyKey`: whether the key is refused.
unfoldable pub refuses_key : String → Bool
refuses_key key = ltb (len key) 8 || ltb 200 (len key)
