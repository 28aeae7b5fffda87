-- ===== src/Adapter/Parser.antt =====
-- `OutputParser` of internal/adapter/claude_parser.go, line by line. A Go text is its bytes. What
-- `encoding/json`, `regexp` and the functions of `strings` on Unicode make of a text is a parameter.
use Prim.Native.Char.{code}
use codeallremote.Prelude.{
  ℕ, String, Bool, true, false, Option, none, some, List, [], ◌∷◌, ◌++◌, ◌&&◌, ◌||◌, if◌then◌else◌,
  ◌==◌, string_eq, nat_beq, is_some,
}

abbrev pub Text : Type 0
Text = List ℕ

-- The bytes of an ASCII text.
unfoldable pub ascii : String → Text
ascii String.[] = []
ascii (String.◌∷◌ c s) = code c ∷ ascii s

abbrev pub is_blank : Text → Bool
is_blank [] = true
is_blank (b ∷ t) = false

-- `strings.Contains` on bytes.
unfoldable pub begins : Text → Text → Bool
begins [] t = true
begins (a ∷ p) [] = false
begins (a ∷ p) (b ∷ t) = let rest = begins p t in nat_beq a b && rest

unfoldable pub has_part : Text → Text → Bool
has_part part [] = begins part []
has_part part (b ∷ t) = begins part (b ∷ t) || has_part part t

-- `AdapterSignalType`, as far as the parser makes signals.
pub data SignalType : Type 0 where
  output approval_request diagnostic error_signal completion : SignalType

-- The payloads that the parser makes. `any_json` is the payload of a JSON event, as its text.
pub data Payload : Type 0 where
  output_payload : Text → Payload
  approval_payload error_payload any_json : Text → Payload
  diagnostic_payload : String → Text → Payload

-- `ParsedEvent`
pub record ParsedEvent : Type 0 where
  pub signal : SignalType
  pub payload : Payload

-- The fields that are read from a line of the stream, from a block of a message, and from a delta.
pub record StreamLine : Type 0 where
  pub kind : String
  pub result : Text
  pub message : Text
  pub event : Text

pub record Block : Type 0 where
  pub kind : String
  pub text : Text
  pub name : Text

pub record Delta : Type 0 where
  pub kind : String
  pub text : Text

pub record JsonEvent : Type 0 where
  pub kind : String
  pub payload : Text

-- The functions of the standard library that the parser calls: each decoder gives nothing for an error,
-- each pattern the text of its group if it matches.
pub record Outside : Type 0 where
  pub trim_space : Text → Text
  pub to_lower : Text → Text
  pub decode_line : Text → Option StreamLine
  pub decode_message : Text → Option (List Block)
  pub decode_delta : Text → Option Delta
  pub decode_json_event : Text → Option JsonEvent
  pub match_approval : Text → Option Text
  pub match_tool : Text → Option Text
  pub match_error : Text → Option Text
  pub match_json : Text → Option Text

abbrev pub printed : Text → ParsedEvent
printed content = record { signal = output; payload = output_payload content }

-- The texts of the blocks, one after the other.
unfoldable pub joined_texts : List Block → Text
joined_texts [] = []
joined_texts (b ∷ bs) =
    let rest = joined_texts bs in if b.kind == "text" then b.text ++ rest else rest

abbrev pub tool_event : Text → ParsedEvent
tool_event name = record {
  signal = diagnostic;
  payload = diagnostic_payload "info" (ascii "tool_use: " ++ name);
}

unfoldable pub first_tool : List Block → Option ParsedEvent
unfolding ascii
first_tool [] = none
first_tool (b ∷ bs) =
    let rest = first_tool bs in if b.kind == "tool_use" then some (tool_event b.name) else rest

abbrev pub unless_blank : Text → Option ParsedEvent
unless_blank t = if is_blank t then none else some (printed t)

abbrev pub assistant_event : Option (List Block) → Option ParsedEvent
assistant_event none = none
assistant_event (some blocks) =
    if is_blank (joined_texts blocks)
    then first_tool blocks
    else some (printed (joined_texts blocks))

abbrev pub delta_event : Option Delta → Option ParsedEvent
delta_event none = none
delta_event (some d) = if d.kind == "text_delta" then unless_blank d.text else none

module _ (outside : Outside) where
  -- The `switch` on the type of a line: nothing where it is not known.
  abbrev pub known_line : StreamLine → Option (Option ParsedEvent)
  known_line line =
      if line.kind == "system" || line.kind == "user"
      then some none
      else if line.kind == "result"
      then some (unless_blank line.result)
      else if line.kind == "assistant"
      then some (assistant_event (outside.decode_message line.message))
      else if line.kind == "stream_event"
      then some (delta_event (outside.decode_delta line.event))
      else none

  abbrev pub decoded_line : Option StreamLine → Option (Option ParsedEvent)
  decoded_line none = none
  decoded_line (some line) = known_line line

  abbrev pub braced_line : Text → Option (Option ParsedEvent)
  braced_line [] = none
  braced_line (b ∷ t) = if nat_beq b b'{' then decoded_line (outside.decode_line (b ∷ t)) else none

  -- `parseStreamJSONLine`: nothing where the line is not one of the stream.
  unfoldable pub parse_stream_json_line : Text → Option (Option ParsedEvent)
  parse_stream_json_line line = braced_line (outside.trim_space line)

  abbrev pub json_signal : String → SignalType
  json_signal kind =
      if kind == "approval"
      then approval_request
      else if kind == "error"
      then error_signal
      else if kind == "completion"
      then completion
      else output

  -- The handlers of the patterns of `registerDefaultPatterns`.
  abbrev pub approval_event : Option Text → Option ParsedEvent
  approval_event none = none
  approval_event (some t) =
      some (record { signal = approval_request; payload = approval_payload t })

  abbrev pub executing_event : Option Text → Option ParsedEvent
  executing_event none = none
  executing_event (some t) = some (printed (ascii "Executing: " ++ t))

  abbrev pub error_event : Option Text → Option ParsedEvent
  error_event none = none
  error_event (some t) = some (record { signal = error_signal; payload = error_payload t })

  abbrev pub decoded_event : Option JsonEvent → Option ParsedEvent
  decoded_event none = none
  decoded_event (some e) =
      some (record { signal = json_signal e.kind; payload = any_json e.payload })

  abbrev pub json_event : Option Text → Option ParsedEvent
  json_event none = none
  json_event (some t) = decoded_event (outside.decode_json_event t)

  abbrev pub or_else : Option ParsedEvent → ParsedEvent → ParsedEvent
  or_else (some e) other = e
  or_else none other = other

  -- The loop over the patterns; a line that none of them takes is printed.
  abbrev pub match_patterns : Text → ParsedEvent
  match_patterns line = or_else (approval_event (outside.match_approval line)) (
      or_else (executing_event (outside.match_tool line)) (
        or_else (error_event (outside.match_error line))
          (or_else (json_event (outside.match_json line)) (printed line))))

  abbrev pub stream_or_pattern : Text → Option (Option ParsedEvent) → Option ParsedEvent
  stream_or_pattern line (some e) = e
  stream_or_pattern line none = some (match_patterns line)

  -- `ParseLine`
  unfoldable pub parse_line : Text → Option ParsedEvent
  unfolding parse_stream_json_line ascii
  parse_line raw =
      let line = outside.trim_space raw in
      if is_blank line then none else stream_or_pattern line (parse_stream_json_line line)

  -- `IsSignalLine`
  unfoldable pub is_signal_line : Text → Bool
  is_signal_line raw =
      let line = outside.trim_space raw in
      is_some (outside.match_approval line)
      || is_some (outside.match_tool line)
      || is_some (outside.match_error line)
      || is_some (outside.match_json line)
