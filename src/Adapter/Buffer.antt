-- ===== src/Adapter/Buffer.antt =====
-- `ParseBuffer` of internal/adapter/claude_parser.go.
use codeallremote.Prelude.{ℕ, Bool, Option, none, some, List, [], ◌∷◌, ◌++◌, if◌then◌else◌, nat_beq}
use codeallremote.Adapter.Parser.{Text, Outside, ParsedEvent, is_blank, parse_line}

-- `bytes.Split(buffer, []byte("\n"))`: the complete lines and the last one.
abbrev pub push_byte : ℕ → List Text × Text → List Text × Text
push_byte b ([], last) = ([], b ∷ last)
push_byte b (line ∷ lines, last) = ((b ∷ line) ∷ lines, last)

abbrev pub add_byte : ℕ → List Text × Text → List Text × Text
add_byte b (lines, last) = if nat_beq b 10 then ([] ∷ lines, last) else push_byte b (lines, last)

unfoldable pub split_lines : Text → List Text × Text
split_lines [] = ([], [])
split_lines (b ∷ t) = add_byte b (split_lines t)

abbrev pub event_list : Option ParsedEvent → List ParsedEvent
event_list none = []
event_list (some e) = e ∷ []

module _ (outside : Outside) where
  abbrev pub line_events : Text → List ParsedEvent
  line_events line =
      let trimmed = outside.trim_space line in
      if is_blank trimmed then [] else event_list (parse_line outside trimmed)

  -- The loop over the complete lines.
  unfoldable pub lines_events : List Text → List ParsedEvent
  lines_events [] = []
  lines_events (line ∷ lines) = line_events line ++ lines_events lines

  -- The last line, which is parsed only if the buffer is complete.
  abbrev pub last_events : Bool → Text → List ParsedEvent × Text
  last_events is_complete last =
      if is_blank last
      then ([], [])
      else if is_complete
      then (event_list (parse_line outside last), [])
      else ([], last)

  abbrev pub parse_split : Bool → List Text × Text → List ParsedEvent × Text
  parse_split is_complete (lines, last) =
      let (events, remaining) = last_events is_complete last in
      (lines_events lines ++ events, remaining)

  -- `ParseBuffer`: the events, and what remains for the next call.
  unfoldable pub parse_buffer : Text → Bool → List ParsedEvent × Text
  unfolding split_lines
  parse_buffer buffer is_complete = parse_split is_complete (split_lines buffer)
