-- ===== src/Adapter/Tests.antt =====
-- The parser at concrete inputs.
use codeallremote.Prelude.{true, false, none, some, List, [], ◌∷◌, ◌++◌, ◌≡◌, refl}
use codeallremote.Adapter.Parser.{Text, Outside, ascii, printed, parse_line, parse_stream_json_line}
use codeallremote.Adapter.Buffer.{split_lines, lines_events, parse_buffer}
use codeallremote.Adapter.Chunks.{parse_buffer_parts}
use codeallremote.Adapter.Pump.{pump, pump_chunks, whole, pump-whole}

-- No text is JSON, and no pattern matches.
abbrev outside : Outside
outside = record {
  trim_space = λ t. t;
  to_lower = λ t. t;
  decode_line = λ t. none;
  decode_message = λ t. none;
  decode_delta = λ t. none;
  decode_json_event = λ t. none;
  match_approval = λ t. none;
  match_tool = λ t. none;
  match_error = λ t. none;
  match_json = λ t. none;
}

two_lines :
    parse_buffer outside (ascii "one" ++ 10 ∷ ascii "tw") false
    ≡ (printed (ascii "one") ∷ [], ascii "tw")
unfolding parse_buffer split_lines lines_events parse_line parse_stream_json_line ascii
two_lines = refl

-- The cut is in the middle of a line.
parse_buffer_parts_example :
    parse_buffer outside (ascii "one" ++ (10 ∷ ascii "two")) true
    ≡ (printed (ascii "one") ∷ printed (ascii "two") ∷ [], [])
unfolding parse_buffer split_lines lines_events parse_line parse_stream_json_line ascii
parse_buffer_parts_example =
    parse_buffer_parts outside (ascii "on") (ascii "e" ++ (10 ∷ ascii "two")) true

stream_line :
    parse_line
      (record outside {
        decode_line =
            λ t. some (record { kind = "result"; result = ascii "ok"; message = []; event = [] });
      })
      (ascii "{}")
    ≡ some (printed (ascii "ok"))
unfolding parse_line parse_stream_json_line ascii
stream_line = refl

abbrev whole_chunks : List Text
whole_chunks = (ascii "one" ++ 10 ∷ []) ∷ (ascii "two" ++ 10 ∷ []) ∷ []

pump-whole_example : pump outside whole_chunks ≡ (parse_buffer outside (whole whole_chunks) true).0
unfolding split_lines ascii
pump-whole_example = pump-whole outside whole_chunks (refl, (refl, tt))

-- A line that is cut by the end of a chunk comes out in two pieces, the first of them last.
pump_cut_line :
    pump outside (ascii "on" ∷ (ascii "e" ++ 10 ∷ ascii "two") ∷ [])
    ≡ printed (ascii "e") ∷ printed (ascii "ontwo") ∷ []
unfolding pump pump_chunks parse_buffer split_lines lines_events parse_line parse_stream_json_line
    ascii
pump_cut_line = refl
