-- ===== src/Adapter/Pump.antt =====
-- The standard output in `pump` of internal/adapter/claude/claude.go: what the chunks that a process writes are
-- parsed to, and `flush` at the end.
use codeallremote.Prelude.{
  true, false, List, [], ◌∷◌, ◌++◌, ◌≡◌, refl, sym, ◌∙◌, ap, if◌then◌else◌, All,
}
use mathlib.Core.List.{append-nil}
use codeallremote.Adapter.Parser.{Text, Outside, ParsedEvent, is_blank}
use codeallremote.Adapter.Buffer.{split_lines, lines_events, parse_buffer}
use codeallremote.Adapter.Chunks.{parse_buffer_parts}

module _ (outside : Outside) where
  -- The loop over the chunks, with `pending`.
  unfoldable pub pump_chunks : List Text → Text → List ParsedEvent × Text
  pump_chunks [] pending = ([], pending)
  pump_chunks (data_chunk ∷ chunks) pending =
      let (events, rest) = parse_buffer outside data_chunk false in
      let (later, left) = pump_chunks chunks (pending ++ rest) in (events ++ later, left)

  -- `flush`
  abbrev pub flush : Text → List ParsedEvent
  flush pending = if is_blank pending then [] else (parse_buffer outside pending true).0

  -- `pump`: the events of the standard output.
  unfoldable pub pump : List Text → List ParsedEvent
  unfolding pump_chunks
  pump chunks = let (events, pending) = pump_chunks chunks [] in events ++ flush pending

-- All the chunks, one after the other.
unfoldable pub whole : List Text → Text
whole [] = []
whole (c ∷ chunks) = c ++ whole chunks

-- A chunk that is empty or ends with a line feed.
abbrev pub IsWholeLines : Text → Type 0
IsWholeLines chunk = (split_lines chunk).1 ≡ []

parse_whole :
    (outside : Outside) (chunk : Text)
    → IsWholeLines chunk
    → (parse_buffer outside chunk false).1 ≡ []
unfolding parse_buffer
parse_whole outside chunk h = rw h refl

parse_nothing : (outside : Outside) → (parse_buffer outside [] true).0 ≡ []
unfolding parse_buffer split_lines lines_events
parse_nothing outside = refl

pump_chunks-whole :
    (outside : Outside) (chunks : List Text)
    → All IsWholeLines chunks
    → (pump_chunks outside chunks [] ≡ ((parse_buffer outside (whole chunks) true).0, []))
unfolding pump_chunks whole
pump_chunks-whole outside [] h = ap (λ es. (es, [])) (sym (parse_nothing outside))
pump_chunks-whole outside (c ∷ chunks) (h, hs) =
    let left = parse_whole outside c h in
    let later = pump_chunks-whole outside chunks hs in
    let events = (parse_buffer outside c false).0 in
    let same : (parse_buffer outside (c ++ whole chunks) true).0
        ≡ events ++ (parse_buffer outside (whole chunks) true).0 =
      ap (λ x. x.0) (parse_buffer_parts outside c (whole chunks) true)
      ∙ ap (λ r. events ++ (parse_buffer outside (r ++ whole chunks) true).0) left in
    ap (λ r. (events ++ (pump_chunks outside chunks r).0, (pump_chunks outside chunks r).1)) left
    ∙ ap (λ x. (events ++ x.0, x.1)) later
    ∙ ap (λ es. (es, [])) (sym same)

-- If every chunk is empty or ends with a line feed, what is emitted of the standard output is what the
-- whole output is parsed to.
pub pump-whole :
    (outside : Outside) (chunks : List Text)
    → All IsWholeLines chunks
    → pump outside chunks ≡ (parse_buffer outside (whole chunks) true).0
unfolding pump
pump-whole outside chunks h =
    rw (pump_chunks-whole outside chunks h)
      (append-nil (parse_buffer outside (whole chunks) true).0)
