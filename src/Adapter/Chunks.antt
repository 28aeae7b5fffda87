-- ===== src/Adapter/Chunks.antt =====
-- A buffer that comes in two parts.
use codeallremote.Prelude.{
  ℕ, Bool, false, List, [], ◌∷◌, ◌++◌, ◌≡◌, refl, sym, ◌∙◌, ap, Bool-cases, inl, inr, nat_beq,
}
use mathlib.Core.List.{append_assoc, append-nil}
use codeallremote.Adapter.Parser.{Text, Outside}
use codeallremote.Adapter.Buffer.{
  push_byte, split_lines, line_events, lines_events, last_events, parse_split, parse_buffer,
}

-- The lines of a text that goes on.
abbrev continued : List Text × Text → Text → List Text × Text
continued (lines, last) b = let (more, rest) = split_lines (last ++ b) in (lines ++ more, rest)

push_byte-continued :
    (x : ℕ) (s : List Text × Text) (b : Text)
    → nat_beq x 10 ≡ false
    → continued (push_byte x s) b ≡ push_byte x (continued s b)
unfolding split_lines
push_byte-continued x ([], last) b n = rw n refl
push_byte-continued x (line ∷ lines, last) b n = refl

split_lines-append : (a b : Text) → split_lines (a ++ b) ≡ continued (split_lines a) b
unfolding split_lines
split_lines-append [] b = refl
split_lines-append (x ∷ a) b = elim (Bool-cases (nat_beq x 10)) [
  | inl y ↦ rw y (ap (λ s. ([] ∷ s.0, s.1)) (split_lines-append a b))
  | inr n ↦
      rw n (
        ap (push_byte x) (split_lines-append a b) ∙ sym (push_byte-continued x (split_lines a) b n))
]

module _ (outside : Outside) where
  lines_events-append :
      (xs ys : List Text)
      → lines_events outside (xs ++ ys) ≡ lines_events outside xs ++ lines_events outside ys
  unfolding lines_events
  lines_events-append [] ys = refl
  lines_events-append (x ∷ xs) ys =
      ap (λ es. line_events outside x ++ es) (lines_events-append xs ys)
      ∙ sym
          (append_assoc (line_events outside x) (lines_events outside xs) (lines_events outside ys))

  last_events-incomplete : (last : Text) → last_events outside false last ≡ ([], last)
  last_events-incomplete [] = refl
  last_events-incomplete (b ∷ t) = refl

  parse_split-continued :
      (s : List Text × Text) (b : Text) (c : Bool)
      → let (e1, r1) = parse_split outside false s in
        let (e2, r2) = parse_split outside c (split_lines (r1 ++ b)) in
        parse_split outside c (continued s b) ≡ (e1 ++ e2, r2)
  parse_split-continued (lines, last) b c =
      let (more, rest) = split_lines (last ++ b) in
      let (ev, remaining) = last_events outside c rest in
      let whole : (lines_events outside (lines ++ more) ++ ev)
          ≡ (lines_events outside lines ++ []) ++ (lines_events outside more ++ ev) =
        ap (λ es. es ++ ev) (lines_events-append lines more)
        ∙ append_assoc (lines_events outside lines) (lines_events outside more) ev
        ∙ ap (λ es. es ++ (lines_events outside more ++ ev))
            (sym (append-nil (lines_events outside lines))) in
      rw (last_events-incomplete last) (ap (λ es. (es, remaining)) whole)

-- A buffer that comes in two parts gives the same events, in the same order, and leaves the same
-- remainder as the whole buffer does at once: the first part is parsed as incomplete, and what remains
-- of it is put before the second. This holds wherever the buffer is cut.
pub parse_buffer_parts :
    (outside : Outside) (a b : Text) (is_complete : Bool)
    → let (events, remaining) = parse_buffer outside a false in
      let (later, rest) = parse_buffer outside (remaining ++ b) is_complete in
      parse_buffer outside (a ++ b) is_complete ≡ (events ++ later, rest)
unfolding parse_buffer
parse_buffer_parts outside a b is_complete =
    ap (parse_split outside is_complete) (split_lines-append a b)
    ∙ parse_split-continued outside (split_lines a) b is_complete
