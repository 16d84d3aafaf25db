-- ===== src/ServerProperties/Files.antt =====
-- The lines of a file that was written line by line.
use silkjam.Prelude.{
  ℕ, ◌≡◌, refl, sym, ap, ◌∙◌, Bool, true, false, ◌||◌, List, [], ◌∷◌, ◌++◌, ◌==◌, arith, All,
  Bool-cases, inl, inr, map, append_assoc, append-nil, ap₂,
}
use silkjam.ServerProperties.{
  Text, newline, carriage_return, newlines, lines, extend, ServerPropertiesLine, parse_line,
  Properties, store_line, parse_lines, parse_properties,
}
use silkjam.ServerProperties.Lines.{OneLine, printed, IsStable}

abbrev pub joined : List Text → Text
joined [] = []
joined (l ∷ ls) = l ++ (newline ∷ joined ls)

newlines_line :
    (line rest : Text)
    → OneLine line
    → newlines false (line ++ (newline ∷ rest)) ≡ line ++ (newline ∷ newlines false rest)
unfolding newlines
newlines_line [] rest o = refl
newlines_line (c ∷ line) rest (h, o) = ground (arith, h, newlines_line line rest o)

lines_line :
    (line rest : Text) → OneLine line → lines (line ++ (newline ∷ rest)) ≡ line ∷ lines rest
unfolding lines
lines_line [] rest o = refl
lines_line (c ∷ line) rest (h, o) = ground (arith, h, lines_line line rest o)

pub lines-joined : (ls : List Text) → All OneLine ls → lines (newlines false (joined ls)) ≡ ls
unfolding lines newlines
lines-joined [] a = refl
lines-joined (l ∷ ls) (o, a) =
    ap lines (newlines_line l (joined ls) o)
    ∙ lines_line l (newlines false (joined ls)) o
    ∙ ap (◌∷◌ l) (lines-joined ls a)

abbrev NoReturn : Text → Type 0
NoReturn = All (λ (c : ℕ). (c == carriage_return) ≡ false)

newlines-NoReturn : (after : Bool) (cs : Text) → NoReturn (newlines after cs)
unfolding newlines
newlines-NoReturn after [] = tt
newlines-NoReturn after (c ∷ cs) = elim (Bool-cases (c == newline)) [
  | inl ends ↦ elim (Bool-cases after) [
    | inl returned ↦ rw (newlines, ends, returned) (newlines-NoReturn false cs)
    | inr other ↦ rw (newlines, ends, other) (refl, newlines-NoReturn false cs)
  ]
  | inr goes_on ↦ elim (Bool-cases (c == carriage_return)) [
    | inl returned ↦ rw (newlines, goes_on, returned) (refl, newlines-NoReturn true cs)
    | inr other ↦ rw (newlines, goes_on, other) (other, newlines-NoReturn false cs)
  ]
]

extend-OneLine :
    (c : ℕ) (ls : List Text)
    → ((c == newline) || (c == carriage_return)) ≡ false
    → All OneLine ls
    → All OneLine (extend c ls)
extend-OneLine c [] h a = ((h, tt), tt)
extend-OneLine c (l ∷ ls) h (o, a) = ((h, o), a)

lines-OneLine : (cs : Text) → NoReturn cs → All OneLine (lines cs)
unfolding lines
lines-OneLine [] n = tt
lines-OneLine (c ∷ cs) (h, n) = elim (Bool-cases (c == newline)) [
  | inl ends ↦ rw (lines, ends) (tt, lines-OneLine cs n)
  | inr other ↦
      rw (lines, other) (extend-OneLine c (lines cs) (rw (other, h) refl) (lines-OneLine cs n))
]

-- What is read has no end of a line within a line.
pub read-OneLine : (file : Text) → All OneLine (lines (newlines false file))
read-OneLine file = lines-OneLine (newlines false file) (newlines-NoReturn false file)

-- The properties that the lines of a layout set, one after the other.
unfoldable pub stored : List ServerPropertiesLine → Properties → Properties
stored [] properties = properties
stored (line ∷ layout) properties = stored layout (store_line line properties)

parse_lines_lem :
    (ls : List Text) (properties : Properties) (layout : List ServerPropertiesLine)
    → parse_lines ls properties layout
      ≡ (stored (map parse_line ls) properties, layout ++ map parse_line ls)
unfolding parse_lines stored
parse_lines_lem [] properties layout = ap (λ l. (properties, l)) (sym (append-nil layout))
parse_lines_lem (l ∷ ls) properties layout =
    parse_lines_lem ls (store_line (parse_line l) properties) (layout ++ (parse_line l ∷ []))
    ∙ ap (λ r. (stored (map parse_line ls) (store_line (parse_line l) properties), r))
        (append_assoc layout (parse_line l ∷ []) (map parse_line ls))

abbrev pub layout_of : Text → List ServerPropertiesLine
layout_of file = map parse_line (lines (newlines false file))

pub parse_properties_lem :
    (file : Text) → parse_properties file ≡ (stored (layout_of file) [], layout_of file)
unfolding parse_properties
parse_properties_lem file = parse_lines_lem (lines (newlines false file)) [] []

parsed_again :
    (layout : List ServerPropertiesLine)
    → All IsStable layout
    → map parse_line (map printed layout) ≡ layout
parsed_again [] a = refl
parsed_again (line ∷ layout) (s, a) = ap₂ ◌∷◌ s.read_back (parsed_again layout a)

printed-OneLine :
    (layout : List ServerPropertiesLine) → All IsStable layout → All OneLine (map printed layout)
printed-OneLine [] a = tt
printed-OneLine (line ∷ layout) (s, a) = (s.one_line, printed-OneLine layout a)

-- A printed layout is read back as it is.
pub layout_of-joined :
    (layout : List ServerPropertiesLine)
    → All IsStable layout
    → layout_of (joined (map printed layout)) ≡ layout
layout_of-joined layout a =
    ap (map parse_line) (lines-joined (map printed layout) (printed-OneLine layout a))
    ∙ parsed_again layout a
