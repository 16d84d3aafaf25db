-- ===== src/ServerProperties.antt =====
-- Property files, app/backend/models/server_properties.py. A text is the list of its code points.
pub mod Strip
pub mod Lines
pub mod Files
pub mod RoundTrip
pub mod Values
mod Examples
use silkjam.Prelude.{
  ℕ, Bool, true, false, not, ◌&&◌, ◌||◌, Option, none, some, List, [], ◌∷◌, ◌++◌, leb, ◌==◌,
  if◌then◌else◌,
}

abbrev pub Text : Type 0
Text = List ℕ

abbrev pub newline : ℕ
newline = 10

abbrev pub carriage_return : ℕ
carriage_return = 13

-- `str.isspace` of a character.
unfoldable pub is_space : ℕ → Bool
is_space c =
    (leb 9 c && leb c 13)
    || (leb 28 c && leb c 32)
    || (c == 0x85)
    || (c == 0xa0)
    || (c == 0x1680)
    || (leb 0x2000 c && leb c 0x200a)
    || (c == 0x2028)
    || (c == 0x2029)
    || (c == 0x202f)
    || (c == 0x205f)
    || (c == 0x3000)

unfoldable pub lstrip : Text → Text
lstrip [] = []
lstrip (c ∷ cs) = let rest = lstrip cs in if is_space c then rest else c ∷ cs

abbrev pub is_empty : Text → Bool
is_empty [] = true
is_empty (c ∷ cs) = false

unfoldable pub rstrip : Text → Text
rstrip [] = []
rstrip (c ∷ cs) = let rest = rstrip cs in if is_space c && is_empty rest then [] else c ∷ rest

unfoldable pub strip : Text → Text
unfolding lstrip rstrip
strip cs = rstrip (lstrip cs)

unfoldable pub same : Text → Text → Bool
same [] [] = true
same [] (d ∷ ds) = false
same (c ∷ cs) [] = false
same (c ∷ cs) (d ∷ ds) = (c == d) && same cs ds

-- `line.partition("=")`, where `=` is 61.
unfoldable pub partition : Text → Option (Text × Text)
partition [] = none
partition (c ∷ cs) =
    let rest = partition cs in
    if c == 61
    then some ([], cs)
    else elim rest [ none ↦ none | some (key, value) ↦ some (c ∷ key, value) ]

pub record ServerPropertiesLine : Type 0 where
  pub key : Option Text
  pub value : Text

-- `stripped.startswith("#")`
abbrev pub is_comment : Text → Bool
is_comment [] = false
is_comment (c ∷ cs) = c == 35

abbrev pub kept_line : Text → ServerPropertiesLine
kept_line line = record { key = none; value = line }

-- A round of the loop over the lines.
unfoldable pub parse_line : Text → ServerPropertiesLine
unfolding strip partition
parse_line line =
    let stripped = strip line in
    if is_empty stripped
    then kept_line []
    else if is_comment stripped
    then kept_line line
    else elim (partition line) [
      | none ↦ kept_line line
      | some (key, value) ↦ record { key = some (strip key); value = strip value }
    ]

-- Universal newlines: a carriage return, alone or before a newline, is read as a newline.
unfoldable pub newlines : Bool → Text → Text
newlines after_return [] = []
newlines after_return (c ∷ cs) =
    if c == newline
    then if after_return then newlines false cs else newline ∷ newlines false cs
    else if c == carriage_return
    then newline ∷ newlines true cs
    else c ∷ newlines false cs

abbrev pub extend : ℕ → List Text → List Text
extend c [] = (c ∷ []) ∷ []
extend c (l ∷ ls) = (c ∷ l) ∷ ls

-- The lines of a file, without the newlines at their ends.
unfoldable pub lines : Text → List Text
lines [] = []
lines (c ∷ cs) = let rest = lines cs in if c == newline then [] ∷ rest else extend c rest

-- Dicts from texts to texts.
abbrev pub Properties : Type 0
Properties = List (Text × Text)

unfoldable pub lookup : Text → Properties → Option Text
unfolding same
lookup key [] = none
lookup key ((k, v) ∷ d) = if same key k then some v else lookup key d

unfoldable pub store : Text → Text → Properties → Properties
unfolding same
store key value [] = (key, value) ∷ []
store key value ((k, v) ∷ d) =
    let rest = store key value d in if same key k then (key, value) ∷ d else (k, v) ∷ rest

abbrev pub store_line : ServerPropertiesLine → Properties → Properties
store_line line properties = elim line.key [
  | none ↦ properties
  | some key ↦ store key line.value properties
]

unfoldable pub parse_lines :
    List Text → Properties → List ServerPropertiesLine → Properties × List ServerPropertiesLine
unfolding parse_line store
parse_lines [] properties layout = (properties, layout)
parse_lines (l ∷ ls) properties layout =
    let line = parse_line l in parse_lines ls (store_line line properties) (layout ++ (line ∷ []))

unfoldable pub parse_properties : Text → Properties × List ServerPropertiesLine
unfolding parse_lines lines newlines
parse_properties file = parse_lines (lines (newlines false file)) [] []

-- A value to dump; `other` has the text of `str` for it.
pub data Value : Type 0 where
  missing : Value
  flag : Bool → Value
  other : Text → Value

-- The texts `true` and `false`.
abbrev pub serialized : Value → Text
serialized missing = []
serialized (flag true) = 116 ∷ 114 ∷ 117 ∷ 101 ∷ []
serialized (flag false) = 102 ∷ 97 ∷ 108 ∷ 115 ∷ 101 ∷ []
serialized (other text) = text

unfoldable pub serialized_values : List (Text × Value) → Properties
serialized_values [] = []
serialized_values ((key, value) ∷ values) = (key, serialized value) ∷ serialized_values values

abbrev pub or_else : Option Text → Text → Text
or_else none value = value
or_else (some found) value = found

-- `f"{key}={value}\n"`
abbrev pub entry : Text → Text → Text
entry key value = key ++ (61 ∷ (value ++ (newline ∷ [])))

unfoldable pub dump_layout : Properties → List ServerPropertiesLine → Text
unfolding lookup
dump_layout values [] = []
dump_layout values (line ∷ layout) =
    (elim line.key [
      | none ↦ line.value ++ (newline ∷ [])
      | some key ↦ entry key (or_else (lookup key values) line.value)
    ])
    ++ dump_layout values layout

-- The set `seen` after the loop over the layout.
unfoldable pub is_seen : Text → List ServerPropertiesLine → Bool
unfolding same
is_seen key [] = false
is_seen key (line ∷ layout) =
    (elim line.key [ none ↦ false | some k ↦ same key k ]) || is_seen key layout

unfoldable pub dump_new : Properties → List ServerPropertiesLine → Text
unfolding is_seen
dump_new [] layout = []
dump_new ((key, value) ∷ values) layout =
    let rest = dump_new values layout in
    if is_seen key layout then rest else entry key value ++ rest

-- What is in the file after `dump_properties`.
unfoldable pub dump_properties : Text → List (Text × Value) → Text
unfolding parse_properties serialized_values dump_layout dump_new
dump_properties file values =
    let layout = (parse_properties file).1 in
    let serialized = serialized_values values in
    dump_layout serialized layout ++ dump_new serialized layout
