-- ===== src/ServerProperties/RoundTrip.antt =====
-- What is in a property file after values were dumped into it.
use silkjam.Prelude.{
  ◌≡◌, refl, sym, subst, ap, ◌∙◌, true, false, Option, none, some, List, [], ◌∷◌, ◌++◌,
  if◌then◌else◌, arith, All, All-append, Bool-cases, inl, inr, map, append_assoc, Option-cases, ap₂,
}
use silkjam.ServerProperties.{
  Text, newline, newlines, lines, ServerPropertiesLine, parse_line, Properties, lookup, same,
  or_else, entry, dump_layout, is_seen, dump_new, parse_properties, dump_properties, Value,
  serialized_values,
}
use silkjam.ServerProperties.Lines.{
  OneLine, printed, IsStable, IsKey, IsValue, assigned, assigned-IsStable, parse_line-IsStable,
}
use silkjam.ServerProperties.Files.{
  joined, read-OneLine, layout_of, layout_of-joined, parse_properties_lem,
}

-- A line of the layout with the value that is dumped for its key, if there is one.
abbrev pub updated : Properties → ServerPropertiesLine → ServerPropertiesLine
updated values line = elim line.key [
  | none ↦ line
  | some key ↦ assigned key (or_else (lookup key values) line.value)
]

-- The lines for the keys that the layout has not.
unfoldable pub added : Properties → List ServerPropertiesLine → List ServerPropertiesLine
added [] layout = []
added ((key, value) ∷ values) layout =
    let rest = added values layout in if is_seen key layout then rest else assigned key value ∷ rest

abbrev pub new_layout : Properties → List ServerPropertiesLine → List ServerPropertiesLine
new_layout values layout = map (updated values) layout ++ added values layout

abbrev pub AreValid : Properties → Type 0
AreValid = All (λ (e : Text × Text). IsKey e.0 × IsValue e.1)

joined-append : (ls ms : List Text) → joined (ls ++ ms) ≡ joined ls ++ joined ms
joined-append [] ms = refl
joined-append (l ∷ ls) ms =
    ap (λ r. l ++ (newline ∷ r)) (joined-append ls ms)
    ∙ sym (append_assoc l (newline ∷ joined ls) (joined ms))

map-append :
    (f : ServerPropertiesLine → Text) (xs ys : List ServerPropertiesLine)
    → map f (xs ++ ys) ≡ map f xs ++ map f ys
map-append f [] ys = refl
map-append f (x ∷ xs) ys = ap (◌∷◌ (f x)) (map-append f xs ys)

entry-printed :
    (key value rest : Text) → entry key value ++ rest ≡ (key ++ (61 ∷ value)) ++ (newline ∷ rest)
entry-printed key value rest =
    append_assoc key (61 ∷ (value ++ (newline ∷ []))) rest
    ∙ ap (λ r. key ++ (61 ∷ r)) (append_assoc value (newline ∷ []) rest)
    ∙ sym (append_assoc key (61 ∷ value) (newline ∷ rest))

dump_line-printed :
    (values : Properties) (key : Option Text) (value rest : Text)
    → (elim key [
      | none ↦ value ++ (newline ∷ [])
      | some k ↦ entry k (or_else (lookup k values) value)
    ])
        ++ rest
      ≡ printed (updated values (record { key = key; value = value })) ++ (newline ∷ rest)
dump_line-printed values none value rest = append_assoc value (newline ∷ []) rest
dump_line-printed values (some key) value rest =
    entry-printed key (or_else (lookup key values) value) rest

dump_layout-joined :
    (values : Properties) (layout : List ServerPropertiesLine)
    → dump_layout values layout ≡ joined (map printed (map (updated values) layout))
unfolding dump_layout
dump_layout-joined values [] = refl
dump_layout-joined values (line ∷ layout) =
    dump_line-printed values line.key line.value (dump_layout values layout)
    ∙ ap (λ r. printed (updated values line) ++ (newline ∷ r)) (dump_layout-joined values layout)

dump_new-joined :
    (values : Properties) (layout : List ServerPropertiesLine)
    → dump_new values layout ≡ joined (map printed (added values layout))
unfolding dump_new added
dump_new-joined [] layout = refl
dump_new-joined ((key, value) ∷ values) layout = elim (Bool-cases (is_seen key layout)) [
  | inl seen ↦ rw (dump_new, added, seen) (dump_new-joined values layout)
  | inr new ↦
      rw (dump_new, added, new)
        (entry-printed key value (dump_new values layout)
          ∙ ap (λ r. (key ++ (61 ∷ value)) ++ (newline ∷ r)) (dump_new-joined values layout))
]

pub same_lem : (a b : Text) → same a b ≡ true → a ≡ b
unfolding same
same_lem [] [] h = refl
same_lem [] (d ∷ b) h = absurd (ground (arith, h))
same_lem (c ∷ a) [] h = absurd (ground (arith, h))
same_lem (c ∷ a) (d ∷ b) h = ap₂ ◌∷◌ (ground (arith, h)) (same_lem a b (ground (arith, h)))

lookup-valid :
    (values : Properties) (key value : Text)
    → AreValid values
    → lookup key values ≡ some value
    → IsKey key × IsValue value
unfolding lookup
lookup-valid [] key value a h = absurd (ground (arith, h))
lookup-valid ((k, v) ∷ values) key value (p, a) h = elim (Bool-cases (same key k)) [
  | inl equal ↦
      (subst IsKey (sym (same_lem key k equal)) p.0, subst IsValue (ground (arith, h, equal)) p.1)
  | inr other ↦ lookup-valid values key value a (ground (arith, h, other))
]

updated-IsStable :
    (values : Properties) (key : Option Text) (value : Text)
    → AreValid values
    → IsStable (record { key = key; value = value })
    → IsStable (updated values (record { key = key; value = value }))
updated-IsStable values none value a s = s
updated-IsStable values (some key) value a s = elim (Option-cases (lookup key values)) [
  | inl absent ↦ rw (absent) s
  | inr (v, found) ↦
      let valid = lookup-valid values key v a found in
      rw (found) (assigned-IsStable key v valid.0 valid.1)
]

map-IsStable :
    (values : Properties) (layout : List ServerPropertiesLine)
    → AreValid values
    → All IsStable layout
    → All IsStable (map (updated values) layout)
map-IsStable values [] a s = tt
map-IsStable values (line ∷ layout) a (s, ss) =
    (updated-IsStable values line.key line.value a s, map-IsStable values layout a ss)

added-IsStable :
    (values : Properties) (layout : List ServerPropertiesLine)
    → AreValid values
    → All IsStable (added values layout)
unfolding added
added-IsStable [] layout a = tt
added-IsStable ((key, value) ∷ values) layout (p, a) = elim (Bool-cases (is_seen key layout)) [
  | inl seen ↦ rw (added, seen) (added-IsStable values layout a)
  | inr new ↦ rw (added, new) (assigned-IsStable key value p.0 p.1, added-IsStable values layout a)
]

read-IsStable : (ls : List Text) → All OneLine ls → All IsStable (map parse_line ls)
read-IsStable [] a = tt
read-IsStable (l ∷ ls) (o, a) = (parse_line-IsStable l o, read-IsStable ls a)

dump_properties-joined :
    (file : Text) (values : List (Text × Value))
    → dump_properties file values
      ≡ joined (map printed (new_layout (serialized_values values) (layout_of file)))
unfolding dump_properties
dump_properties-joined file values =
    let sv = serialized_values values in
    rw (dump_properties, parse_properties_lem file)
      (ap₂ ◌++◌ (dump_layout-joined sv (layout_of file)) (dump_new-joined sv (layout_of file))
        ∙ sym (
            joined-append (map printed (map (updated sv) (layout_of file)))
              (map printed (added sv (layout_of file))))
        ∙ ap joined (
            sym
              (map-append printed (map (updated sv) (layout_of file)) (added sv (layout_of file)))))

pub layout_of-dump :
    (file : Text) (values : List (Text × Value))
    → AreValid (serialized_values values)
    → layout_of (dump_properties file values)
      ≡ new_layout (serialized_values values) (layout_of file)
layout_of-dump file values a =
    let sv = serialized_values values in
    ap layout_of (dump_properties-joined file values)
    ∙ layout_of-joined (new_layout sv (layout_of file)) (
        All-append IsStable (map (updated sv) (layout_of file)) (added sv (layout_of file))
          (map-IsStable sv (layout_of file) a
            (read-IsStable (lines (newlines false file)) (read-OneLine file)))
          (added-IsStable sv (layout_of file) a))

-- Reading a property file into which values were dumped gives the layout of the file before,
-- comments, blank and incomplete lines with it, where the lines of the dumped keys have the new
-- values and the lines for new keys follow. Keys and values are trimmed and on one line, and a key
-- has no `=` and starts no comment.
pub dump_properties-layout :
    (file : Text) (values : List (Text × Value))
    → AreValid (serialized_values values)
    → (parse_properties (dump_properties file values)).1
      ≡ new_layout (serialized_values values) ((parse_properties file).1)
dump_properties-layout file values a =
    rw (parse_properties_lem file, parse_properties_lem (dump_properties file values))
      (layout_of-dump file values a)
