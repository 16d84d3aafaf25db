-- ===== src/ServerProperties/Examples.antt =====
-- A file with a comment and a property, into which two values are dumped.
use silkjam.Prelude.{◌≡◌, refl, true, List, [], ◌∷◌}
use silkjam.ServerProperties.{
  Text, Value, flag, other, is_space, lstrip, rstrip, strip, same, partition, parse_line, newlines,
  lines, lookup, store, parse_lines, parse_properties, serialized_values, dump_layout, is_seen,
  dump_new, dump_properties,
}
use silkjam.ServerProperties.RoundTrip.{new_layout, AreValid, dump_properties-layout}
use silkjam.ServerProperties.Values.{NoTwice, first_of, lookup-dump_properties}

-- `#a`, a blank line and `k = v`, with two kinds of line ends.
abbrev file : Text
file = 35 ∷ 97 ∷ 13 ∷ 10 ∷ 10 ∷ 107 ∷ 32 ∷ 61 ∷ 32 ∷ 118 ∷ []

-- `k` becomes `true`, and `m` is `w`.
abbrev values : List (Text × Value)
values = (107 ∷ [], flag true) ∷ (109 ∷ [], other (119 ∷ [])) ∷ []

values-AreValid : AreValid (serialized_values values)
unfolding serialized_values strip lstrip rstrip is_space
values-AreValid = (
  (
    record { one_line = (refl, tt); trimmed = refl; no_equals = (refl, tt); no_comment = refl },
    record { one_line = (refl, (refl, (refl, (refl, tt)))); trimmed = refl },
  ),
  (
    (
      record { one_line = (refl, tt); trimmed = refl; no_equals = (refl, tt); no_comment = refl },
      record { one_line = (refl, tt); trimmed = refl },
    ),
    tt,
  ),
)

values-NoTwice : NoTwice (serialized_values values)
unfolding serialized_values lookup same
values-NoTwice = (refl, (refl, tt))

-- `#a`, a blank line, `k=true` and `m=w`.
dumped :
    dump_properties file values
    ≡ 35 ∷ 97 ∷ 10 ∷ 10 ∷ 107 ∷ 61 ∷ 116 ∷ 114 ∷ 117 ∷ 101 ∷ 10 ∷ 109 ∷ 61 ∷ 119 ∷ 10 ∷ []
unfolding serialized_values dump_properties parse_properties parse_lines parse_line lines newlines
    partition strip lstrip rstrip is_space store same lookup dump_layout dump_new is_seen
dumped = refl

lookup-dump_properties_example :
    lookup (107 ∷ []) ((parse_properties (dump_properties file values)).0)
    ≡ first_of
        (lookup (107 ∷ []) (serialized_values values))
        (lookup (107 ∷ []) ((parse_properties file).0))
lookup-dump_properties_example =
    lookup-dump_properties (107 ∷ []) file values values-AreValid values-NoTwice

dump_properties-layout_example :
    (parse_properties (dump_properties file values)).1
    ≡ new_layout (serialized_values values) ((parse_properties file).1)
dump_properties-layout_example = dump_properties-layout file values values-AreValid
