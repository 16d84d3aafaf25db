-- ===== src/ServerProperties/Values.antt =====
-- The values that a property file gives its keys, before and after a dump.
use silkjam.Prelude.{
  ◌≡◌, refl, sym, subst, ap, ◌∙◌, Bool, true, false, ◌||◌, Option, none, some, List, [], ◌∷◌, ◌++◌,
  if◌then◌else◌, arith, Bool-cases, inl, inr, map, Option-cases, ap₂,
}
use silkjam.ServerProperties.{
  Text, ServerPropertiesLine, Properties, lookup, store, store_line, same, or_else, is_seen,
  parse_properties, dump_properties, Value, serialized_values,
}
use silkjam.ServerProperties.Files.{layout_of, parse_properties_lem, stored}
use silkjam.ServerProperties.RoundTrip.{
  updated, added, new_layout, AreValid, same_lem, layout_of-dump,
}

same_refl : (a : Text) → same a a ≡ true
unfolding same
same_refl [] = refl
same_refl (c ∷ a) = ground (arith, same_refl a)

-- The first of two values that is there.
abbrev pub first_of : Option Text → Option Text → Option Text
first_of none o = o
first_of (some value) o = some value

first_of_assoc : (o p q : Option Text) → first_of o (first_of p q) ≡ first_of (first_of o p) q
first_of_assoc none p q = refl
first_of_assoc (some v) p q = refl

abbrev when_same : Text → Text → Text → Option Text
when_same key k value = if same key k then some value else none

apart : (key k k' : Text) → same key k' ≡ true → same k k' ≡ false → same key k ≡ false
apart key k k' found other = elim (Bool-cases (same key k)) [
  | inl equal ↦
      absurd (ground (arith, other, subst (λ x. same x k' ≡ true) (same_lem key k equal) found))
  | inr e ↦ e
]

lookup-store :
    (key k value : Text) (d : Properties)
    → lookup key (store k value d) ≡ first_of (when_same key k value) (lookup key d)
unfolding lookup store
lookup-store key k value [] = elim (Bool-cases (same key k)) [
  | inl equal ↦ rw (lookup, store, equal) refl
  | inr other ↦ rw (lookup, store, other) refl
]
lookup-store key k value ((k', v') ∷ d) = elim (Bool-cases (same k k')) [
  | inl equal ↦ elim (Bool-cases (same key k)) [
    | inl found ↦ rw (lookup, store, equal, found) refl
    | inr absent ↦
        let absent' : same key k' ≡ false =
          subst (λ x. same key x ≡ false) (same_lem k k' equal) absent in
        rw (lookup, store, equal, absent, absent') refl
  ]
  | inr other ↦ elim (Bool-cases (same key k')) [
    | inl found ↦ rw (lookup, store, other, found, apart key k k' found other) refl
    | inr absent ↦ rw (lookup, store, other, absent) (lookup-store key k value d)
  ]
]

abbrev own_value : Text → ServerPropertiesLine → Option Text
own_value key line = elim line.key [ none ↦ none | some k ↦ when_same key k line.value ]

-- The last value that a layout gives a key.
unfoldable pub last_value : Text → List ServerPropertiesLine → Option Text
last_value key [] = none
last_value key (line ∷ layout) = first_of (last_value key layout) (own_value key line)

lookup-store_line :
    (key : Text) (k : Option Text) (value : Text) (d : Properties)
    → lookup key (store_line (record { key = k; value = value }) d)
      ≡ first_of (own_value key (record { key = k; value = value })) (lookup key d)
lookup-store_line key none value d = refl
lookup-store_line key (some k) value d = lookup-store key k value d

lookup-stored :
    (key : Text) (layout : List ServerPropertiesLine) (d : Properties)
    → lookup key (stored layout d) ≡ first_of (last_value key layout) (lookup key d)
unfolding stored last_value
lookup-stored key [] d = refl
lookup-stored key (line ∷ layout) d =
    lookup-stored key layout (store_line line d)
    ∙ ap (first_of (last_value key layout)) (lookup-store_line key line.key line.value d)
    ∙ first_of_assoc (last_value key layout) (own_value key line) (lookup key d)

-- What becomes of a value that the layout gives.
abbrev replaced : Option Text → Option Text → Option Text
replaced new none = none
replaced new (some value) = some (or_else new value)

replaced-first_of :
    (new o p : Option Text)
    → replaced new (first_of o p) ≡ first_of (replaced new o) (replaced new p)
replaced-first_of new none p = refl
replaced-first_of new (some v) p = refl

own_value-updated :
    (values : Properties) (key : Text) (k : Option Text) (value : Text)
    → own_value key (updated values (record { key = k; value = value }))
      ≡ replaced (lookup key values) (own_value key (record { key = k; value = value }))
own_value-updated values key none value = refl
own_value-updated values key (some k) value = elim (Bool-cases (same key k)) [
  | inl equal ↦
      rw (equal) (ap (λ x. some (or_else (lookup x values) value)) (sym (same_lem key k equal)))
  | inr other ↦ rw (other) refl
]

last_value-updated :
    (values : Properties) (key : Text) (layout : List ServerPropertiesLine)
    → last_value key (map (updated values) layout)
      ≡ replaced (lookup key values) (last_value key layout)
unfolding last_value
last_value-updated values key [] = refl
last_value-updated values key (line ∷ layout) =
    ap₂ first_of (last_value-updated values key layout)
      (own_value-updated values key line.key line.value)
    ∙ sym (replaced-first_of (lookup key values) (last_value key layout) (own_value key line))

last_value-append :
    (key : Text) (xs ys : List ServerPropertiesLine)
    → last_value key (xs ++ ys) ≡ first_of (last_value key ys) (last_value key xs)
unfolding last_value
last_value-append key [] ys = elim (Option-cases (last_value key ys)) [
  | inl e ↦ rw (e) refl
  | inr (v, e) ↦ rw (e) refl
]
last_value-append key (line ∷ xs) ys =
    ap (λ o. first_of o (own_value key line)) (last_value-append key xs ys)
    ∙ sym (first_of_assoc (last_value key ys) (last_value key xs) (own_value key line))

-- Whether a value is there.
abbrev has_value : Option Text → Bool
has_value none = false
has_value (some v) = true

has_value-first_of : (o p : Option Text) → has_value (first_of o p) ≡ (has_value p || has_value o)
has_value-first_of none p = ground (arith)
has_value-first_of (some v) p = ground (arith)

has_value-own_value :
    (key : Text) (k : Option Text) (value : Text)
    → has_value (own_value key (record { key = k; value = value }))
      ≡ elim k [ none ↦ false | some k' ↦ same key k' ]
has_value-own_value key none value = refl
has_value-own_value key (some k) value = elim (Bool-cases (same key k)) [
  | inl equal ↦ rw (equal) refl
  | inr other ↦ rw (other) refl
]

has_value-last_value :
    (key : Text) (layout : List ServerPropertiesLine)
    → has_value (last_value key layout) ≡ is_seen key layout
unfolding last_value is_seen
has_value-last_value key [] = refl
has_value-last_value key (line ∷ layout) =
    has_value-first_of (last_value key layout) (own_value key line)
    ∙ ap₂ ◌||◌ (has_value-own_value key line.key line.value) (has_value-last_value key layout)

-- No key stands twice.
abbrev pub NoTwice : Properties → Type 0
NoTwice [] = Unit
NoTwice ((key, value) ∷ values) = (lookup key values ≡ none) × NoTwice values

abbrev unless : Bool → Option Text → Option Text
unless b o = if b then none else o

first_of-none : (o : Option Text) → first_of o none ≡ o
first_of-none none = refl
first_of-none (some v) = refl

last_value-added_own :
    (key v : Text) (values : Properties) (layout : List ServerPropertiesLine)
    → last_value key (added values layout) ≡ unless (is_seen key layout) (lookup key values)
    → lookup key values ≡ none
    → last_value key (added ((key, v) ∷ values) layout)
      ≡ unless (is_seen key layout) (lookup key ((key, v) ∷ values))
unfolding last_value added lookup
last_value-added_own key v values layout ih e = elim (Bool-cases (is_seen key layout)) [
  | inl seen ↦ rw (added, seen) (ih ∙ rw (seen) refl)
  | inr new ↦ rw (added, lookup, new, same_refl key) (rw (last_value, ih, new, e) refl)
]

last_value-added :
    (key : Text) (values : Properties) (layout : List ServerPropertiesLine)
    → NoTwice values
    → last_value key (added values layout) ≡ unless (is_seen key layout) (lookup key values)
unfolding last_value added lookup
last_value-added key [] layout n = ground (arith)
last_value-added key ((k, v) ∷ values) layout (absent, n) = elim (Bool-cases (same key k)) [
  | inl equal ↦
      let e = same_lem key k equal in
      let e' : lookup key values ≡ none = subst (λ x. lookup x values ≡ none) (sym e) absent in
      subst
        (λ x.
          last_value key (added ((x, v) ∷ values) layout)
          ≡ unless (is_seen key layout) (lookup key ((x, v) ∷ values)))
        e (last_value-added_own key v values layout (last_value-added key values layout n) e')
  | inr other ↦ elim (Bool-cases (is_seen k layout)) [
    | inl seen ↦ rw (added, lookup, seen, other) (last_value-added key values layout n)
    | inr new ↦
        rw (added, lookup, last_value, new, other, last_value-added key values layout n)
          (first_of-none (unless (is_seen key layout) (lookup key values)))
  ]
]

value_after :
    (new old : Option Text)
    → first_of (unless (has_value old) new) (replaced new old) ≡ first_of new old
value_after none none = refl
value_after none (some v) = refl
value_after (some w) none = refl
value_after (some w) (some v) = refl

last_value-new_layout :
    (key : Text) (values : Properties) (layout : List ServerPropertiesLine)
    → NoTwice values
    → last_value key (new_layout values layout)
      ≡ first_of (lookup key values) (last_value key layout)
last_value-new_layout key values layout n =
    last_value-append key (map (updated values) layout) (added values layout)
    ∙ ap₂ first_of
        (last_value-added key values layout n
          ∙ ap (λ b. unless b (lookup key values)) (sym (has_value-last_value key layout)))
        (last_value-updated values key layout)
    ∙ value_after (lookup key values) (last_value key layout)

lookup-parse_properties :
    (key file : Text) → lookup key ((parse_properties file).0) ≡ last_value key (layout_of file)
unfolding lookup
lookup-parse_properties key file =
    rw (parse_properties_lem file)
      (lookup-stored key (layout_of file) [] ∙ first_of-none (last_value key (layout_of file)))

-- After values were dumped into a property file, each key has the dumped value if there is one, and
-- otherwise the value that it had in the file. The values are under different keys; keys and values
-- are trimmed and on one line, and a key has no `=` and starts no comment.
pub lookup-dump_properties :
    (key file : Text) (values : List (Text × Value))
    → AreValid (serialized_values values)
    → NoTwice (serialized_values values)
    → lookup key ((parse_properties (dump_properties file values)).0)
      ≡ first_of (lookup key (serialized_values values)) (lookup key ((parse_properties file).0))
lookup-dump_properties key file values a n =
    let sv = serialized_values values in
    lookup-parse_properties key (dump_properties file values)
    ∙ ap (last_value key) (layout_of-dump file values a)
    ∙ last_value-new_layout key sv (layout_of file) n
    ∙ ap (first_of (lookup key sv)) (sym (lookup-parse_properties key file))
