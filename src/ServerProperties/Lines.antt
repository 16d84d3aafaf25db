-- ===== src/ServerProperties/Lines.antt =====
-- A line that was read is printed and read back as it is.
use silkjam.Prelude.{
  ℕ, ◌≡◌, refl, sym, subst, false, ◌||◌, none, some, [], ◌∷◌, ◌++◌, ◌==◌, All, All-append,
  All-parts, Bool-cases, inl, inr, Option-cases,
}
use silkjam.ServerProperties.{
  Text, newline, lstrip, carriage_return, is_space, strip, rstrip, is_comment, partition,
  ServerPropertiesLine, kept_line, parse_line,
}
use silkjam.ServerProperties.Strip.{
  IsTrimmed, IsTrimmed-head, lstrip-cases, strip-Starts, strip-Starts_append, strip-nothing,
  strip-head, strip-IsTrimmed, All-strip, NoEquals, partition_lem, Splits, partition-Splits,
}

-- No character ends a line.
abbrev pub OneLine : Text → Type 0
OneLine = All (λ (c : ℕ). ((c == newline) || (c == carriage_return)) ≡ false)

abbrev pub printed : ServerPropertiesLine → Text
printed line = elim line.key [ none ↦ line.value | some key ↦ key ++ (61 ∷ line.value) ]

pub record IsStable (line : ServerPropertiesLine) : Type 0 where
  pub one_line : OneLine (printed line)
  pub read_back : parse_line (printed line) ≡ line

-- What a key may be.
pub record IsKey (key : Text) : Type 0 where
  pub one_line : OneLine key
  pub trimmed : IsTrimmed key
  pub no_equals : NoEquals key
  pub no_comment : is_comment key ≡ false

pub record IsValue (value : Text) : Type 0 where
  pub one_line : OneLine value
  pub trimmed : IsTrimmed value

abbrev pub assigned : Text → Text → ServerPropertiesLine
assigned key value = record { key = some key; value = value }

equals-first : (value : Text) → strip (61 ∷ value) ≡ 61 ∷ rstrip value
unfolding is_space
equals-first value = strip-head 61 value refl

parse_line-equals :
    (c : ℕ) (cs key value : Text)
    → strip (key ++ (61 ∷ value)) ≡ c ∷ cs
    → (c == 35) ≡ false
    → IsKey key
    → IsValue value
    → parse_line (key ++ (61 ∷ value)) ≡ assigned key value
unfolding parse_line
parse_line-equals c cs key value e h k v =
    rw (parse_line, e, h, partition_lem key value k.no_equals, k.trimmed, v.trimmed) refl

parse_line-assigned :
    (key value : Text)
    → IsKey key
    → IsValue value
    → parse_line (key ++ (61 ∷ value)) ≡ assigned key value
parse_line-assigned [] value k v =
    parse_line-equals 61 (rstrip value) [] value (equals-first value) refl k v
parse_line-assigned (c ∷ key) value k v =
    parse_line-equals c (rstrip (key ++ (61 ∷ value))) (c ∷ key) value
      (strip-head c (key ++ (61 ∷ value)) (IsTrimmed-head c key k.trimmed)) k.no_comment k v

pub assigned-IsStable :
    (key value : Text) → IsKey key → IsValue value → IsStable (assigned key value)
assigned-IsStable key value k v = record {
  one_line =
      All-append (λ (c : ℕ). ((c == newline) || (c == carriage_return)) ≡ false) key (61 ∷ value)
        k.one_line (refl, v.one_line);
  read_back = parse_line-assigned key value k v;
}

parse_line_empty : parse_line [] ≡ kept_line []
unfolding parse_line strip lstrip rstrip
parse_line_empty = refl

kept_line-IsStable :
    (line : Text) → OneLine line → parse_line line ≡ kept_line line → IsStable (parse_line line)
kept_line-IsStable line o e = subst IsStable (sym e) (record { one_line = o; read_back = e })

-- The key of a line that is no comment is none.
strip-no_comment :
    (key value : Text)
    → is_comment (strip (key ++ (61 ∷ value))) ≡ false
    → is_comment (strip key) ≡ false
strip-no_comment key value h = elim (lstrip-cases key) [
  | inl nothing ↦ rw (strip-nothing key nothing) refl
  | inr k ↦
      rw (strip-Starts key k)
        (subst (λ (cs : Text). is_comment cs ≡ false) (strip-Starts_append key (61 ∷ value) k) h)
]

NotEquals-strip : (key : Text) → NoEquals key → NoEquals (strip key)
NotEquals-strip key n = All-strip (λ (c : ℕ). (c == 61) ≡ false) key n

parts-IsKey :
    (line key value : Text)
    → OneLine line
    → is_comment (strip line) ≡ false
    → Splits line (some (key, value))
    → IsKey (strip key) × IsValue (strip value)
parts-IsKey line key value o h s =
    let ends = λ (c : ℕ). ((c == newline) || (c == carriage_return)) ≡ false in
    let parts = All-parts ends key (61 ∷ value) (subst OneLine s.0 o) in
    (
      record {
        one_line = All-strip ends key parts.0;
        trimmed = strip-IsTrimmed key;
        no_equals = NotEquals-strip key s.1;
        no_comment =
            strip-no_comment key value (subst (λ (cs : Text). is_comment (strip cs) ≡ false) s.0 h);
      },
      record { one_line = All-strip ends value (parts.1).1; trimmed = strip-IsTrimmed value },
    )

pub parse_line-IsStable : (line : Text) → OneLine line → IsStable (parse_line line)
unfolding parse_line
parse_line-IsStable line o = elim (lstrip-cases line) [
  | inl nothing ↦
      subst IsStable (sym (rw (parse_line, strip-nothing line nothing) refl))
        (record { one_line = tt; read_back = parse_line_empty })
  | inr s ↦ elim (Bool-cases (s.first == 35)) [
    | inl comment ↦ kept_line-IsStable line o (rw (parse_line, strip-Starts line s, comment) refl)
    | inr other ↦ elim (Option-cases (partition line)) [
      | inl absent ↦
          kept_line-IsStable line o (rw (parse_line, strip-Starts line s, other, absent) refl)
      | inr (kv, found) ↦
          let parts =
            parts-IsKey line kv.0 kv.1 o (rw (strip-Starts line s) other)
              (subst (Splits line) found (partition-Splits line)) in
          subst IsStable (sym (rw (parse_line, strip-Starts line s, other, found) refl))
            (assigned-IsStable (strip kv.0) (strip kv.1) parts.0 parts.1)
    ]
  ]
]
