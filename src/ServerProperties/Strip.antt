-- ===== src/ServerProperties/Strip.antt =====
-- What stripping and partitioning leave of a text.
use silkjam.Prelude.{
  ℕ, suc, ◌≤◌, ◌≡◌, refl, sym, subst, ap, ◌∙◌, ◌⊎◌, true, false, ◌&&◌, Option, none, some, [], ◌∷◌,
  ◌++◌, ◌==◌, arith, length, All, Bool-cases, inl, inr,
}
use silkjam.ServerProperties.{Text, is_space, lstrip, rstrip, strip, is_empty, partition}

-- The text has no space at either end.
abbrev pub IsTrimmed : Text → Type 0
IsTrimmed cs = strip cs ≡ cs

lstrip-length : (cs : Text) → length (lstrip cs) ≤ length cs
unfolding lstrip
lstrip-length [] = omega arith
lstrip-length (c ∷ cs) = ground (arith, lstrip-length cs)

rstrip-length : (cs : Text) → length (rstrip cs) ≤ length cs
unfolding rstrip
rstrip-length [] = omega arith
rstrip-length (c ∷ cs) = ground (arith, rstrip-length cs)

rstrip-rstrip : (cs : Text) → rstrip (rstrip cs) ≡ rstrip cs
unfolding rstrip
rstrip-rstrip [] = refl
rstrip-rstrip (c ∷ cs) = ground (arith, rstrip-rstrip cs)

-- A text that starts with no space starts so after stripping.
pub rstrip-head : (c : ℕ) (cs : Text) → is_space c ≡ false → rstrip (c ∷ cs) ≡ c ∷ rstrip cs
unfolding rstrip
rstrip-head c cs h = ground (arith, h)

pub lstrip-head : (c : ℕ) (cs : Text) → is_space c ≡ false → lstrip (c ∷ cs) ≡ c ∷ cs
unfolding lstrip
lstrip-head c cs h = ground (arith, h)

pub strip-head : (c : ℕ) (cs : Text) → is_space c ≡ false → strip (c ∷ cs) ≡ c ∷ rstrip cs
unfolding strip
strip-head c cs h = rw (strip, lstrip-head c cs h) (rstrip-head c cs h)

lstrip-space : (c : ℕ) (cs : Text) → is_space c ≡ true → lstrip (c ∷ cs) ≡ lstrip cs
unfolding lstrip
lstrip-space c cs h = ground (arith, h)

pub IsTrimmed-head : (c : ℕ) (cs : Text) → IsTrimmed (c ∷ cs) → is_space c ≡ false
unfolding strip
IsTrimmed-head c cs h = elim (Bool-cases (is_space c)) [
  | inl space ↦
      let e : length (rstrip (lstrip cs)) ≡ suc (length cs) =
        ap (λ x. length (rstrip x)) (sym (lstrip-space c cs space)) ∙ ap length h in
      absurd (omega (arith, lstrip-length cs, rstrip-length (lstrip cs), e))
  | inr e ↦ e
]

-- What stands first after the spaces.
pub record Starts (cs : Text) : Type 0 where
  pub first : ℕ
  pub rest : Text
  pub found : lstrip cs ≡ first ∷ rest
  pub no_space : is_space first ≡ false

pub lstrip-cases : (cs : Text) → (lstrip cs ≡ []) ⊎ Starts cs
unfolding lstrip
lstrip-cases [] = inl refl
lstrip-cases (c ∷ cs) = elim (Bool-cases (is_space c)) [
  | inr e ↦ inr (record { first = c; rest = cs; found = lstrip-head c cs e; no_space = e })
  | inl space ↦ elim (lstrip-cases cs) [
    | inl nothing ↦ inl (lstrip-space c cs space ∙ nothing)
    | inr s ↦ inr (record {
      first = s.first;
      rest = s.rest;
      found = lstrip-space c cs space ∙ s.found;
      no_space = s.no_space;
    })
  ]
]

pub strip-Starts : (cs : Text) (s : Starts cs) → strip cs ≡ s.first ∷ rstrip s.rest
unfolding strip
strip-Starts cs s = rw (strip, s.found) (rstrip-head s.first s.rest s.no_space)

lstrip_empty : lstrip [] ≡ []
unfolding lstrip
lstrip_empty = refl

pub strip-nothing : (cs : Text) → lstrip cs ≡ [] → strip cs ≡ []
unfolding strip rstrip
strip-nothing cs e = rw (strip, e) refl

pub strip-IsTrimmed : (cs : Text) → IsTrimmed (strip cs)
strip-IsTrimmed cs = elim (lstrip-cases cs) [
  | inl nothing ↦ subst IsTrimmed (sym (strip-nothing cs nothing)) (strip-nothing [] lstrip_empty)
  | inr s ↦
      subst IsTrimmed (sym (strip-Starts cs s))
        (strip-head s.first (rstrip s.rest) s.no_space ∙ ap (◌∷◌ s.first) (rstrip-rstrip s.rest))
]

lstrip-append :
    (cs rest : Text) (d : ℕ) (ds : Text)
    → lstrip cs ≡ d ∷ ds
    → lstrip (cs ++ rest) ≡ d ∷ (ds ++ rest)
unfolding lstrip
lstrip-append [] rest d ds e = absurd (ground (arith, e))
lstrip-append (c ∷ cs) rest d ds e = elim (Bool-cases (is_space c)) [
  | inl space ↦
      lstrip-space c (cs ++ rest) space
      ∙ lstrip-append cs rest d ds (sym (lstrip-space c cs space) ∙ e)
  | inr no_space ↦
      lstrip-head c (cs ++ rest) no_space
      ∙ ap (λ x. x ++ rest) (sym (lstrip-head c cs no_space) ∙ e)
]

Starts-append : (cs rest : Text) → Starts cs → Starts (cs ++ rest)
Starts-append cs rest s = record {
  first = s.first;
  rest = s.rest ++ rest;
  found = lstrip-append cs rest s.first s.rest s.found;
  no_space = s.no_space;
}

pub strip-Starts_append :
    (cs rest : Text) (s : Starts cs) → strip (cs ++ rest) ≡ s.first ∷ rstrip (s.rest ++ rest)
unfolding Starts-append
strip-Starts_append cs rest s = strip-Starts (cs ++ rest) (Starts-append cs rest s)

module _ (P : ℕ → Type 0) where
  All-lstrip : (cs : Text) → All P cs → All P (lstrip cs)
  unfolding lstrip
  All-lstrip [] a = tt
  All-lstrip (c ∷ cs) (p, a) = elim (Bool-cases (is_space c)) [
    | inl space ↦ rw (lstrip, space) (All-lstrip cs a)
    | inr no_space ↦ rw (lstrip, no_space) (p, a)
  ]

  All-rstrip : (cs : Text) → All P cs → All P (rstrip cs)
  unfolding rstrip
  All-rstrip [] a = tt
  All-rstrip (c ∷ cs) (p, a) = elim (Bool-cases (is_space c && is_empty (rstrip cs))) [
    | inl space ↦ rw (rstrip, space) tt
    | inr no_space ↦ rw (rstrip, no_space) (p, All-rstrip cs a)
  ]

  pub All-strip : (cs : Text) → All P cs → All P (strip cs)
  unfolding strip
  All-strip cs a = All-rstrip (lstrip cs) (All-lstrip cs a)

abbrev pub NoEquals : Text → Type 0
NoEquals = All (λ (c : ℕ). (c == 61) ≡ false)

pub partition_lem :
    (key value : Text) → NoEquals key → partition (key ++ (61 ∷ value)) ≡ some (key, value)
unfolding partition
partition_lem [] value n = refl
partition_lem (c ∷ key) value (e, n) = rw (partition, e, partition_lem key value n) refl

-- The parts of a line around the first `=`.
abbrev pub Splits : Text → Option (Text × Text) → Type 0
Splits line none = Unit
Splits line (some (key, value)) = (line ≡ key ++ (61 ∷ value)) × NoEquals key

Splits-next :
    (c : ℕ) (line : Text) (o : Option (Text × Text))
    → (c == 61) ≡ false
    → Splits line o
    → Splits (c ∷ line) (elim o [ none ↦ none | some (key, value) ↦ some (c ∷ key, value) ])
Splits-next c line none h s = tt
Splits-next c line (some (key, value)) h s = (ap (◌∷◌ c) s.0, (h, s.1))

pub partition-Splits : (line : Text) → Splits line (partition line)
unfolding partition
partition-Splits [] = tt
partition-Splits (c ∷ line) = elim (Bool-cases (c == 61)) [
  | inl equals ↦ rw (partition, equals) (ap (λ d. d ∷ line) (ground (arith, equals)), tt)
  | inr other ↦
      rw (partition, other) (Splits-next c line (partition line) other (partition-Splits line))
]
