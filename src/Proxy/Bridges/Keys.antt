-- ===== src/Proxy/Bridges/Keys.antt =====
-- The keys of the voice bridges: no key stands twice in the dict.
use silkjam.Prelude.{
  All-imp, arith, ℕ, ◌≡◌, refl, ap, true, false, none, some, List, [], ◌∷◌, ◌++◌, arith, All,
  All-middle, All-without, Bool-cases, inl, inr,
}
use silkjam.Proxy.Bridges.{Bridge, has_key, find, pop, put}

-- No bridge has the key.
abbrev pub Gone : ℕ → ℕ → List Bridge → Type 0
Gone player backend = All (λ (b : Bridge). has_key player backend b ≡ false)

abbrev pub Unique : List Bridge → Type 0
Unique [] = Unit
Unique (b ∷ bs) = Gone b.player b.backend bs × Unique bs

module _ (P : Bridge → Type 0) where
  pub All-put : (b : Bridge) (bs : List Bridge) → P b → All P bs → All P (put b bs)
  unfolding put
  All-put b [] p a = (p, tt)
  All-put b (c ∷ bs) p (pc, a) = elim (Bool-cases (has_key b.player b.backend c)) [
    | inl same ↦ rw (put, same) (p, a)
    | inr other ↦ rw (put, other) (pc, All-put b bs p a)
  ]

  pub All-pop : (player backend : ℕ) (bs : List Bridge) → All P bs → All P (pop player backend bs)
  unfolding pop
  All-pop player backend [] a = tt
  All-pop player backend (c ∷ bs) (pc, a) = elim (Bool-cases (has_key player backend c)) [
    | inl same ↦ rw (pop, same) (All-pop player backend bs a)
    | inr other ↦ rw (pop, other) (pc, All-pop player backend bs a)
  ]

pub pop-Gone :
    (player backend : ℕ) (bs : List Bridge) → Gone player backend bs → pop player backend bs ≡ bs
unfolding pop
pop-Gone player backend [] g = refl
pop-Gone player backend (b ∷ bs) g = rw (pop, g.0) (ap (◌∷◌ b) (pop-Gone player backend bs g.1))

pub find-Gone :
    (player backend : ℕ) (bs : List Bridge) → Gone player backend bs → find player backend bs ≡ none
unfolding find
find-Gone player backend [] g = refl
find-Gone player backend (b ∷ bs) g = rw (find, g.0) (find-Gone player backend bs g.1)

pub has_key_self : (b : Bridge) → has_key b.player b.backend b ≡ true
has_key_self b = ground arith

pub has_key-swap :
    (b c : Bridge) → has_key b.player b.backend c ≡ false → has_key c.player c.backend b ≡ false
has_key-swap b c h = ground arith

pub find-middle :
    (b : Bridge) (front back : List Bridge)
    → Gone b.player b.backend front
    → find b.player b.backend (front ++ (b ∷ back)) ≡ some b
unfolding find
find-middle b [] back g = rw (find, has_key_self b) refl
find-middle b (c ∷ front) back g = rw (find, g.0) (find-middle b front back g.1)

pub pop-middle :
    (b : Bridge) (front back : List Bridge)
    → Gone b.player b.backend front
    → Gone b.player b.backend back
    → pop b.player b.backend (front ++ (b ∷ back)) ≡ front ++ back
unfolding pop
pop-middle b [] back g h = rw (pop, has_key_self b) (pop-Gone b.player b.backend back h)
pop-middle b (c ∷ front) back g h = rw (pop, g.0) (ap (◌∷◌ c) (pop-middle b front back g.1 h))

-- In a list without a key twice, a bridge has its key alone.
pub Unique-front :
    (b : Bridge) (front back : List Bridge)
    → Unique (front ++ (b ∷ back))
    → Gone b.player b.backend front
Unique-front b [] back u = tt
Unique-front b (c ∷ front) back u = (
  has_key-swap c b
      (All-middle (λ (x : Bridge). has_key c.player c.backend x ≡ false) b front back u.0),
  Unique-front b front back u.1,
)

pub Unique-back :
    (b : Bridge) (front back : List Bridge)
    → Unique (front ++ (b ∷ back))
    → Gone b.player b.backend back
Unique-back b [] back u = u.0
Unique-back b (c ∷ front) back u = Unique-back b front back u.1

pub Unique-without :
    (b : Bridge) (front back : List Bridge) → Unique (front ++ (b ∷ back)) → Unique (front ++ back)
Unique-without b [] back u = u.1
Unique-without b (c ∷ front) back u = (
  All-without (λ (x : Bridge). has_key c.player c.backend x ≡ false) b front back u.0,
  Unique-without b front back u.1,
)

pub Unique-pop :
    (player backend : ℕ) (bs : List Bridge) → Unique bs → Unique (pop player backend bs)
unfolding pop
Unique-pop player backend [] u = tt
Unique-pop player backend (c ∷ bs) (g, u) = elim (Bool-cases (has_key player backend c)) [
  | inl same ↦ rw (pop, same) (Unique-pop player backend bs u)
  | inr other ↦
      rw (pop, other)
        (
          All-pop (λ (x : Bridge). has_key c.player c.backend x ≡ false) player backend bs g,
          Unique-pop player backend bs u,
        )
]

Gone-same :
    (b c : Bridge) (bs : List Bridge)
    → has_key b.player b.backend c ≡ true
    → Gone c.player c.backend bs
    → Gone b.player b.backend bs
Gone-same b c bs e g =
    All-imp (λ (x : Bridge). has_key c.player c.backend x ≡ false)
      (λ (x : Bridge). has_key b.player b.backend x ≡ false) bs (λ x h. ground (arith, h, e)) g

pub Unique-put : (b : Bridge) (bs : List Bridge) → Unique bs → Unique (put b bs)
unfolding put
Unique-put b [] u = (tt, tt)
Unique-put b (c ∷ bs) (g, u) = elim (Bool-cases (has_key b.player b.backend c)) [
  | inl same ↦ rw (put, same) (Gone-same b c bs same g, u)
  | inr other ↦
      rw (put, other)
        (
          All-put (λ (x : Bridge). has_key c.player c.backend x ≡ false) b bs
              (has_key-swap b c other) g,
          Unique-put b bs u,
        )
]
