-- ===== src/Proxy/Bridges/Filter.antt =====
-- Every loop that closes bridges is one pass of a filter over the dict.
use silkjam.Prelude.{
  All-imp, ◌≡◌, refl, sym, subst, ◌∙◌, ap, Bool, false, List, [], ◌∷◌, ◌++◌, ℕ, if◌then◌else◌, All,
  Bool-cases, inl, inr, append_assoc,
}
use silkjam.Proxy.Bridges.{Bridge, Voice, has_key, close_transport, close_voice_bridge, close_where}
use silkjam.Proxy.Bridges.Keys.{
  Unique, Unique-front, Unique-back, Unique-without, find-middle, pop-middle,
}

-- The bridges without those that a test holds of.
unfoldable pub kept : (Bridge → Bool) → List Bridge → List Bridge
kept test [] = []
kept test (b ∷ bs) = let rest = kept test bs in if test b then rest else b ∷ rest

-- The closed transports, with those of the connected bridges that a test holds of.
unfoldable pub closing : (Bridge → Bool) → List Bridge → List ℕ → List ℕ
closing test [] closed = closed
closing test (b ∷ bs) closed = closing test bs (if test b then close_transport b closed else closed)

-- What a filter leaves of a state.
abbrev pub filtered : (Bridge → Bool) → Voice → Voice
filtered test s = record s {
  bridges = kept test s.bridges;
  closed = closing test s.bridges s.closed;
}

abbrev with_bridges : List Bridge → Voice → Voice
with_bridges bs s = record s { bridges = bs }

close-middle :
    (b : Bridge) (front back : List Bridge) (s : Voice)
    → Unique (front ++ (b ∷ back))
    → close_voice_bridge b.player b.backend (with_bridges (front ++ (b ∷ back)) s)
      ≡ record s { bridges = front ++ back; closed = close_transport b s.closed }
unfolding close_voice_bridge
close-middle b front back s u =
    rw
      (
        close_voice_bridge,
        find-middle b front back (Unique-front b front back u),
        pop-middle b front back (Unique-front b front back u) (Unique-back b front back u),
      )
      refl

close_where-front :
    (test : Bridge → Bool) (front back : List Bridge) (s : Voice)
    → Unique (front ++ back)
    → close_where test back (with_bridges (front ++ back) s)
      ≡ record s { bridges = front ++ kept test back; closed = closing test back s.closed }
unfolding close_where kept closing
close_where-front test front [] s u = refl
close_where-front test front (b ∷ back) s u = elim (Bool-cases (test b)) [
  | inl holds ↦
      rw (close_where, kept, closing, holds)
        (ap (close_where test back) (close-middle b front back s u)
          ∙ close_where-front test front back (record s { closed = close_transport b s.closed })
              (Unique-without b front back u))
  | inr fails ↦
      rw (close_where, kept, closing, fails)
        (ap (λ bs. close_where test back (with_bridges bs s))
            (sym (append_assoc front (b ∷ []) back))
          ∙ close_where-front test (front ++ (b ∷ [])) back s
              (subst Unique (sym (append_assoc front (b ∷ []) back)) u)
          ∙ ap (λ bs. record s { bridges = bs; closed = closing test back s.closed })
              (append_assoc front (b ∷ []) (kept test back)))
]

-- Where no key stands twice in the dict, the loop that closes the bridges with a test is one
-- filter: the bridges with the test leave in one pass, their transports are closed if they are
-- connected, and nothing else changes.
pub close_where_lem :
    (test : Bridge → Bool) (s : Voice)
    → Unique s.bridges
    → close_where test s.bridges s ≡ filtered test s
close_where_lem test s u = close_where-front test [] s.bridges s u

module _ (P : Bridge → Type 0) where
  -- What is kept has the property still, and the test fails on it.
  pub All-kept :
      (test : Bridge → Bool) (bs : List Bridge)
      → All P bs
      → All (λ (b : Bridge). P b × (test b ≡ false)) (kept test bs)
  unfolding kept
  All-kept test [] a = tt
  All-kept test (b ∷ bs) (p, a) = elim (Bool-cases (test b)) [
    | inl holds ↦ rw (kept, holds) (All-kept test bs a)
    | inr fails ↦ rw (kept, fails) ((p, fails), All-kept test bs a)
  ]

pub All-kept_left :
    (P : Bridge → Type 0) (test : Bridge → Bool) (bs : List Bridge)
    → All P bs
    → All P (kept test bs)
All-kept_left P test bs a =
    All-imp (λ (b : Bridge). P b × (test b ≡ false)) P (kept test bs) (λ b h. h.0)
      (All-kept P test bs a)

pub Unique-kept : (test : Bridge → Bool) (bs : List Bridge) → Unique bs → Unique (kept test bs)
unfolding kept
Unique-kept test [] u = tt
Unique-kept test (b ∷ bs) (g, u) = elim (Bool-cases (test b)) [
  | inl holds ↦ rw (kept, holds) (Unique-kept test bs u)
  | inr fails ↦
      rw (kept, fails)
        (
          All-kept_left (λ (x : Bridge). has_key b.player b.backend x ≡ false) test bs g,
          Unique-kept test bs u,
        )
]
