-- ===== src/Proxy/Bridges/Marks.antt =====
-- The changes of bridges in place: activity and the loss of a transport.
use silkjam.Prelude.{
  ℕ, ◌≡◌, refl, ap, false, List, [], ◌∷◌, ◌==◌, if◌then◌else◌, All, Bool-cases, inl, inr,
}
use silkjam.Proxy.Bridges.{Bridge, has_key, touch, mark_lost}
use silkjam.Proxy.Bridges.Keys.{Unique}

-- The bridges with a change to those that have a transport.
abbrev pub revised : (Bridge → Bridge) → ℕ → List Bridge → List Bridge
revised change transport [] = []
revised change transport (b ∷ bs) =
    (if b.transport == transport then change b else b) ∷ revised change transport bs

pub touch_lem :
    (transport now : ℕ) (bs : List Bridge)
    → touch transport now bs ≡ revised (λ b. record b { last_activity = now }) transport bs
unfolding touch
touch_lem transport now [] = refl
touch_lem transport now (b ∷ bs) =
    ap (◌∷◌ (if b.transport == transport then record b { last_activity = now } else b))
      (touch_lem transport now bs)

pub mark_lost_lem :
    (transport : ℕ) (bs : List Bridge)
    → mark_lost transport bs ≡ revised (λ b. record b { connected = false }) transport bs
unfolding mark_lost
mark_lost_lem transport [] = refl
mark_lost_lem transport (b ∷ bs) =
    ap (◌∷◌ (if b.transport == transport then record b { connected = false } else b))
      (mark_lost_lem transport bs)

module _ (change : Bridge → Bridge) (transport : ℕ) where
  pub All-revised :
      (P : Bridge → Type 0) (bs : List Bridge)
      → ((b : Bridge) → P b → P (change b))
      → All P bs
      → All P (revised change transport bs)
  All-revised P [] f a = tt
  All-revised P (b ∷ bs) f (p, a) = (
    elim (Bool-cases (b.transport == transport)) [
      | inl same ↦ rw (same) (f b p)
      | inr other ↦ rw (other) p
    ],
    All-revised P bs f a,
  )

-- A change that leaves the key.
abbrev pub KeepsKey : (Bridge → Bridge) → Type 0
KeepsKey change = (b : Bridge) → ((change b).player ≡ b.player) × ((change b).backend ≡ b.backend)

pub Unique-revised :
    (change : Bridge → Bridge) (transport : ℕ) (bs : List Bridge)
    → KeepsKey change
    → Unique bs
    → Unique (revised change transport bs)
Unique-revised change transport [] keeps u = tt
Unique-revised change transport (b ∷ bs) keeps (g, u) = (
  elim (Bool-cases (b.transport == transport)) [
    | inl same ↦
        rw (same, (keeps b).0, (keeps b).1)
          (All-revised change transport (λ (x : Bridge). has_key b.player b.backend x ≡ false) bs
            (λ c h. rw ((keeps c).0, (keeps c).1) h) g)
    | inr other ↦ rw (other) (
        All-revised change transport (λ (x : Bridge). has_key b.player b.backend x ≡ false) bs
          (λ c h. rw ((keeps c).0, (keeps c).1) h) g)
  ],
  Unique-revised change transport bs keeps u,
)
