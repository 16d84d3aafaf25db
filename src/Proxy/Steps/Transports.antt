-- ===== src/Proxy/Steps/Transports.antt =====
-- The transports of the voice bridges of a proxy: each is closed, or a bridge in the dict holds it.
pub mod Safe
use silkjam.Prelude.{
  ℕ, suc, ◌<◌, ◌≡◌, refl, sym, subst, Bool, true, false, Option, none, some, List, [], ◌∷◌, ◌==◌,
  ◌&&◌, ◌||◌, if◌then◌else◌, arith, All, All-imp, inl, inr, Bool-cases, Option-cases,
}
use silkjam.Prelude.Sets.{mem}
use silkjam.Proxy.Bridges.{Bridge, Voice, has_key, find, put, close_transport, touch, mark_lost}
use silkjam.Proxy.Bridges.Keys.{Unique, Gone}
use silkjam.Proxy.Bridges.Filter.{kept, closing, filtered}

-- A connected bridge holds the transport.
unfoldable pub held : ℕ → List Bridge → Bool
held t [] = false
held t (b ∷ bs) = (b.connected && (t == b.transport)) || held t bs

abbrev pub accounted : ℕ → List ℕ → List Bridge → Bool
accounted t closed bs = mem t closed || held t bs

pub mem-closing :
    (t : ℕ) (test : Bridge → Bool) (bs : List Bridge) (closed : List ℕ)
    → mem t closed ≡ true
    → mem t (closing test bs closed) ≡ true
unfolding mem closing
mem-closing t test [] closed h = h
mem-closing t test (b ∷ bs) closed h =
    mem-closing t test bs (if test b then close_transport b closed else closed) (ground (arith, h))

pub accounted-kept :
    (t : ℕ) (test : Bridge → Bool) (bs : List Bridge) (closed : List ℕ)
    → accounted t closed bs ≡ true
    → accounted t (closing test bs closed) (kept test bs) ≡ true
unfolding mem held closing kept
accounted-kept t test [] closed h = h
accounted-kept t test (b ∷ bs) closed h = elim (Bool-cases (test b)) [
  | inl holds ↦
      rw (closing, kept, holds)
        (accounted-kept t test bs (close_transport b closed) (ground (arith, h)))
  | inr fails ↦
      rw (closing, kept, fails)
        (ground (arith, h, fails, accounted-kept t test bs closed, mem-closing t test bs closed))
]

pub accounted-mark_lost :
    (t u : ℕ) (closed : List ℕ) (bs : List Bridge)
    → accounted t closed bs ≡ true
    → accounted t (u ∷ closed) (mark_lost u bs) ≡ true
unfolding mem held mark_lost
accounted-mark_lost t u closed [] h = ground (arith, h)
accounted-mark_lost t u closed (b ∷ bs) h = ground (arith, h, accounted-mark_lost t u closed bs)

pub held-touch : (t u now : ℕ) (bs : List Bridge) → held t (touch u now bs) ≡ held t bs
unfolding held touch
held-touch t u now [] = refl
held-touch t u now (b ∷ bs) = ground (arith, held-touch t u now bs)

-- A bridge with the key has no open transport.
abbrev pub Replaced : ℕ → ℕ → List ℕ → Bridge → Type 0
Replaced player backend closed b =
    has_key player backend b ≡ true → b.connected ≡ true → mem b.transport closed ≡ true

pub accounted-put :
    (t : ℕ) (b : Bridge) (closed : List ℕ) (bs : List Bridge)
    → All (Replaced b.player b.backend closed) bs
    → accounted t closed bs ≡ true
    → accounted t closed (put b bs) ≡ true
unfolding mem held put
accounted-put t b closed [] a h = ground (arith, h)
accounted-put t b closed (c ∷ bs) (r, a) h = ground (arith, h, r, accounted-put t b closed bs a)

pub held-put :
    (b : Bridge) (bs : List Bridge) → b.connected ≡ true → held b.transport (put b bs) ≡ true
unfolding held put
held-put b [] h = ground (arith, h)
held-put b (c ∷ bs) h = ground (arith, h, held-put b bs h)

-- From the lookup of a key to all bridges.
pub All-Replaced :
    (player backend : ℕ) (closed : List ℕ) (bs : List Bridge)
    → Unique bs
    → ((b : Bridge)
        → find player backend bs ≡ some b
        → b.connected ≡ true
        → mem b.transport closed ≡ true)
    → All (Replaced player backend closed) bs
unfolding find
All-Replaced player backend closed [] u f = tt
All-Replaced player backend closed (b ∷ bs) (g, u) f =
    elim (Bool-cases (has_key player backend b)) [
      | inl same ↦ (
        λ h c. f b (rw (find, same) refl) c,
        All-imp (λ (x : Bridge). has_key b.player b.backend x ≡ false)
            (Replaced player backend closed) bs (λ x n h. absurd (ground (arith, n, h, same))) g,
      )
      | inr other ↦ (
        λ h. absurd (ground (arith, h, other)),
        All-Replaced player backend closed bs u (λ c e. f c (rw (find, other) e)),
      )
    ]
