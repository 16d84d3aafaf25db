-- ===== src/Backups/Strategy/Bins.antt =====
-- Every backup that is not past the cutoff falls into one of the `n` bins.
use silkjam.Prelude.{ℕ, zero, suc, ◌+◌, ◌-◌, ◌*◌, ◌/◌, ◌^◌, ◌≤◌, ◌<◌, ◌≡◌, ap, subst, ◌∙◌, arith}
use silkjam.Prelude.Int.{pos, ◌-ℤ◌, ◌≤ℤ◌, pos-+, pos-sub}
use silkjam.Backups.Strategy.{to_nearest, log2_loop, floor_log2, bin, cutoff_at}
use native.Mathlib.Decide.{dec_le}
use native.Mathlib.Nat.{
  mul-pos, mul-div_cancel, div-lt_iff_lt-mul, pow-suc, one-le-pow, div-add-mod, mod-lt,
}

log2_loop_lt : (fuel i n : ℕ) → i ≤ fuel → i < 2 ^ suc n → log2_loop fuel i < suc n
unfolding log2_loop
log2_loop_lt zero i n h k = omega arith
log2_loop_lt (suc fuel) i zero h k = ground arith
log2_loop_lt (suc fuel) i (suc n) h k =
    ground (arith, pow-suc 2 (suc n), log2_loop_lt fuel (i / 2) n)

floor_log2-lt : (i n : ℕ) → i < 2 ^ suc n → floor_log2 i < suc n
unfolding floor_log2
floor_log2-lt i n h = log2_loop_lt i i n (omega arith) h

to_nearest-pos : (x d : ℕ) → to_nearest (pos x) d ≡ pos (suc (x / d) * d)
unfolding to_nearest
to_nearest-pos x d = rw (pos-+ (x / d) 1) (ap (λ n. pos (n * d)) (omega arith))

-- The age in intervals is one more than the whole intervals since the backup.
age : (t d s : ℕ) → 0 < d → s ≤ t → bin t d s ≡ floor_log2 (suc ((t - s) / d))
unfolding bin
age t d s hd hs =
    rw (pos-sub t s hs, to_nearest-pos (t - s) d)
      (ap floor_log2 (mul-div_cancel (suc ((t - s) / d)) hd))

-- A cutoff at `M` ticks before `t` or later leaves less than `M` ticks.
after_cutoff : (t M d s : ℕ) → 0 < d → 0 < M → to_nearest (pos t -ℤ pos M) d ≤ℤ pos s → t < s + M
after_cutoff t M d s hd hM h = elim (dec_le M t) [
  | yes le ↦ omega (
    arith,
    subst (λ x. x ≤ℤ pos s) (ap (λ x. to_nearest x d) (pos-sub t M le) ∙ to_nearest-pos (t - M) d)
        h,
    div-add-mod (t - M) d,
    mod-lt (t - M) hd,
  )
  | no lt ↦ omega arith
]

below : (a m d : ℕ) → 0 < d → a < m * d → a / d < m
below a m d hd h = (div-lt_iff_lt-mul hd).1 h

intervals-lt :
    (t m d s : ℕ) → 0 < d → 0 < m → to_nearest (pos t -ℤ pos (m * d)) d ≤ℤ pos s → (t - s) / d < m
intervals-lt t m d s hd hm h =
    let positive : 0 < m * d = mul-pos hm hd in
    below (t - s) m d hd (omega (arith, after_cutoff t (m * d) d s hd positive h))

-- At or after the cutoff, the age is below 2 ^ n.
pub bin-lt : (t d n s : ℕ) → 0 < d → s ≤ t → cutoff_at t (suc n) d ≤ℤ pos s → bin t d s < suc n
bin-lt t d n s hd hs h = rw (age t d s hd hs) (
    floor_log2-lt (suc ((t - s) / d)) n (
      omega (
        arith,
        one-le-pow n 2,
        pow-suc 2 n,
        intervals-lt t (2 ^ suc n - 1) d s hd (omega (arith, one-le-pow n 2, pow-suc 2 n)) h,
      )))

-- With no bins every backup is past the cutoff.
pub no_bins : (t d s : ℕ) → 0 < d → s ≤ t → cutoff_at t 0 d ≤ℤ pos s → ⊥
no_bins t d s hd hs h = omega (
  arith,
  subst (λ x. x ≤ℤ pos s)
      (ap (λ x. to_nearest x d) (pos-sub t (0 * d) (omega arith)) ∙ to_nearest-pos (t - 0 * d) d) h,
  div-add-mod (t - 0 * d) d,
  mod-lt (t - 0 * d) hd,
)
