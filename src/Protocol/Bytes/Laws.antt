-- ===== src/Protocol/Bytes/Laws.antt =====
-- Slices of joined byte strings, and what `struct.unpack` reads of what `struct.pack` wrote.
use silkjam.Prelude.{
  ℕ, zero, suc, ◌+◌, ◌-◌, ◌*◌, ◌/◌, ◌%◌, ◌^◌, ◌<◌, ◌≡◌, refl, ap, ap₂, ◌∙◌, true, List, [], ◌∷◌,
  ◌++◌, length, length-append, take, drop, take-append, drop-append, All, ==_refl, arith,
}
use silkjam.Prelude.Int.{ℤ, pos, negsuc}
use silkjam.Protocol.Result.{ok}
use silkjam.Protocol.Bytes.{
  Bytes, IsByte, slice, slice_from, bytes_eq, big_endian, to_big_endian, unpack, signed64, unpack_q,
  pack_q,
}
use native.Mathlib.Nat.{
  pow-suc, one-le-pow, div-add-mod, mod-lt, mod-eq_of_lt, mul-add-mod_self_left,
}

pub length-to_big_endian : (k n : ℕ) → length (to_big_endian k n) ≡ k
unfolding to_big_endian
length-to_big_endian zero n = refl
length-to_big_endian (suc k) n = ap suc (length-to_big_endian k n)

pub to_big_endian-IsByte : (k n : ℕ) → All IsByte (to_big_endian k n)
unfolding to_big_endian
to_big_endian-IsByte zero n = tt
to_big_endian-IsByte (suc k) n = (omega arith, to_big_endian-IsByte k n)

-- A slice that starts where `xs` ends.
pub slice_from-append : (xs ys : Bytes) (i : ℤ) → i ≡ pos (length xs) → slice_from (xs ++ ys) i ≡ ys
unfolding slice_from
slice_from-append xs ys i h =
    rw h (ap (λ n. drop n (xs ++ ys)) (omega (arith, length-append xs ys)) ∙ drop-append xs ys)

-- A slice that ends where `ys` does, too.
pub slice-append :
    (xs ys zs : Bytes) (i j : ℤ)
    → i ≡ pos (length xs)
    → j ≡ pos (length xs + length ys)
    → slice (xs ++ (ys ++ zs)) i j ≡ ys
unfolding slice
slice-append xs ys zs i j hi hj =
    rw (hi, hj)
      (ap₂ (λ m n. take m (drop n (xs ++ (ys ++ zs))))
          (omega (arith, length-append xs (ys ++ zs), length-append ys zs))
          (omega (arith, length-append xs (ys ++ zs)))
        ∙ ap (take (length ys)) (drop-append xs (ys ++ zs))
        ∙ take-append ys zs)

pub bytes_eq_refl : (xs : List ℕ) → bytes_eq xs xs ≡ true
unfolding bytes_eq
bytes_eq_refl [] = refl
bytes_eq_refl (x ∷ xs) = ground (arith, bytes_eq_refl xs)

-- The lowest digit of the quotient by `P`, with the remainder below it.
mod_split : (P n : ℕ) → 0 < P → n % (P * 256) ≡ n / P % 256 * P + n % P
mod_split P n h =
    ap (λ t. t % (P * 256)) parts
    ∙ mul-add-mod_self_left (P * 256) (n / P / 256) _
    ∙ mod-eq_of_lt bound
  where
    digit : n / P ≡ 256 * (n / P / 256) + n / P % 256
    digit = omega arith

    parts : n ≡ P * 256 * (n / P / 256) + (n / P % 256 * P + n % P)
    parts = omega (arith, div-add-mod n P, ap (λ t. P * t) digit)

    bound : n / P % 256 * P + n % P < P * 256
    bound = grind (arith, mod-lt n h, mod-lt (n / P) {m = 256} (omega arith))

big_endian-to : (k acc n : ℕ) → big_endian acc (to_big_endian k n) ≡ acc * 256 ^ k + n % 256 ^ k
unfolding big_endian to_big_endian
big_endian-to zero acc n = omega arith
big_endian-to (suc k) acc n = omega (
  arith,
  big_endian-to k (acc * 256 + n / 256 ^ k % 256) n,
  mod_split (256 ^ k) n (one-le-pow k 256 (omega arith)),
  ap (λ t. n % t) (pow-suc 256 k),
  ap (λ t. acc * t) (pow-suc 256 k),
)

-- `struct.unpack` reads back what `struct.pack` wrote.
pub unpack-pack : (k n : ℕ) → n < 256 ^ k → unpack k (to_big_endian k n) ≡ ok n
unfolding unpack
unpack-pack k n h =
    rw (length-to_big_endian k n, ==_refl k, big_endian-to k 0 n, mod-eq_of_lt h)
      (ap ok (omega arith))

unpack_q-to : (w : ℕ) → w < 2 ^ 64 → unpack_q (to_big_endian 8 w) ≡ ok (signed64 w)
unfolding unpack_q
unpack_q-to w h =
    rw (length-to_big_endian 8 w, big_endian-to 8 0 w, mod-eq_of_lt h)
      (ap (λ t. ok (signed64 t)) (omega arith))

-- The signed 64-bit field, for every value that fits.
pub unpack_q-pack_q : (v : ℤ) {bytes : Bytes} → pack_q v ≡ ok bytes → unpack_q bytes ≡ ok v
unfolding pack_q
unpack_q-pack_q (pos n) h = ground (arith, unpack_q-to n)
unpack_q-pack_q (negsuc n) h = ground (arith, unpack_q-to (2 ^ 64 - suc n))

pub length-pack_q : (v : ℤ) {bytes : Bytes} → pack_q v ≡ ok bytes → length bytes ≡ 8
unfolding pack_q
length-pack_q (pos n) h = ground (arith, length-to_big_endian 8 n)
length-pack_q (negsuc n) h = ground (arith, length-to_big_endian 8 (2 ^ 64 - suc n))
