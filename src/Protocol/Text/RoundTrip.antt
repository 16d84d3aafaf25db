-- ===== src/Protocol/Text/RoundTrip.antt =====
-- Decoding reads back what encoding wrote, for every text without surrogates.
use silkjam.Prelude.{
  ℕ, zero, suc, ◌*◌, ◌≤◌, ◌<◌, ◌≡◌, refl, Option, some, [], ◌∷◌, ◌++◌, length, length-append, All,
  arith,
}
use silkjam.Protocol.Result.{ok}
use silkjam.Protocol.Bytes.{Bytes}
use silkjam.Protocol.Text.{
  Text, IsScalar, utf8_bytes, utf16_bytes, encode_text, utf8_next, utf16_next, decode_loop,
  decode_text, encode_utf8, decode_utf8, encode_utf16, decode_utf16,
}

pub utf8_next-bytes :
    (c : ℕ) (rest : Bytes) → IsScalar c → utf8_next (utf8_bytes c ++ rest) ≡ some (c, rest)
unfolding utf8_next utf8_bytes
utf8_next-bytes c rest h = ground arith

pub utf16_next-bytes :
    (c : ℕ) (rest : Bytes) → IsScalar c → utf16_next (utf16_bytes c ++ rest) ≡ some (c, rest)
unfolding utf16_next utf16_bytes
utf16_next-bytes c rest h = ground arith

-- The bytes of a text, character by character.
abbrev pub text_bytes : (ℕ → Bytes) → Text → Bytes
text_bytes char [] = []
text_bytes char (c ∷ cs) = char c ++ text_bytes char cs

pub encode_text-bytes :
    (char : ℕ → Bytes) (s : Text) → All IsScalar s → encode_text char s ≡ ok (text_bytes char s)
unfolding encode_text
encode_text-bytes char [] h = refl
encode_text-bytes char (c ∷ cs) h = ground (arith, encode_text-bytes char cs h.1)

module _ (char : ℕ → Bytes) (next : Bytes → Option (ℕ × Bytes))
    (reads : (c : ℕ) (rest : Bytes) → IsScalar c → next (char c ++ rest) ≡ some (c, rest))
    (grows : (c : ℕ) → 1 ≤ length (char c)) where
  step :
      (fuel : ℕ) (bs rest : Bytes) (c : ℕ) {s : Text}
      → 1 ≤ length bs
      → next bs ≡ some (c, rest)
      → decode_loop next fuel rest ≡ ok s
      → decode_loop next (suc fuel) bs ≡ ok (c ∷ s)
  unfolding decode_loop
  step fuel [] rest c h e ih = absurd (omega arith)
  step fuel (b ∷ bs) rest c h e ih = rw (e, decode_loop) (rw ih)

  decode_loop-bytes :
      (s : Text) (fuel : ℕ)
      → All IsScalar s
      → length (text_bytes char s) ≤ fuel
      → decode_loop next fuel (text_bytes char s) ≡ ok s
  decode_loop-bytes [] fuel h hf = unfold decode_loop in refl
  decode_loop-bytes (c ∷ cs) zero h hf =
      absurd (omega (arith, grows c, length-append (char c) (text_bytes char cs)))
  decode_loop-bytes (c ∷ cs) (suc fuel) h hf =
      step fuel _ (text_bytes char cs) c
        (omega (arith, grows c, length-append (char c) (text_bytes char cs)))
        (reads c (text_bytes char cs) h.0)
        (decode_loop-bytes cs fuel h.1
          (omega (arith, grows c, length-append (char c) (text_bytes char cs))))

  decode_text-bytes : (s : Text) → All IsScalar s → decode_text next (text_bytes char s) ≡ ok s
  unfolding decode_text
  decode_text-bytes s h = decode_loop-bytes s _ h (omega arith)

utf8_bytes_grow : (c : ℕ) → 1 ≤ length (utf8_bytes c)
unfolding utf8_bytes
utf8_bytes_grow c = ground arith

utf16_bytes_grow : (c : ℕ) → 1 ≤ length (utf16_bytes c)
unfolding utf16_bytes
utf16_bytes_grow c = ground arith

pub decode_utf8-bytes : (s : Text) → All IsScalar s → decode_utf8 (text_bytes utf8_bytes s) ≡ ok s
decode_utf8-bytes = decode_text-bytes utf8_bytes utf8_next utf8_next-bytes utf8_bytes_grow

pub decode_utf16-bytes :
    (s : Text) → All IsScalar s → decode_utf16 (text_bytes utf16_bytes s) ≡ ok s
decode_utf16-bytes = decode_text-bytes utf16_bytes utf16_next utf16_next-bytes utf16_bytes_grow

-- A text below the supplementary planes takes two bytes a character.
pub length-utf16_bytes :
    (s : Text) → All (λ c. c < 0x1_0000) s → length (text_bytes utf16_bytes s) ≡ length s * 2
unfolding utf16_bytes
length-utf16_bytes [] h = refl
length-utf16_bytes (c ∷ cs) h = ground (arith, length-utf16_bytes cs h.1)

-- A text without surrogates is encoded in UTF-8 and in UTF-16, and each decoder gives the text back.
pub text_round_trip :
    (s : Text)
    → All IsScalar s
    → (narrow wide : Bytes) × (encode_utf8 s ≡ ok narrow)
      × (encode_utf16 s ≡ ok wide)
      × (decode_utf8 narrow ≡ ok s)
      × (decode_utf16 wide ≡ ok s)
text_round_trip s h = (
  text_bytes utf8_bytes s,
  text_bytes utf16_bytes s,
  encode_text-bytes utf8_bytes s h,
  encode_text-bytes utf16_bytes s h,
  decode_utf8-bytes s h,
  decode_utf16-bytes s h,
)
