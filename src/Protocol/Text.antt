-- ===== src/Protocol/Text.antt =====
-- `str.encode` and `str(data, encoding)` as app/backend/core/protocol.py uses them: UTF-8 and
-- big-endian UTF-16, both strict. A text is the list of its code points.
pub mod RoundTrip
use silkjam.Prelude.{
  ℕ, zero, suc, ◌+◌, ◌-◌, ◌*◌, ◌/◌, ◌%◌, ◌≤◌, ◌<◌, Bool, true, false, ◌&&◌, ◌||◌, ◌⊎◌, Option, none,
  some, List, [], ◌∷◌, ◌++◌, length, ltb, leb, if◌then◌else◌,
}
use silkjam.Protocol.Result.{Result, ok, err, unicode_error, ◌>>=◌}
use silkjam.Protocol.Bytes.{Bytes}

abbrev pub Text : Type 0
Text = List ℕ

-- The code points that an encoding writes: all but the surrogates.
abbrev pub IsScalar : ℕ → Type 0
IsScalar c = ((c < 0xd800) ⊎ (0xe000 ≤ c)) × (c < 0x11_0000)

abbrev is_surrogate : ℕ → Bool
is_surrogate c = leb 0xd800 c && ltb c 0xe000

unfoldable pub utf8_bytes : ℕ → Bytes
utf8_bytes c =
    if ltb c 0x80
    then c ∷ []
    else if ltb c 0x800
    then (0xc0 + c / 64) ∷ (0x80 + c % 64) ∷ []
    else if ltb c 0x1_0000
    then (0xe0 + c / 4096) ∷ (0x80 + c / 64 % 64) ∷ (0x80 + c % 64) ∷ []
    else (0xf0 + c / 262144) ∷ (0x80 + c / 4096 % 64) ∷ (0x80 + c / 64 % 64) ∷ (0x80 + c % 64) ∷ []

unfoldable pub utf16_bytes : ℕ → Bytes
utf16_bytes c =
    if ltb c 0x1_0000
    then (c / 256) ∷ (c % 256) ∷ []
    else let high = 0xd800 + (c - 0x1_0000) / 1024 in
      let low = 0xdc00 + (c - 0x1_0000) % 1024 in
      (high / 256) ∷ (high % 256) ∷ (low / 256) ∷ (low % 256) ∷ []

-- An encoder over the characters of a text; a surrogate raises `UnicodeEncodeError`.
unfoldable pub encode_text : (ℕ → Bytes) → Text → Result Bytes
encode_text char [] = ok []
encode_text char (c ∷ cs) = do
  rest ← encode_text char cs
  if is_surrogate c then err unicode_error else ok (char c ++ rest)

-- The continuation bytes of UTF-8.
abbrev follows : ℕ → Bool
follows b = leb 0x80 b && ltb b 0xc0

two_bytes : ℕ → Bytes → Option (ℕ × Bytes)
two_bytes a (b ∷ rest) = if follows b then some ((a - 0xc0) * 64 + (b - 0x80), rest) else none
two_bytes a _ = none

three_bytes : ℕ → Bytes → Option (ℕ × Bytes)
three_bytes a (b ∷ c ∷ rest) =
    let v = (a - 0xe0) * 4096 + (b - 0x80) * 64 + (c - 0x80) in
    if follows b && (follows c && leb 0x800 v) && (ltb v 0xd800 || leb 0xe000 v)
    then some (v, rest)
    else none
three_bytes a _ = none

four_bytes : ℕ → Bytes → Option (ℕ × Bytes)
four_bytes a (b ∷ c ∷ d ∷ rest) =
    let v = (a - 0xf0) * 262144 + (b - 0x80) * 4096 + (c - 0x80) * 64 + (d - 0x80) in
    if follows b && (follows c && follows d) && (leb 0x1_0000 v && ltb v 0x11_0000)
    then some (v, rest)
    else none
four_bytes a _ = none

-- The next character of a UTF-8 text, with the bytes behind it.
unfoldable pub utf8_next : Bytes → Option (ℕ × Bytes)
unfolding two_bytes three_bytes four_bytes
utf8_next [] = none
utf8_next (a ∷ rest) =
    if ltb a 0x80
    then some (a, rest)
    else if ltb a 0xc2
    then none
    else if ltb a 0xe0
    then two_bytes a rest
    else if ltb a 0xf0
    then three_bytes a rest
    else if ltb a 0xf5
    then four_bytes a rest
    else none

low_unit : ℕ → Bytes → Option (ℕ × Bytes)
low_unit high (c ∷ d ∷ rest) =
    let low = c * 256 + d in
    if leb 0xdc00 low && ltb low 0xe000
    then some (0x1_0000 + (high - 0xd800) * 1024 + (low - 0xdc00), rest)
    else none
low_unit high _ = none

unfoldable pub utf16_next : Bytes → Option (ℕ × Bytes)
unfolding low_unit
utf16_next (a ∷ b ∷ rest) =
    let unit = a * 256 + b in
    if ltb unit 0xd800 || leb 0xe000 unit
    then some (unit, rest)
    else if ltb unit 0xdc00
    then low_unit unit rest
    else none
utf16_next _ = none

-- A decoder: each character takes a byte at least, so as many rounds as bytes are enough.
unfoldable pub decode_loop : (Bytes → Option (ℕ × Bytes)) → ℕ → Bytes → Result Text
decode_loop next fuel [] = ok []
decode_loop next zero (b ∷ bytes) = err unicode_error
decode_loop next (suc fuel) (b ∷ bytes) = elim (next (b ∷ bytes)) [
  | none ↦ err unicode_error
  | some (c, rest) ↦ do cs ← decode_loop next fuel rest; ok (c ∷ cs)
]

unfoldable pub decode_text : (Bytes → Option (ℕ × Bytes)) → Bytes → Result Text
unfolding decode_loop
decode_text next bytes = decode_loop next (length bytes) bytes

abbrev pub encode_utf8 : Text → Result Bytes
encode_utf8 = encode_text utf8_bytes

abbrev pub decode_utf8 : Bytes → Result Text
decode_utf8 = decode_text utf8_next

abbrev pub encode_utf16 : Text → Result Bytes
encode_utf16 = encode_text utf16_bytes

abbrev pub decode_utf16 : Bytes → Result Text
decode_utf16 = decode_text utf16_next
