-- ===== src/Protocol/Legacy/RoundTrip.antt =====
-- `decode_legacy_ping` reads back what `encode_legacy_ping` wrote, and where it does not.
use silkjam.Prelude.{
  ℕ, ◌+◌, ◌*◌, ◌^◌, ◌≤◌, ◌<◌, ◌≡◌, refl, ap, ◌∙◌, ◌⊎◌, [], ◌∷◌, ◌++◌, append_assoc, length,
  length-append, All, lt→ltb, arith,
}
use silkjam.Prelude.Int.{pos}
use silkjam.Protocol.Result.{ok}
use silkjam.Protocol.Bytes.{Bytes, slice, slice_from, bytes_eq, to_big_endian, unpack, pack}
use silkjam.Protocol.Bytes.Laws.{slice-append, slice_from-append, unpack-pack, length-to_big_endian}
use silkjam.Protocol.Text.{Text, IsScalar, utf16_bytes, encode_utf16, decode_utf16}
use silkjam.Protocol.Text.RoundTrip.{
  text_bytes, encode_text-bytes, decode_utf16-bytes, length-utf16_bytes,
}
use silkjam.Protocol.Legacy.{
  LegacyPingRequest, header, channel, decode_legacy_fields, decode_legacy_ping, encode_legacy_ping,
}

abbrev IsBasic : ℕ → Type 0
IsBasic c = ((c < 0xd800) ⊎ (0xe000 ≤ c)) × (c < 0x1_0000)

-- A request that `encode_legacy_ping` accepts, with a hostname of the basic plane.
pub record IsLegacyPing (r : LegacyPingRequest) : Type 0 where
  pub version : r.protocol_version < 256
  pub name : All IsBasic r.hostname
  pub size : length r.hostname * 2 + 7 < 2 ^ 16
  pub port : r.port < 2 ^ 32

-- The bytes of the channel name.
channel_bytes : Bytes
channel_bytes = text_bytes utf16_bytes channel

length-channel_bytes : length channel_bytes ≡ 22
unfolding channel_bytes utf16_bytes
length-channel_bytes = refl

abbrev ping_bytes : LegacyPingRequest → Bytes
ping_bytes r =
    let name : Bytes = text_bytes utf16_bytes r.hostname in
    header
    ++ (to_big_endian 2 11
        ++ (channel_bytes
            ++ (to_big_endian 2 (length name + 7)
                ++ (to_big_endian 1 r.protocol_version
                    ++ (to_big_endian 2 (length r.hostname) ++ (name ++ to_big_endian 4 r.port))))))

lens_append : (xs ys : Bytes) → length (xs ++ ys) ≡ length xs + length ys
lens_append = length-append

ruleset lens = (arith, lens_append)

-- A slice of a string that is given in three parts.
slice_at :
    (xs ys zs : Bytes) {bytes : Bytes} {i j : ℕ}
    → bytes ≡ xs ++ (ys ++ zs)
    → i ≡ length xs
    → j ≡ i + length ys
    → slice bytes (pos i) (pos j) ≡ ys
slice_at xs ys zs e hi hj = rw e (slice-append xs ys zs _ _ (ap pos hi) (ap pos (omega arith)))

-- The fields at their places, with `h` characters of hostname.
decode_fields_of :
    (bytes : Bytes) (r : LegacyPingRequest) (remaining h : ℕ)
    → unpack 2 (slice bytes (pos 3) (pos 5)) ≡ ok 11
    → decode_utf16 (slice bytes (pos 5) (pos 27)) ≡ ok channel
    → unpack 2 (slice bytes (pos 27) (pos 29)) ≡ ok remaining
    → remaining ≤ length (slice_from bytes (pos 29))
    → unpack 1 (slice bytes (pos 29) (pos 30)) ≡ ok r.protocol_version
    → unpack 2 (slice bytes (pos 30) (pos 32)) ≡ ok h
    → decode_utf16 (slice bytes (pos 32) (pos (32 + h * 2))) ≡ ok r.hostname
    → unpack 4 (slice bytes (pos (32 + h * 2)) (pos (32 + h * 2 + 4))) ≡ ok r.port
    → decode_legacy_fields bytes ≡ ok (32 + h * 2 + 4, r)
unfolding decode_legacy_fields bytes_eq
decode_fields_of bytes r remaining h e1 e2 e3 le e4 e5 e6 e7 = rw e1 (rw e2 (rw e3 (ground arith)))

module _ (a b c m v q name p rest : Bytes) (ha : length a ≡ 3) (hb : length b ≡ 2)
    (hc : length c ≡ 22) (hm : length m ≡ 2) (hv : length v ≡ 1) (hq : length q ≡ 2)
    (hp : length p ≡ 4) where
  abbrev whole : Bytes
  whole = a ++ (b ++ (c ++ (m ++ (v ++ (q ++ (name ++ (p ++ rest)))))))

  abbrev after_q : Bytes
  after_q = name ++ (p ++ rest)

  abbrev after_m : Bytes
  after_m = v ++ (q ++ after_q)

  slice_after_m : slice_from whole (pos 29) ≡ after_m
  slice_after_m =
      ap (λ x. slice_from x (pos 29)) (simp append_assoc)
      ∙ slice_from-append (a ++ (b ++ (c ++ m))) after_m (pos 29) (ap pos (omega lens))

  fields_of :
      (r : LegacyPingRequest) (remaining : ℕ)
      → length name ≡ length r.hostname * 2
      → remaining ≡ length name + 7
      → unpack 2 b ≡ ok 11
      → decode_utf16 c ≡ ok channel
      → unpack 2 m ≡ ok remaining
      → unpack 1 v ≡ ok r.protocol_version
      → unpack 2 q ≡ ok (length r.hostname)
      → decode_utf16 name ≡ ok r.hostname
      → unpack 4 p ≡ ok r.port
      → decode_legacy_fields whole ≡ ok (32 + length r.hostname * 2 + 4, r)
  fields_of r remaining hn hr e1 e2 e3 e4 e5 e6 e7 =
      decode_fields_of whole r remaining (length r.hostname)
        (ap (unpack 2) (slice_at a b (c ++ (m ++ after_m)) refl (omega arith) (omega arith)) ∙ e1)
        (ap decode_utf16
            (slice_at (a ++ b) c (m ++ after_m) (simp append_assoc) (omega lens) (omega arith))
          ∙ e2)
        (ap (unpack 2)
            (slice_at (a ++ (b ++ c)) m after_m (simp append_assoc) (omega lens) (omega arith))
          ∙ e3)
        (rw slice_after_m (omega lens))
        (ap (unpack 1) (
            slice_at (a ++ (b ++ (c ++ m))) v (q ++ after_q) (simp append_assoc) (omega lens)
              (omega arith))
          ∙ e4)
        (ap (unpack 2) (
            slice_at (a ++ (b ++ (c ++ (m ++ v)))) q after_q (simp append_assoc) (omega lens)
              (omega arith))
          ∙ e5)
        (ap decode_utf16 (
            slice_at (a ++ (b ++ (c ++ (m ++ (v ++ q))))) name (p ++ rest) (simp append_assoc)
              (omega lens) (omega arith))
          ∙ e6)
        (ap (unpack 4) (
            slice_at (a ++ (b ++ (c ++ (m ++ (v ++ (q ++ name)))))) p rest (simp append_assoc)
              (omega lens) (omega arith))
          ∙ e7)

decode_legacy_of :
    (tail : Bytes) (n : ℕ) (r : LegacyPingRequest)
    → 26 ≤ length tail
    → decode_legacy_fields (header ++ tail) ≡ ok (n, r)
    → decode_legacy_ping (header ++ tail) ≡ ok (n, r)
unfolding decode_legacy_ping bytes_eq
decode_legacy_of tail n r h e =
    ground (arith, slice_at [] header tail {bytes = header ++ tail} {i = 0} {j = 3} refl refl refl)

IsBasic-IsScalar : (s : Text) → All IsBasic s → All IsScalar s
IsBasic-IsScalar [] h = tt
IsBasic-IsScalar (c ∷ cs) h = (ground arith, IsBasic-IsScalar cs h.1)

IsBasic-narrow : (s : Text) → All IsBasic s → All (λ c. c < 0x1_0000) s
IsBasic-narrow [] h = tt
IsBasic-narrow (c ∷ cs) h = (h.0.1, IsBasic-narrow cs h.1)

encode_basic : (s : Text) → All IsBasic s → encode_utf16 s ≡ ok (text_bytes utf16_bytes s)
encode_basic s h = encode_text-bytes utf16_bytes s (IsBasic-IsScalar s h)

decode_channel : decode_utf16 channel_bytes ≡ ok channel
unfolding channel_bytes
decode_channel = decode_utf16-bytes channel (omega arith)

encode_channel : encode_utf16 channel ≡ ok channel_bytes
unfolding channel_bytes
encode_channel = encode_basic channel (omega arith)

pack_fits : (k n : ℕ) → n < 256 ^ k → pack k n ≡ ok (to_big_endian k n)
unfolding pack
pack_fits k n h = rw (lt→ltb n (256 ^ k) h)

length-ping_fields :
    (v q name p : Bytes)
    → length v ≡ 1
    → length q ≡ 2
    → length p ≡ 4
    → length (v ++ (q ++ (name ++ p))) ≡ length name + 7
length-ping_fields v q name p hv hq hp = omega lens

module _ (r : LegacyPingRequest) (h : IsLegacyPing r) where
  abbrev name : Bytes
  name = text_bytes utf16_bytes r.hostname

  abbrev remaining : ℕ
  remaining = length name + 7

  abbrev wide : (k n : ℕ) → length (to_big_endian k n) ≡ k
  wide = length-to_big_endian

  length-name : length name ≡ length r.hostname * 2
  length-name = length-utf16_bytes r.hostname (IsBasic-narrow r.hostname h.name)

  fields_size :
      length (
        to_big_endian 1 r.protocol_version
        ++ (to_big_endian 2 (length r.hostname) ++ (name ++ to_big_endian 4 r.port)))
      ≡ remaining
  fields_size =
      length-ping_fields (to_big_endian 1 r.protocol_version) (to_big_endian 2 (length r.hostname))
        name (to_big_endian 4 r.port) (wide 1 _) (wide 2 _) (wide 4 _)

  encode_legacy-bytes : encode_legacy_ping r.protocol_version r.hostname r.port ≡ ok (ping_bytes r)
  unfolding encode_legacy_ping
  encode_legacy-bytes = rw (pack_fits 2 11 (omega arith)) (
      rw encode_channel (
        rw (pack_fits 1 r.protocol_version h.version) (
          rw (pack_fits 2 (length r.hostname) (omega (arith, h.size))) (
            rw (encode_basic r.hostname h.name) (
              rw (pack_fits 4 r.port h.port) (
                rw fields_size
                  (rw (pack_fits 2 remaining (omega (arith, h.size, length-name))))))))))

  decode_legacy-bytes :
      (rest : Bytes) → decode_legacy_ping (ping_bytes r ++ rest) ≡ ok (length (ping_bytes r), r)
  decode_legacy-bytes rest =
      ap decode_legacy_ping shape
      ∙ decode_legacy_of tail (32 + length r.hostname * 2 + 4) r
          (omega (lens, wide 2 11, length-channel_bytes, wide 2 remaining))
          (fields_of header b channel_bytes m v q name p rest refl (wide 2 _) length-channel_bytes
            (wide 2 _) (wide 1 _) (wide 2 _) (wide 4 _) r remaining length-name refl
            (unpack-pack 2 11 (omega arith)) decode_channel
            (unpack-pack 2 remaining (omega (arith, h.size, length-name)))
            (unpack-pack 1 r.protocol_version h.version)
            (unpack-pack 2 (length r.hostname) (omega (arith, h.size)))
            (decode_utf16-bytes r.hostname (IsBasic-IsScalar r.hostname h.name))
            (unpack-pack 4 r.port h.port))
      ∙ ap (λ n. ok (n, r)) total
    where
      b : Bytes
      b = to_big_endian 2 11

      m : Bytes
      m = to_big_endian 2 remaining

      v : Bytes
      v = to_big_endian 1 r.protocol_version

      q : Bytes
      q = to_big_endian 2 (length r.hostname)

      p : Bytes
      p = to_big_endian 4 r.port

      tail : Bytes
      tail = b ++ (channel_bytes ++ (m ++ (v ++ (q ++ (name ++ (p ++ rest))))))

      shape : ping_bytes r ++ rest ≡ header ++ tail
      shape = simp append_assoc

      total : 32 + length r.hostname * 2 + 4 ≡ length (ping_bytes r)
      total =
          omega (lens, wide 2 11, length-channel_bytes, wide 2 remaining, fields_size, length-name)

-- On every request that `encode_legacy_ping` accepts with a hostname of the basic plane, the ping is
-- read back, with the number of its bytes, whatever follows.
pub legacy_round_trip :
    (r : LegacyPingRequest) (rest : Bytes)
    → IsLegacyPing r
    → (bytes : Bytes) × (encode_legacy_ping r.protocol_version r.hostname r.port ≡ ok bytes)
      × (decode_legacy_ping (bytes ++ rest) ≡ ok (length bytes, r))
legacy_round_trip r rest h = (ping_bytes r, encode_legacy-bytes r h, decode_legacy-bytes r h rest)
