-- ===== src/Protocol/Reader/Prefix.antt =====
-- What the decoders say of the front of a stream, before all of a packet is there.
use silkjam.Prelude.{
  ℕ, ◌+◌, ◌≤◌, ◌<◌, ◌^◌, ◌≡◌, ◌⊎◌, inl, inr, refl, sym, ap, ap₂, ◌∙◌, List, [], ◌∷◌, ◌++◌, length,
  length-append, arith, Bool-cases, ltb, ◌==◌, bit_and, bit_or, ◌*◌, append_assoc,
}
use silkjam.Prelude.Int.{ℤ, pos, pos-+}
use silkjam.Protocol.Result.{ok, err, protocol, incomplete}
use silkjam.Protocol.Bytes.{Bytes}
use silkjam.Protocol.Varint.{signed32, decode_varint_loop, decode_varint}
use silkjam.Protocol.Varint.RoundTrip.{varint, decode-varint}
use silkjam.Protocol.Varint.Limits.{decode_varint-append}
use silkjam.Protocol.Packet.{decode_packet}
use silkjam.Protocol.Packet.Frames.{packet_bytes}
use silkjam.Protocol.Varint.{IsInt32}

abbrev rest_of {ℓ} : {A : Type ℓ} → List A → List A
rest_of [] = []
rest_of (x ∷ xs) = xs

abbrev first_or {ℓ} : {A : Type ℓ} → A → List A → A
first_or a [] = a
first_or a (x ∷ xs) = x

-- A list that is at least as long as the first of two others begins with it.
pub longer_front {ℓ} :
    {A : Type ℓ} (xs ys front back : List A)
    → front ++ back ≡ xs ++ ys
    → length xs ≤ length front
    → (more : List A) × (front ≡ xs ++ more) × (ys ≡ more ++ back)
longer_front [] ys front back e h = (front, refl, sym e)
longer_front (x ∷ xs) ys [] back e h = absurd (omega arith)
longer_front (x ∷ xs) ys (a ∷ front) back e h =
    let (more, e', e'') = longer_front xs ys front back (ap rest_of e) (omega (arith, h)) in
    (more, ap₂ ◌∷◌ (ap (first_or x) e) e', e'')

-- What `decode_varint` may say.
pub data Answer (bytes : Bytes) : Type 0 where
  decoded : (n : ℕ) (v : ℤ) → decode_varint bytes ≡ ok (n, v) → Answer bytes
  wants : decode_varint bytes ≡ err incomplete → Answer bytes
  refuses : decode_varint bytes ≡ err protocol → Answer bytes

loop_answers :
    (bytes : Bytes) (i num : ℕ)
    → ((n : ℕ) × (v : ℤ) × (decode_varint_loop bytes i num ≡ ok (n, v)))
      ⊎ ((decode_varint_loop bytes i num ≡ err incomplete)
          ⊎ (decode_varint_loop bytes i num ≡ err protocol))
unfolding decode_varint_loop
loop_answers [] i num = elim (Bool-cases (ltb 5 (i + 1))) [
  | inl long ↦ inr (inr (rw long refl))
  | inr short ↦ inr (inl (rw short refl))
]
loop_answers (b ∷ bytes) i num = elim (Bool-cases (ltb 5 (i + 1))) [
  | inl long ↦ inr (inr (rw (decode_varint_loop, long) refl))
  | inr short ↦ elim (Bool-cases (bit_and b 0x80 == 0)) [
    | inl last ↦ inl (
      i + 1,
      signed32 (bit_and (bit_or num (bit_and b 0x7f * 2 ^ (7 * i))) 0xffff_ffff),
      rw (decode_varint_loop, short, last) refl,
    )
    | inr goes_on ↦
        rw (decode_varint_loop, short, goes_on)
          (loop_answers bytes (i + 1) (bit_or num (bit_and b 0x7f * 2 ^ (7 * i))))
  ]
]

pub decode_varint-Answer : (bytes : Bytes) → Answer bytes
unfolding decode_varint
decode_varint-Answer bytes = elim (loop_answers bytes 0 0) [
  | inl (n, v, e) ↦ decoded n v e
  | inr (inl e) ↦ wants e
  | inr (inr e) ↦ refuses e
]

loop_refuses :
    (bytes more : Bytes) (i num : ℕ)
    → decode_varint_loop bytes i num ≡ err protocol
    → decode_varint_loop (bytes ++ more) i num ≡ err protocol
unfolding decode_varint_loop
loop_refuses [] [] i num e = e
loop_refuses [] (c ∷ more) i num e = ground (arith, e)
loop_refuses (b ∷ bytes) more i num e =
    ground (arith, loop_refuses bytes more (i + 1) (bit_or num (bit_and b 0x7f * 2 ^ (7 * i))), e)

-- The front of a framed packet that is not all there.
module _ (id : ℤ) (payload rest front back : Bytes)
    (e : front ++ back ≡ packet_bytes id payload ++ rest) (ok_id : IsInt32 id)
    (fits : length (varint id) + length payload < 2 ^ 31) where
  abbrev size : ℕ
  size = length (varint id) + length payload

  framed :
      decode_varint (packet_bytes id payload ++ rest) ≡ ok (length (varint (pos size)), pos size)
  framed =
      ap decode_varint (append_assoc (varint (pos size)) (varint id ++ payload) rest)
      ∙ decode-varint (pos size) ((varint id ++ payload) ++ rest) (omega (arith, fits))

  -- The length is not there, or it is that of the packet.
  pub length_or_more :
      (decode_varint front ≡ err incomplete)
      ⊎ (decode_varint front ≡ ok (length (varint (pos size)), pos size))
  unfolding decode_varint decode_varint_loop
  length_or_more = elim (decode_varint-Answer front) [
    | wants d ↦ inl d
    | decoded n v d ↦
        inr (d ∙ sym (decode_varint-append front back n v d) ∙ ap decode_varint e ∙ framed)
    | refuses d ↦
        absurd (ground (arith, sym (loop_refuses front back 0 0 d) ∙ ap decode_varint e ∙ framed))
  ]

  -- Before all of the packet is there, more is wanted.
  pub decode_packet-wants :
      length front < length (packet_bytes id payload) → decode_packet front ≡ err incomplete
  unfolding decode_packet
  decode_packet-wants short = elim length_or_more [
    | inl d ↦ rw (d) refl
    | inr d ↦ ground (
      arith,
      d,
      pos-+ (length (varint (pos size))) size,
      length-append (varint (pos size)) (varint id ++ payload),
      length-append (varint id) payload,
      short,
    )
  ]
