-- ===== src/Protocol/Packet/Login.antt =====
-- Login Start packets: which fields each protocol version has, and the round trip.
use silkjam.Prelude.{
  ◌+◌, ◌^◌, ◌<◌, ◌≡◌, refl, ap, true, false, Option, none, some, [], ◌++◌, append_assoc, length,
  length-append, arith, if◌then◌else◌, Bool-cases, inl, inr,
}
use silkjam.Prelude.Int.{ℤ, pos, pos-+, -ℤ_parts, ltb_ℤ}
use silkjam.Protocol.Result.{ok}
use silkjam.Protocol.Bytes.{Bytes}
use silkjam.Protocol.Bytes.Laws.{slice-append, slice_from-append}
use silkjam.Protocol.Text.{Text}
use silkjam.Protocol.Varint.RoundTrip.{length-varint}
use silkjam.Protocol.Packet.{
  Packet, LoginStart, decode_string, decode_packet, uuid, decode_login_start_packet,
  encode_login_start_packet, or_empty,
}
use silkjam.Protocol.Packet.Frames.{
  IsSendable, string_bytes, packet_bytes, encode_string-bytes, encode_packet-bytes,
  decode_string-bytes, decode_packet-bytes,
}

-- The fields that a client of this version sends: nothing but the name before 759, unread bytes
-- from there on, and a UUID in front of them from 764 on.
abbrev pub HasFields : ℤ → LoginStart → Type 0
HasFields version l =
    if ltb_ℤ version (pos 759)
    then (l.player_id ≡ none) × (l.extra_data ≡ [])
    else if ltb_ℤ version (pos 764)
    then l.player_id ≡ none
    else ((id : Bytes) × (l.player_id ≡ some id) × (length id ≡ 16))

abbrev pub login_payload : LoginStart → Bytes
login_payload l = string_bytes l.username ++ (or_empty l.player_id ++ l.extra_data)

pub record IsLogin (version : ℤ) (l : LoginStart) : Type 0 where
  pub fields : HasFields version l
  pub name : IsSendable l.username
  pub fits : length (login_payload l) + 5 < 2 ^ 31

-- What `decode_string` reads off a payload that begins with the name.
name_first :
    (u : Text) (tail : Bytes)
    → IsSendable u
    → decode_string (string_bytes u ++ tail) ≡ ok (pos (length (string_bytes u)), u)
name_first u tail h = decode_string-bytes u tail h

module _ (n version : ℤ) (u : Text) (sendable : IsSendable u) where
  abbrev pub login_packet : Bytes → Packet
  login_packet tail = record { size = n; id = pos 0; payload = string_bytes u ++ tail }

  decode_plain :
      ltb_ℤ version (pos 759) ≡ true
      → decode_login_start_packet (login_packet []) version
        ≡ ok (n, record { username = u; player_id = none; extra_data = [] })
  unfolding decode_login_start_packet
  decode_plain old = ground (arith, name_first u [] sendable, length-append (string_bytes u) [])

  decode_opaque :
      (extra : Bytes)
      → ltb_ℤ version (pos 759) ≡ false
      → ltb_ℤ version (pos 764) ≡ true
      → decode_login_start_packet (login_packet extra) version
        ≡ ok (n, record { username = u; player_id = none; extra_data = extra })
  unfolding decode_login_start_packet
  decode_opaque extra new old =
      ground (arith, name_first u extra sendable, slice_from-append (string_bytes u) extra _ refl)

  decode_identified :
      (id extra : Bytes)
      → ltb_ℤ version (pos 759) ≡ false
      → ltb_ℤ version (pos 764) ≡ false
      → length id ≡ 16
      → decode_login_start_packet (login_packet (id ++ extra)) version
        ≡ ok (n, record { username = u; player_id = some id; extra_data = extra })
  unfolding decode_login_start_packet uuid
  decode_identified id extra new newer size = ground (
    arith,
    name_first u (id ++ extra) sendable,
    length-append a (id ++ extra),
    length-append id extra,
    pos-+ (length a) 16,
    -ℤ_parts (pos (length (a ++ (id ++ extra)))) (pos (length a)),
    slice-append a id extra (pos (length a)) (pos (length a + 16)) refl (ap pos end),
    slice_from-append (a ++ id) extra (pos (length a + 16)) (ap pos whole),
    append_assoc a id extra,
  )
    where
      a : Bytes
      a = string_bytes u

      end : length a + 16 ≡ length a + length id
      end = omega arith

      whole : length a + 16 ≡ length (a ++ id)
      whole = omega (arith, length-append a id)

  pub decode_login-payload :
      (id : Option Bytes) (extra : Bytes)
      → HasFields version (record { username = u; player_id = id; extra_data = extra })
      → decode_login_start_packet (login_packet (or_empty id ++ extra)) version
        ≡ ok (n, record { username = u; player_id = id; extra_data = extra })
  decode_login-payload none extra h = elim (Bool-cases (ltb_ℤ version (pos 759))) [
    | inl old ↦ let e : extra ≡ [] = ground arith in rw e (decode_plain old)
    | inr new ↦ elim (Bool-cases (ltb_ℤ version (pos 764))) [
      | inl older ↦ decode_opaque extra new older
      | inr newer ↦ absurd (ground arith)
    ]
  ]
  decode_login-payload (some id) extra h = elim (Bool-cases (ltb_ℤ version (pos 759))) [
    | inl old ↦ absurd (ground arith)
    | inr new ↦ elim (Bool-cases (ltb_ℤ version (pos 764))) [
      | inl older ↦ absurd (ground arith)
      | inr newer ↦ decode_identified id extra new newer (ground arith)
    ]
  ]

pub encode_login-bytes :
    (version : ℤ) (l : LoginStart)
    → IsLogin version l
    → encode_login_start_packet l.username l.player_id l.extra_data
      ≡ ok (packet_bytes (pos 0) (login_payload l))
unfolding encode_login_start_packet
encode_login-bytes version l h = ground (
  arith,
  encode_string-bytes l.username h.name,
  encode_packet-bytes (pos 0) (login_payload l) (omega arith)
      (omega (arith, length-varint (pos 0), h.fits)),
)

-- For every protocol version, the Login Start packet that the proxy sends on is read back with the
-- name, the UUID and the unread bytes that went in, if they are the fields of that version.
pub login_round_trip :
    (version : ℤ) (l : LoginStart) (rest : Bytes)
    → IsLogin version l
    → (bytes : Bytes) × (p : Packet) × (encode_login_start_packet l.username l.player_id
          l.extra_data
        ≡ ok bytes)
      × (decode_packet (bytes ++ rest) ≡ ok p)
      × (decode_login_start_packet p version ≡ ok (pos (length bytes), l))
login_round_trip version l rest h = (
  packet_bytes (pos 0) (login_payload l),
  _,
  encode_login-bytes version l h,
  decode_packet-bytes (pos 0) (login_payload l) rest (omega arith)
      (omega (arith, length-varint (pos 0), h.fits)),
  decode_login-payload _ version l.username h.name l.player_id l.extra_data h.fields,
)
