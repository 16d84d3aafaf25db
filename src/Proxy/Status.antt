-- ===== src/Proxy/Status.antt =====
-- What a proxy shows clients of a server that does not run: app/backend/core/proxy.py and the
-- properties of `MCBackend` in app/backend/core/backend.py.
use silkjam.Prelude.{ℕ, Bool, true, false, Option, none, some, [], ◌∷◌, length, ◌==◌, if◌then◌else◌}
use silkjam.Prelude.Int.{ℤ, pos}
use silkjam.Protocol.Text.{Text}
use silkjam.Protocol.Json.{
  Json, Members, number, string, array, object, no_elements, no_members, member,
}

-- What a client is shown of a backend.
pub record Shown : Type 0 where
  pub version_name : Text
  pub version_protocol : ℕ
  pub motd : Text
  pub max_players : ℕ
  pub online_players : ℤ
  pub icon : Option Text
  pub waking_kick_msg : Text

-- `MCBackend.motd`: an empty text for the sleeping server counts as none.
abbrev pub shown_motd : Bool → Text → Option Text → Text
shown_motd true motd sleep_motd = motd
shown_motd false motd none = 0xa7 ∷ b'e' ∷ motd
shown_motd false motd (some sleep_motd) =
    if length sleep_motd == 0 then 0xa7 ∷ b'e' ∷ motd else sleep_motd

abbrev favicon : Option Text → Members
favicon none = no_members
favicon (some icon) =
    member (b'f' ∷ b'a' ∷ b'v' ∷ b'i' ∷ b'c' ∷ b'o' ∷ b'n' ∷ []) (string icon) no_members

abbrev version_key : Text
version_key = b'v' ∷ b'e' ∷ b'r' ∷ b's' ∷ b'i' ∷ b'o' ∷ b'n' ∷ []

abbrev players_key : Text
players_key = b'p' ∷ b'l' ∷ b'a' ∷ b'y' ∷ b'e' ∷ b'r' ∷ b's' ∷ []

abbrev description_key : Text
description_key = b'd' ∷ b'e' ∷ b's' ∷ b'c' ∷ b'r' ∷ b'i' ∷ b'p' ∷ b't' ∷ b'i' ∷ b'o' ∷ b'n' ∷ []

abbrev name_key : Text
name_key = b'n' ∷ b'a' ∷ b'm' ∷ b'e' ∷ []

abbrev protocol_key : Text
protocol_key = b'p' ∷ b'r' ∷ b'o' ∷ b't' ∷ b'o' ∷ b'c' ∷ b'o' ∷ b'l' ∷ []

abbrev max_key : Text
max_key = b'm' ∷ b'a' ∷ b'x' ∷ []

abbrev online_key : Text
online_key = b'o' ∷ b'n' ∷ b'l' ∷ b'i' ∷ b'n' ∷ b'e' ∷ []

abbrev sample_key : Text
sample_key = b's' ∷ b'a' ∷ b'm' ∷ b'p' ∷ b'l' ∷ b'e' ∷ []

abbrev text_key : Text
text_key = b't' ∷ b'e' ∷ b'x' ∷ b't' ∷ []

-- `handshake_response_paylod`
unfoldable pub status_payload : Shown → Json
status_payload shown = object (
    member version_key
      (object (
        member name_key (string shown.version_name)
          (member protocol_key (number (pos shown.version_protocol)) no_members)))
      (member players_key
        (object (
          member max_key (number (pos shown.max_players)) (
            member online_key (number shown.online_players)
              (member sample_key (array no_elements) no_members))))
        (member description_key (object (member text_key (string shown.motd) no_members))
          (favicon shown.icon))))

abbrev pub kick_payload : Shown → Json
kick_payload shown = object (member text_key (string shown.waking_kick_msg) no_members)
