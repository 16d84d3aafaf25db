-- ===== src/Protocol/Json.antt =====
-- The values that Python's `json` package reads and prints.
use silkjam.Prelude.{Bool}
use silkjam.Prelude.Int.{ℤ}
use silkjam.Protocol.Result.{Result}
use silkjam.Protocol.Text.{Text}
use silkjam.Protocol.Packet.{JsonCodec}

mutual
  pub data Json : Type 0 where
    null : Json
    boolean : Bool → Json
    number : ℤ → Json
    string : Text → Json
    array : Elements → Json
    object : Members → Json

  pub data Elements : Type 0 where
    no_elements : Elements
    element : Json → Elements → Elements

  -- The items of a `dict`, in order.
  pub data Members : Type 0 where
    no_members : Members
    member : Text → Json → Members → Members

-- A parser and a printer of these values.
abbrev pub codec_of : (Text → Result Json) → (Json → Text) → JsonCodec
codec_of loads dumps = record { Json = Json; loads = loads; dumps = dumps }
