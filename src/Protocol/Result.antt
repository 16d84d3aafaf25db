-- ===== src/Protocol/Result.antt =====
-- The exceptions that app/backend/core/protocol.py raises, by class. Messages and the offending
-- data are left out: nothing reads them but the log.
use silkjam.Prelude.{Bool, true, false, if◌then◌else◌}

-- `endless` is no exception: the loop of `encode_varint` does not end.
pub data Error : Type 0 where
  protocol incomplete struct_error unicode_error json_error connection_reset value_error : Error
  endless : Error

-- The outcome of a call: an exception, or what it returns.
pub data Result {ℓ} (Value : Type ℓ) : Type ℓ where
  err : Error → Result Value
  ok : Value → Result Value

-- `if test: raise e`
abbrev pub raise_if : Bool → Error → Result (Unit {0})
raise_if false e = ok tt
raise_if true e = err e

infixl 5 ◌>>=◌ ◌>>◌
abbrev pub ◌>>=◌ {ℓ κ} :
    {Value : Type ℓ} {Next : Type κ} → Result Value → (Value → Result Next) → Result Next
err raised >>= rest = err raised
ok value >>= rest = rest value

abbrev pub ◌>>◌ {ℓ} : {Next : Type ℓ} → Result (Unit {0}) → Result Next → Result Next
check >> rest = check >>= λ _. rest

-- `except caught as err: raise MCProtocolError(...) from err`
abbrev pub rewrap {ℓ} : {A : Type ℓ} → (Error → Bool) → Result A → Result A
rewrap caught (ok a) = ok a
rewrap caught (err e) = if caught e then err protocol else err e
