-- ===== src/Base/Payload.antt =====
-- JSON values: the `dict` payloads of runs, events and attempts.
use Prim.Native.Nat.{ℕ}
use Prim.Native.String.{String}

mutual
  pub data Json : Type 0 where
    null : Json
    number : ℕ → Json
    text : String → Json
    object : Fields → Json

  pub data Fields : Type 0 where
    end : Fields
    field : String → Json → Fields → Fields

-- `{}`
abbrev pub empty_payload : Json
empty_payload = object end

-- `{name: value}`
abbrev pub payload_of : String → Json → Json
payload_of name value = object (field name value end)
