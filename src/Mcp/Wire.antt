-- ===== src/Mcp/Wire.antt =====
-- crates/gobrowse-core/src/mcp/wire.rs: request identifiers.
use Prim.Native.String.{String, len, compare as compare_text}
use gobrowseos.Prelude.{ℕ, ◌||◌, ltb, ◌==◌, if◌then◌else◌, Ordering, ℤ, compare_ℤ, Result, ok, err}

abbrev pub max_id_bytes : ℕ
max_id_bytes = 128

-- `WireError::InvalidId`, the one error that `validate` returns.
pub data IdError : Type 0 where
  invalid_id : IdError

pub data RequestId : Type 0 where
  number : ℤ → RequestId
  text : String → RequestId

unfoldable pub validate : RequestId → Result (Unit {0}) IdError
validate (number n) = ok tt
validate (text value) =
    if len value == 0 || ltb max_id_bytes (len value) then err invalid_id else ok tt

-- The derived order, which agrees with the derived equality: numbers stand before texts.
abbrev pub id_compare : RequestId → RequestId → Ordering
id_compare (number a) (number b) = compare_ℤ a b
id_compare (number a) (text b) = Ordering.lt
id_compare (text a) (number b) = Ordering.gt
id_compare (text a) (text b) = compare_text a b
