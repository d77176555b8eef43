-- ===== src/Mcp/Era.antt =====
-- crates/gobrowse-core/src/mcp.rs: the protocol eras and the choice of one that a server shares.
pub mod Selection
use Prim.Native.String.{String}
use text.Mathlib.Text.{◌==◌}
use gobrowseos.Prelude.{
  Bool, true, false, Option, none, some, List, [], ◌∷◌, any, if◌then◌else◌, Result, ok, err,
}

pub data McpProtocolEra : Type 0 where
  modern20260728 legacy20251125 legacy20250618 legacy20250326 legacy20241105 : McpProtocolEra

abbrev pub current_protocol_version : String
current_protocol_version = "2026-07-28"

-- `SUPPORTED_PROTOCOL_ERAS`, in local preference order.
abbrev pub supported_protocol_eras : List McpProtocolEra
supported_protocol_eras = modern20260728 ∷ legacy20251125 ∷ []

unfoldable pub wire_version : McpProtocolEra → String
wire_version modern20260728 = current_protocol_version
wire_version legacy20251125 = "2025-11-25"
wire_version legacy20250618 = "2025-06-18"
wire_version legacy20250326 = "2025-03-26"
wire_version legacy20241105 = "2024-11-05"

-- `iter().find(..)`.
abbrev pub find_era : (McpProtocolEra → Bool) → List McpProtocolEra → Option McpProtocolEra
find_era p [] = none
find_era p (e ∷ es) = let rest = find_era p es in if p e then some e else rest

unfoldable pub from_wire_version : String → Option McpProtocolEra
unfolding wire_version
from_wire_version version = find_era (λ e. wire_version e == version) supported_protocol_eras

abbrev pub is_modern : McpProtocolEra → Bool
is_modern modern20260728 = true
is_modern _ = false

abbrev pub same_era : McpProtocolEra → McpProtocolEra → Bool
same_era modern20260728 modern20260728 = true
same_era legacy20251125 legacy20251125 = true
same_era legacy20250618 legacy20250618 = true
same_era legacy20250326 legacy20250326 = true
same_era legacy20241105 legacy20241105 = true
same_era _ _ = false

pub data McpVersionSelectionError : Type 0 where
  no_versions_advertised no_mutually_supported_version : McpVersionSelectionError

-- `ok_or`.
abbrev pub selected : Option McpProtocolEra → Result McpProtocolEra McpVersionSelectionError
selected none = err no_mutually_supported_version
selected (some e) = ok e

unfoldable pub select_protocol_version :
    List String → Result McpProtocolEra McpVersionSelectionError
unfolding wire_version
select_protocol_version [] = err no_versions_advertised
select_protocol_version (v ∷ vs) =
    selected
      (find_era (λ e. any (λ version. version == wire_version e) (v ∷ vs)) supported_protocol_eras)
