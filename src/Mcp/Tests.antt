-- ===== src/Mcp/Tests.antt =====
-- Tests of mcp.rs.
use gobrowseos.Prelude.{◌≡◌, refl, true, some, List, [], ◌∷◌, ok}
use gobrowseos.Mcp.Era.{
  modern20260728, legacy20251125, wire_version, from_wire_version, is_modern,
  select_protocol_version,
}
use gobrowseos.Mcp.Era.Selection.{offers, select_protocol_version_best}
use Prim.Native.String.{String}

abbrev offered : List String
offered = "2024-01-01" ∷ "2025-11-25" ∷ []

legacy-chosen : select_protocol_version offered ≡ ok legacy20251125
unfolding select_protocol_version wire_version
legacy-chosen = refl

select_protocol_version_best_example :
    (offers offered legacy20251125 ≡ true)
    × (from_wire_version (wire_version legacy20251125) ≡ some legacy20251125)
    × (is_modern legacy20251125 ≡ offers offered modern20260728)
select_protocol_version_best_example =
    select_protocol_version_best offered legacy20251125 legacy-chosen
