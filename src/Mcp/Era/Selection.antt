-- ===== src/Mcp/Era/Selection.antt =====
-- mcp.rs, `select_protocol_version`: the version that is chosen of those that a server offers.
use Prim.Native.String.{String}
use text.Mathlib.Text.{◌==◌}
use gobrowseos.Prelude.{
  ◌≡◌, refl, sym, subst, ◌⊎◌, inl, inr, Bool, true, false, none, some, List, [], ◌∷◌, any,
  if◌then◌else◌, ok,
}
use gobrowseos.Mcp.Era.{
  McpProtocolEra, modern20260728, legacy20251125, wire_version, from_wire_version, is_modern,
  selected, select_protocol_version,
}

-- The server offers the version of an era.
abbrev pub offers : List String → McpProtocolEra → Bool
unfolding wire_version
offers vs e = any (λ version. version == wire_version e) vs

-- The first of the two eras that is offered.
chosen :
    (a b : Bool) (e : McpProtocolEra)
    → selected (if a then some modern20260728 else if b then some legacy20251125 else none) ≡ ok e
    → ((a ≡ true) × (e ≡ modern20260728)) ⊎ ((a ≡ false) × (b ≡ true) × (e ≡ legacy20251125))
chosen true b e h = inl (refl, cc)
chosen false true e h = inr (refl, refl, cc)
chosen false false e h = absurd cc

-- A version that is chosen is one that the server offers, is recognised when it is read back, and
-- is the modern one exactly if the server offers that.
pub select_protocol_version_best :
    (vs : List String) (e : McpProtocolEra)
    → select_protocol_version vs ≡ ok e
    → (offers vs e ≡ true)
      × (from_wire_version (wire_version e) ≡ some e)
      × (is_modern e ≡ offers vs modern20260728)
unfolding select_protocol_version from_wire_version wire_version offers
select_protocol_version_best [] e h = absurd cc
select_protocol_version_best (v ∷ vs) e h =
    let good : McpProtocolEra → Type 0 = λ x.
      (offers (v ∷ vs) x ≡ true)
      × (from_wire_version (wire_version x) ≡ some x)
      × (is_modern x ≡ offers (v ∷ vs) modern20260728) in
    elim (chosen (offers (v ∷ vs) modern20260728) (offers (v ∷ vs) legacy20251125) e h) [
      | inl (a, f) ↦ subst good (sym f) (a, refl, sym a)
      | inr (a, b, f) ↦ subst good (sym f) (b, refl, sym a)
    ]
