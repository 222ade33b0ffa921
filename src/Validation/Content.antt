-- ===== src/Validation/Content.antt =====
-- The scan of JSON input for script content.
use e5renew.Prelude.{◌≡◌, refl, ◌↔◌, false, not, [], ◌∷◌, arith}
use e5renew.Text.{Bytes, contains, contains_any, to_lower}
use e5renew.Text.Patterns.{Hit, contains_any-Hit, Hit-contains_any}
use e5renew.Validation.{validate_json_input, xss_patterns}

nothing_in_empty : (fold : Bytes → Bytes) → contains_any (to_lower fold []) xss_patterns ≡ false
unfolding contains_any contains to_lower
nothing_in_empty fold = refl

validity :
    (fold : Bytes → Bytes) (input : Bytes)
    → (validate_json_input fold input).valid ≡ not (contains_any (to_lower fold input) xss_patterns)
unfolding validate_json_input
validity fold [] = rw (nothing_in_empty fold)
validity fold (c ∷ s) = ground arith

-- An input is refused exactly when one of the nine script patterns occurs in its lower-case form.
validate_json_input_iff :
    (fold : Bytes → Bytes) (input : Bytes)
    → ((validate_json_input fold input).valid ≡ false) ↔ Hit (to_lower fold input) xss_patterns
validate_json_input_iff fold input = (
  λ h. contains_any-Hit _ _ (ground (arith, validity fold input)),
  λ hit. ground (arith, validity fold input, Hit-contains_any _ _ hit),
)
