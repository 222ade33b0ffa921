-- ===== src/Validation/RequestPath.antt =====
-- The request path, and the combination of several results.
use e5renew.Prelude.{
  ℕ, ◌≤◌, String, ◌≡◌, refl, sym, ap, ◌∙◌, ◌↔◌, ◌⊎◌, inl, inr, true, false, List, [], ◌∷◌, ◌++◌,
  append_assoc, append-nil, arith, Bool-cases, length, all, All,
}
use e5renew.Text.{Bytes, has_prefix, codes}
use e5renew.Validation.{
  ValidationResult, validate_request_path, match_path, match_path_tail, is_path_char, is_query_char,
  combine_validation_results, combine_from, combine_step,
}

-- A path of the accepted characters, and nothing or a query behind `?`.
pub record PathForm (s : Bytes) : Type 0 where
  pub path : Bytes
  pub query : Bytes
  pub spells : s ≡ path ++ query
  pub path_chars : all is_path_char path ≡ true
  pub query_chars : (query ≡ []) ⊎ ((q : Bytes) × (query ≡ b'?' ∷ q) × (all is_query_char q ≡ true))

tail-PathForm : (s : Bytes) → match_path_tail s ≡ true → PathForm s
unfolding match_path_tail
tail-PathForm [] h = record {
  path = [];
  query = [];
  spells = refl;
  path_chars = refl;
  query_chars = inl refl;
}
tail-PathForm (c ∷ s) h = elim (Bool-cases (is_path_char c)) [
  | inl in_path ↦
      let f = tail-PathForm s (rw in_path at h) in
      record {
        path = c ∷ f.path;
        query = f.query;
        spells = ap (λ t. c ∷ t) f.spells;
        path_chars = rw in_path f.path_chars;
        query_chars = f.query_chars;
      }
  | inr out ↦ record {
    path = [];
    query = c ∷ s;
    spells = refl;
    path_chars = refl;
    query_chars = inr (s, ground arith, ground arith);
  }
]

mark-ne-path_char : is_path_char b'?' ≡ false
mark-ne-path_char = refl

tail-query : (q : Bytes) → all is_query_char q ≡ true → match_path_tail (b'?' ∷ q) ≡ true
unfolding match_path_tail
tail-query q h = h

tail-append :
    (path query : Bytes)
    → all is_path_char path ≡ true
    → match_path_tail query ≡ true
    → match_path_tail (path ++ query) ≡ true
unfolding match_path_tail
tail-append [] query h k = k
tail-append (c ∷ path) query h k = ground (arith, tail-append path query)

PathForm-tail : (s : Bytes) → PathForm s → match_path_tail s ≡ true
PathForm-tail s f = rw (f.spells) (
    tail-append f.path f.query f.path_chars (elim f.query_chars [
      | inl e ↦ rw e (unfold match_path_tail in refl)
      | inr (q, e, h) ↦ rw e (tail-query q h)
    ]))

-- An accepted path has at most 2048 bytes and begins with `/`.
abbrev pub IsPath : Bytes → Type 0
IsPath s = (length s ≤ 2048) × (has_prefix s (codes "/") ≡ true) × PathForm s

match_path-tail : (c : ℕ) (s : Bytes) → match_path (c ∷ s) ≡ true → match_path_tail (c ∷ s) ≡ true
unfolding match_path
match_path-tail c s h = ground arith

slash_path :
    (s : Bytes) → has_prefix s (codes "/") ≡ true → match_path_tail s ≡ true → match_path s ≡ true
unfolding match_path has_prefix
slash_path [] h k = h
slash_path (c ∷ s) h k = ground arith

validity :
    (s : Bytes)
    → ((validate_request_path s).valid ≡ true)
      ↔ ((length s ≤ 2048) × (has_prefix s (codes "/") ≡ true) × (match_path s ≡ true))
unfolding validate_request_path has_prefix
validity [] = ground arith
validity (c ∷ s) = ground arith

match_path-tail_lem : (s : Bytes) → match_path s ≡ true → match_path_tail s ≡ true
match_path-tail_lem [] h = unfold match_path_tail in refl
match_path-tail_lem (c ∷ s) h = match_path-tail c s h

-- A request path is accepted exactly when it has at most 2048 bytes, begins with `/`, and is a run
-- of path characters followed by nothing or by `?` and a run of query characters.
validate_request_path_iff : (s : Bytes) → ((validate_request_path s).valid ≡ true) ↔ IsPath s
validate_request_path_iff s = (
  λ h. let v = (validity s).0 h in (v.0, v.1, tail-PathForm s (match_path-tail_lem s v.2)),
  λ k. (validity s).1 (k.0, k.1, slash_path s k.1 (PathForm-tail s k.2)),
)

abbrev IsTrue : ValidationResult → Type 0
IsTrue r = r.valid ≡ true

abbrev all_errors : List ValidationResult → List String
all_errors [] = []
all_errors (r ∷ rs) = r.errors ++ all_errors rs

combine_from-valid :
    (acc : ValidationResult) (rs : List ValidationResult)
    → ((combine_from acc rs).valid ≡ true) ↔ ((acc.valid ≡ true) × All IsTrue rs)
unfolding combine_from combine_step
combine_from-valid acc [] = ground arith
combine_from-valid acc (r ∷ rs) = ground (arith, combine_from-valid (combine_step acc r) rs)

combine_from-errors :
    (acc : ValidationResult) (rs : List ValidationResult)
    → (combine_from acc rs).errors ≡ acc.errors ++ all_errors rs
unfolding combine_from combine_step
combine_from-errors acc [] = sym (append-nil _)
combine_from-errors acc (r ∷ rs) =
    combine_from-errors (combine_step acc r) rs ∙ append_assoc acc.errors r.errors (all_errors rs)

-- The combination is valid exactly when every result is, and its errors are those of the results
-- in their order.
pub combine_validation_results_lem :
    (rs : List ValidationResult)
    → (((combine_validation_results rs).valid ≡ true) ↔ All IsTrue rs)
      × ((combine_validation_results rs).errors ≡ all_errors rs)
unfolding combine_validation_results
combine_validation_results_lem rs =
    let start : ValidationResult = record { valid = true; errors = [] } in
    let v = combine_from-valid start rs in
    ((λ h. (v.0 h).1, λ h. v.1 (refl, h)), combine_from-errors start rs)
