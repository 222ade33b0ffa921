-- ===== src/CookiePolicy/Headers.antt =====
-- Header lines may be joined by commas.
use e5renew.Prelude.{
  ◌≡◌, refl, sym, ap, ◌∙◌, inl, inr, true, Option, none, some, List, [], ◌∷◌, ◌++◌, Bool-cases,
}
use e5renew.Text.{Bytes, is_empty, split, trim_space, trim_left}
use e5renew.Text.Parts.{join, split-cut}
use e5renew.CookiePolicy.{
  first_of_parts, or_value, first_comma_separated_value, first_forwarded_proto, Request,
  request_uses_https,
}

abbrev or_else : Option Bytes → Option Bytes → Option Bytes
or_else none y = y
or_else (some x) y = some x

first_of_parts-append :
    (ps qs : List Bytes)
    → first_of_parts (ps ++ qs) ≡ or_else (first_of_parts ps) (first_of_parts qs)
unfolding first_of_parts
first_of_parts-append [] qs = refl
first_of_parts-append (p ∷ ps) qs = elim (Bool-cases (is_empty (trim_space p))) [
  | inl blank ↦ rw blank (first_of_parts-append ps qs)
  | inr text ↦ rw text refl
]

abbrev or_nothing : Option Bytes → Bytes
or_nothing none = []
or_nothing (some x) = x

no_lines : first_comma_separated_value [] ≡ []
unfolding first_comma_separated_value
no_lines = refl

value-cons :
    (v : Bytes) (values : List Bytes)
    → first_comma_separated_value (v ∷ values)
      ≡ or_value (first_of_parts (split v b',')) (first_comma_separated_value values)
unfolding first_comma_separated_value
value-cons v values = refl

or_value-or_else :
    (o rest : Option Bytes) (d : Bytes)
    → d ≡ or_nothing rest
    → or_value o d ≡ or_nothing (or_else o rest)
or_value-or_else none rest d h = h
or_value-or_else (some x) rest d h = refl

or_value-nothing : (o : Option Bytes) → or_value o [] ≡ or_nothing o
or_value-nothing none = refl
or_value-nothing (some x) = refl

one_line :
    (v : Bytes) → first_comma_separated_value (v ∷ []) ≡ or_nothing (first_of_parts (split v b','))
one_line v =
    value-cons v []
    ∙ ap (or_value (first_of_parts (split v b','))) no_lines
    ∙ or_value-nothing (first_of_parts (split v b','))

behind_first :
    (v : Bytes) (values : List Bytes) (rest : Option Bytes)
    → first_comma_separated_value values ≡ or_nothing rest
    → first_comma_separated_value (v ∷ values)
      ≡ or_nothing (or_else (first_of_parts (split v b',')) rest)
behind_first v values rest h =
    value-cons v values
    ∙ or_value-or_else (first_of_parts (split v b',')) rest (first_comma_separated_value values) h

joined :
    (values : List Bytes)
    → first_comma_separated_value values
      ≡ or_nothing (first_of_parts (split (join values b',') b','))
joined [] = unfold first_comma_separated_value first_of_parts split trim_space trim_left in refl
joined (v ∷ []) = one_line v
joined (v ∷ w ∷ values) =
    behind_first v (w ∷ values) (first_of_parts (split (join (w ∷ values) b',') b','))
      (joined (w ∷ values))
    ∙ ap or_nothing (
        sym (
          ap first_of_parts (split-cut v (join (w ∷ values) b',') b',')
          ∙ first_of_parts-append (split v b',') _))

same_value :
    (values : List Bytes)
    → first_comma_separated_value (join values b',' ∷ []) ≡ first_comma_separated_value values
same_value values = one_line (join values b',') ∙ sym (joined values)

-- The request whose lines of each header are joined by commas into one
abbrev pub with_joined_lines : Request → Request
with_joined_lines r = record {
  tls = r.tls;
  x_forwarded_proto = join r.x_forwarded_proto b',' ∷ [];
  forwarded = join r.forwarded b',' ∷ [];
}

-- A request is taken for one over HTTPS or not whether its header lines come one by one or joined
-- by commas, as a proxy may join them; and an encrypted connection always counts as HTTPS.
request_uses_https_lem :
    (fold : Bytes → Bytes) (r : Request)
    → (request_uses_https fold (with_joined_lines r) ≡ request_uses_https fold r)
      × (r.tls ≡ true → request_uses_https fold r ≡ true)
unfolding request_uses_https first_forwarded_proto
request_uses_https_lem fold r = (
  rw (same_value r.x_forwarded_proto, same_value r.forwarded) refl,
  λ encrypted. rw encrypted refl,
)
