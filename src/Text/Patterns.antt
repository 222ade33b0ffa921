-- ===== src/Text/Patterns.antt =====
-- What it means that a text contains one of several patterns.
use e5renew.Prelude.{◌≡◌, refl, inl, inr, true, List, [], ◌∷◌, arith, Bool-cases}
use mathlib.Core.List.{Memᴰ}
use e5renew.Text.{Bytes, contains, contains_any}
use e5renew.Text.Search.{Occurs, contains-Occurs, Occurs-contains}

-- One of the patterns occurs in the text.
pub record Hit (s : Bytes) (ps : List Bytes) : Type 0 where
  pub pattern_text : Bytes
  pub listed : Memᴰ pattern_text ps
  pub occurs : Occurs pattern_text s

pub contains_any-Hit : (s : Bytes) (ps : List Bytes) → contains_any s ps ≡ true → Hit s ps
unfolding contains_any
contains_any-Hit s [] h = cc
contains_any-Hit s (p ∷ ps) h = elim (Bool-cases (contains s p)) [
  | inl found ↦ record {
    pattern_text = p;
    listed = Memᴰ.head refl;
    occurs = contains-Occurs s p found;
  }
  | inr missed ↦
      let hit = contains_any-Hit s ps (rw missed at h) in
      record { pattern_text = hit.pattern_text; listed = Memᴰ.tail hit.listed; occurs = hit.occurs }
]

contains_any_of_mem :
    (s p : Bytes) (ps : List Bytes) → Memᴰ p ps → contains s p ≡ true → contains_any s ps ≡ true
unfolding contains_any
contains_any_of_mem s p [] m h = elim m [ ]
contains_any_of_mem s p (q ∷ ps) (Memᴰ.head e) h = ground arith
contains_any_of_mem s p (q ∷ ps) (Memᴰ.tail m) h = ground (arith, contains_any_of_mem s p ps m h)

pub Hit-contains_any : (s : Bytes) (ps : List Bytes) → Hit s ps → contains_any s ps ≡ true
Hit-contains_any s ps hit =
    contains_any_of_mem s hit.pattern_text ps hit.listed
      (Occurs-contains s hit.pattern_text hit.occurs)
