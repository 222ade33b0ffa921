-- ===== src/Transport/Identifiers.antt =====
-- The endpoint name that is logged for a path with the identifier of a user or of a group.
use e5renew.Prelude.{
  ℕ, ◌≡◌, refl, sym, ap, ◌∙◌, subst, ◌≢◌, ◌⊎◌, inl, inr, true, false, List, [], ◌∷◌, ◌++◌,
  append-nil, arith, ltb, length,
}
use e5renew.Text.{Bytes, codes, is_empty, has_prefix, trim_prefix, before, split}
use e5renew.Text.Parts.{Lacks, split-ne-nil, before-nil, before-cons, split-append, before-append}
use e5renew.Transport.{part, member_endpoint, classify, strip_version, extract_endpoint}
use e5renew.Transport.Endpoint.{Segment}

split_whole : (p : Bytes) (c : ℕ) → Lacks c p → split p c ≡ p ∷ []
unfolding split
split_whole [] c h = ground arith
split_whole (a ∷ p) c h = ground (arith, split_whole p c h.1)

-- What may follow a segment: the end, more segments, or a query.
abbrev pub EndsSegment : Bytes → Type 0
EndsSegment [] = Unit
EndsSegment (c ∷ s) = (c ≡ b'/') ⊎ (c ≡ b'?')

part_at_start :
    (res rest : Bytes)
    → Segment res
    → EndsSegment rest
    → part (split (res ++ before rest b'?') b'/') 0 ≡ res
part_at_start res [] seg ends =
    ap (λ e. part (split (res ++ e) b'/') 0) (before-nil b'?')
    ∙ ap (λ e. part (split e b'/') 0) (append-nil res)
    ∙ ap (λ ps. part ps 0) (split_whole res b'/' seg.0)
part_at_start res (c ∷ rest) seg (inl cut) =
    subst (λ c'. part (split (res ++ before (c' ∷ rest) b'?') b'/') 0 ≡ res) (sym cut)
      (ap (λ e. part (split (res ++ e) b'/') 0) (before-cons b'/' rest b'?')
        ∙ ap (λ ps. part ps 0) (split-append res (before rest b'?') b'/' seg.0))
part_at_start res (c ∷ rest) seg (inr query) =
    subst (λ c'. part (split (res ++ before (c' ∷ rest) b'?') b'/') 0 ≡ res) (sym query)
      (ap (λ e. part (split (res ++ e) b'/') 0) (before-cons b'?' rest b'?')
        ∙ ap (λ e. part (split e b'/') 0) (append-nil res)
        ∙ ap (λ ps. part ps 0) (split_whole res b'/' seg.0))

-- The cut at the query of a path of which three segments are known.
cut_path :
    (kind id res rest : Bytes)
    → Segment kind
    → Segment id
    → Segment res
    → before (kind ++ b'/' ∷ (id ++ b'/' ∷ (res ++ rest))) b'?'
      ≡ kind ++ b'/' ∷ (id ++ b'/' ∷ (res ++ before rest b'?'))
cut_path kind id res rest k i r =
    before-append kind _ b'?' k.1
    ∙ ap (λ t. kind ++ t)
        (before-cons b'/' _ b'?'
          ∙ ap (λ t. b'/' ∷ t)
              (before-append id _ b'?' i.1
                ∙ ap (λ t. id ++ t)
                    (before-cons b'/' _ b'?'
                      ∙ ap (λ t. b'/' ∷ t) (before-append res rest b'?' r.1))))

long_enough : (k i : Bytes) (ps : List Bytes) → ps ≢ [] → ltb 2 (length (k ∷ i ∷ ps)) ≡ true
long_enough k i [] h = absurd (h refl)
long_enough k i (p ∷ ps) h = ground arith

member_part :
    (kind id res rest : Bytes)
    → Segment kind
    → Segment id
    → Segment res
    → EndsSegment rest
    → member_endpoint kind (before (kind ++ b'/' ∷ (id ++ b'/' ∷ (res ++ rest))) b'?')
      ≡ kind ++ b'/' ∷ res
unfolding member_endpoint
member_part kind id res rest k i r e =
    let parts =
      (ap (λ path. split path b'/') (cut_path kind id res rest k i r)
        ∙ split-append kind _ b'/' k.0
        ∙ ap (λ ps. kind ∷ ps) (split-append id (res ++ before rest b'?') b'/' i.0)) in
    rw
      (
        parts,
        long_enough kind id _ (split-ne-nil (res ++ before rest b'?') b'/'),
        part_at_start res rest r e,
      )
      refl

abbrev pub versioned : Bytes → Bytes
versioned path = codes "/v1.0/" ++ path

strip_versioned : (path : Bytes) → strip_version (versioned path) ≡ path
unfolding strip_version trim_prefix
strip_versioned path = refl

classify_users :
    (path : Bytes)
    → classify (codes "users" ++ b'/' ∷ path)
      ≡ member_endpoint (codes "users") (codes "users" ++ b'/' ∷ path)
unfolding classify split has_prefix
classify_users path = refl

classify_groups :
    (path : Bytes)
    → classify (codes "groups" ++ b'/' ∷ path)
      ≡ member_endpoint (codes "groups") (codes "groups" ++ b'/' ∷ path)
unfolding classify split has_prefix
classify_groups path = refl

extract_versioned :
    (path : Bytes)
    → is_empty path ≡ false
    → extract_endpoint (versioned path) ≡ classify (before path b'?')
unfolding extract_endpoint
extract_versioned path h = rw (strip_versioned path, h) refl

member_of :
    (kind id res rest : Bytes)
    → ((path : Bytes) → is_empty (kind ++ path) ≡ false)
    → ((path : Bytes) → classify (kind ++ b'/' ∷ path) ≡ member_endpoint kind (kind ++ b'/' ∷ path))
    → Segment kind
    → Segment id
    → Segment res
    → EndsSegment rest
    → extract_endpoint (versioned (kind ++ b'/' ∷ (id ++ b'/' ∷ (res ++ rest))))
      ≡ kind ++ b'/' ∷ res
member_of kind id res rest ne is_kind k i r e =
    extract_versioned (kind ++ b'/' ∷ (id ++ b'/' ∷ (res ++ rest))) (ne _)
    ∙ ap classify (cut_path kind id res rest k i r)
    ∙ is_kind _
    ∙ ap (member_endpoint kind) (sym (cut_path kind id res rest k i r))
    ∙ member_part kind id res rest k i r e

-- The identifier of a user or of a group, and what follows the resource, leave no trace in the
-- endpoint that is logged, whatever they are: only the collection and the resource remain.
pub extract_endpoint-member :
    (id res rest : Bytes)
    → Segment id
    → Segment res
    → EndsSegment rest
    → (extract_endpoint (versioned (codes "users" ++ b'/' ∷ (id ++ b'/' ∷ (res ++ rest))))
        ≡ codes "users" ++ b'/' ∷ res)
      × (extract_endpoint (versioned (codes "groups" ++ b'/' ∷ (id ++ b'/' ∷ (res ++ rest))))
          ≡ codes "groups" ++ b'/' ∷ res)
extract_endpoint-member id res rest i r e = (
  member_of (codes "users") id res rest (λ path. refl) classify_users (omega arith) i r e,
  member_of (codes "groups") id res rest (λ path. refl) classify_groups (omega arith) i r e,
)
