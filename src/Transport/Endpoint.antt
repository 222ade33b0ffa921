-- ===== src/Transport/Endpoint.antt =====
-- The endpoint name that is logged for a path: at most two segments, and no query.
use e5renew.Prelude.{
  ℕ, zero, suc, ◌≡◌, refl, ◌≢◌, ◌⊎◌, inl, inr, List, [], ◌∷◌, ◌++◌, arith, ltb, Bool-cases, length,
  drop, All,
}
use e5renew.Text.{Bytes, codes, is_empty, has_prefix, split}
use e5renew.Text.Parts.{Lacks, split-Lacks, All-split, before-Lacks}
use e5renew.Transport.{part, member_endpoint, classify, strip_version, extract_endpoint}

abbrev pub Segment : Bytes → Type 0
Segment s = Lacks b'/' s × Lacks b'?' s

abbrev pub Collection : Bytes → Type 0
Collection k = (k ≡ codes "me") ⊎ ((k ≡ codes "users") ⊎ (k ≡ codes "groups"))

-- One segment, or a segment of one of the three collections.
abbrev pub IsEndpoint : Bytes → Type 0
IsEndpoint e =
    Segment e ⊎ ((k : Bytes) × (s : Bytes) × Collection k × Segment s × (e ≡ k ++ (b'/' ∷ s)))

part-All : (P : Bytes → Type 0) (ps : List Bytes) (i : ℕ) → P [] → All P ps → P (part ps i)
part-All P [] i z h = z
part-All P (p ∷ ps) zero z h = h.0
part-All P (p ∷ ps) (suc i) z h = part-All P ps i z h.1

part-split-Segment : (path : Bytes) (i : ℕ) → Lacks b'?' path → Segment (part (split path b'/') i)
part-split-Segment path i h = (
  part-All (Lacks b'/') (split path b'/') i tt (split-Lacks path b'/'),
  part-All (Lacks b'?') (split path b'/') i tt (All-split (λ a. a ≢ b'?') path b'/' h),
)

Lacks-drop : (n c : ℕ) (s : Bytes) → Lacks c s → Lacks c (drop n s)
Lacks-drop zero c s h = h
Lacks-drop (suc n) c [] h = tt
Lacks-drop (suc n) c (a ∷ s) h = Lacks-drop n c s h.1

member-IsEndpoint :
    (k path : Bytes)
    → Collection k
    → Segment k
    → Lacks b'?' path
    → IsEndpoint (member_endpoint k path)
unfolding member_endpoint
member-IsEndpoint k path is_k seg h = elim (Bool-cases (ltb 2 (length (split path b'/')))) [
  | inl long ↦ rw long (inr (k, part (split path b'/') 2, is_k, part-split-Segment path 2 h, refl))
  | inr short ↦ rw short (inl seg)
]

classify-IsEndpoint : (path : Bytes) → Lacks b'?' path → IsEndpoint (classify path)
unfolding classify
classify-IsEndpoint path h = elim (Bool-cases (has_prefix path (codes "me/"))) [
  | inl me ↦ rw me (
      inr (
        codes "me",
        part (split (drop 3 path) b'/') 0,
        inl refl,
        part-split-Segment (drop 3 path) 0 (Lacks-drop 3 b'?' path h),
        refl,
      ))
  | inr not_me ↦ elim (Bool-cases (has_prefix path (codes "users/"))) [
    | inl users ↦
        rw (not_me, users) (member-IsEndpoint (codes "users") path (inr (inl refl)) (omega arith) h)
    | inr not_users ↦ elim (Bool-cases (has_prefix path (codes "groups/"))) [
      | inl groups ↦
          rw (not_me, not_users, groups)
            (member-IsEndpoint (codes "groups") path (inr (inr refl)) (omega arith) h)
      | inr not_groups ↦ rw (not_me, not_users, not_groups) (inl (part-split-Segment path 0 h))
    ]
  ]
]

-- Whatever the path, the logged endpoint has no query, and is one segment or a segment behind
-- "me/", "users/" or "groups/".
extract_endpoint-IsEndpoint : (path : Bytes) → IsEndpoint (extract_endpoint path)
unfolding extract_endpoint
extract_endpoint-IsEndpoint path = elim (Bool-cases (is_empty (strip_version path))) [
  | inl root ↦ rw root (inl (omega arith))
  | inr more ↦ rw more (classify-IsEndpoint _ (before-Lacks (strip_version path) b'?'))
]
