-- ===== src/Migrate/FilePath.antt =====
-- Go's path/filepath on Unix, as far as cmd/migrate.go uses it: Clean, Join and Dir.
use e5renew.Prelude.{Bool, false, ◌||◌, List, [], ◌∷◌, ◌++◌, ◌==◌, if◌then◌else◌}
use mathlib.Core.List.{reverse}
use e5renew.Text.{Bytes, codes, is_empty, bytes_eq, split}

abbrev pub is_rooted : Bytes → Bool
is_rooted [] = false
is_rooted (c ∷ s) = c == b'/'

-- An element of a path, put on those before it, the last one first
unfoldable pub put_element : Bool → List Bytes → Bytes → List Bytes
unfolding bytes_eq
put_element rooted [] e =
    if is_empty e || bytes_eq e (codes ".")
    then []
    else if rooted
    then (if bytes_eq e (codes "..") then [] else e ∷ [])
    else e ∷ []
put_element rooted (top ∷ elements) e =
    if is_empty e || bytes_eq e (codes ".")
    then top ∷ elements
    else if bytes_eq e (codes "..")
    then (if bytes_eq top (codes "..") then e ∷ top ∷ elements else elements)
    else e ∷ top ∷ elements

unfoldable pub put_elements : Bool → List Bytes → List Bytes → List Bytes
unfolding put_element
put_elements rooted elements [] = elements
put_elements rooted elements (e ∷ es) = put_elements rooted (put_element rooted elements e) es

unfoldable pub with_slashes : List Bytes → Bytes
with_slashes [] = []
with_slashes (e ∷ []) = e
with_slashes (e ∷ es) = e ++ (b'/' ∷ with_slashes es)

-- filepath.Clean
unfoldable pub clean : Bytes → Bytes
unfolding put_elements with_slashes split
clean s =
    let elements = with_slashes (reverse (put_elements (is_rooted s) [] (split s b'/'))) in
    if is_rooted s then b'/' ∷ elements else if is_empty elements then codes "." else elements

-- filepath.Join of two elements
unfoldable pub join : Bytes → Bytes → Bytes
unfolding clean
join s t =
    if is_empty s
    then (if is_empty t then [] else clean t)
    else clean (if is_empty t then s else s ++ (b'/' ∷ t))

-- path[:i+1] for the last i with path[i] == '/'
unfoldable pub through_last_slash : Bytes → Bytes
through_last_slash [] = []
through_last_slash (c ∷ s) = elim (through_last_slash s) [
  | [] ↦ if c == b'/' then c ∷ [] else []
  | d ∷ rest ↦ c ∷ d ∷ rest
]

-- filepath.Dir
unfoldable pub dir : Bytes → Bytes
unfolding through_last_slash clean
dir s = clean (through_last_slash s)
