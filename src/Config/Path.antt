-- ===== src/Config/Path.antt =====
-- What config.go uses of path/filepath, on Unix: a path is a text with slashes.
pub mod Shorter
use mathlib.Core.List.{reverse}
use ingest.Prelude.{
  Bool, GoString, List, [], false, if◌then◌else◌, lit, nat_beq, nat_key, text_key, ◌++◌, ◌==◌, ◌||◌,
  ◌∷◌,
}
use ingest.GoStrings.{split_byte}
use ingest.GoStrings.Split.{join_byte}

-- `filepath.IsAbs`
unfoldable pub is_abs : GoString → Bool
is_abs [] = false
is_abs (c ∷ s) = nat_beq c 47

-- one element of a path, onto those before it, the last of which is the head
unfoldable pub clean_element : Bool → List GoString → GoString → List GoString
clean_element rooted stack part =
    if part == [] || part == lit "."
    then stack
    else if part == lit ".."
    then elim stack [
      | [] ↦ if rooted then [] else part ∷ []
      | top ∷ below ↦ if top == lit ".." then part ∷ top ∷ below else below
    ]
    else part ∷ stack

unfoldable pub clean_elements : Bool → List GoString → List GoString → List GoString
unfolding clean_element
clean_elements rooted stack [] = stack
clean_elements rooted stack (part ∷ parts) =
    clean_elements rooted (clean_element rooted stack part) parts

-- `filepath.Clean`
unfoldable pub clean : GoString → GoString
unfolding clean_elements split_byte join_byte is_abs
clean path =
    let stack = clean_elements (is_abs path) [] (split_byte 47 [] path) in
    let joined = join_byte 47 (reverse stack) in
    if is_abs path then 47 ∷ joined else elim joined [ [] ↦ lit "." | c ∷ s ↦ c ∷ s ]

-- the text up to the last slash, which it includes
unfoldable pub dir_prefix : GoString → GoString
dir_prefix [] = []
dir_prefix (c ∷ s) = elim (dir_prefix s) [
  | [] ↦ if nat_beq c 47 then c ∷ [] else []
  | b ∷ r ↦ c ∷ b ∷ r
]

-- `filepath.Dir`
unfoldable pub dir_of : GoString → GoString
unfolding clean dir_prefix
dir_of path = clean (dir_prefix path)

-- `filepath.Join` of two elements
unfoldable pub join_path : GoString → GoString → GoString
unfolding clean
join_path [] [] = []
join_path [] (c ∷ p) = clean (c ∷ p)
join_path (b ∷ dir) p = clean ((b ∷ dir) ++ (47 ∷ p))
