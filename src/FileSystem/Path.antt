-- ===== src/FileSystem/Path.antt =====
-- kernel/fs.c: `skipelem`. A path is the list of its characters before the NUL; `name` is the array
-- that holds an element, as a function of the index.
pub mod Element
use riscvos.Common.{
  ℕ, zero, suc, ◌+◌, ◌<◌, ◌≤◌, ◌≡◌, refl, ◌≢◌, sym, ap, ◌∙◌, inl, inr, Bool, true, false, Option,
  none, some, List, [], ◌∷◌, ◌++◌, arith, length, get_or, All, ltb, leb, ◌==◌, if◌then◌else◌,
  Bool-cases,
}

abbrev pub dirsiz : ℕ
dirsiz = 14

abbrev pub slash : ℕ
slash = 47

unfoldable pub skip_slashes : List ℕ → List ℕ
skip_slashes [] = []
skip_slashes (c ∷ cs) = let rest = skip_slashes cs in if c == slash then rest else c ∷ cs

-- The characters up to the next slash, and what follows them.
unfoldable pub split_element : List ℕ → List ℕ × List ℕ
split_element [] = ([], [])
split_element (c ∷ cs) =
    let rest = split_element cs in if c == slash then ([], c ∷ cs) else (c ∷ rest.0, rest.1)

-- What `skipelem` stores in `name`: 14 characters, or fewer and a NUL.
unfoldable pub store_name : List ℕ → (ℕ → ℕ) → ℕ → ℕ
store_name e name j =
    if leb dirsiz (length e)
    then (if ltb j dirsiz then get_or e j 0 else name j)
    else (if ltb j (length e) then get_or e j 0 else (if j == length e then 0 else name j))

unfoldable pub skipelem : List ℕ → (ℕ → ℕ) → Option (List ℕ × (ℕ → ℕ))
unfolding skip_slashes split_element store_name
skipelem path name = elim (skip_slashes path) [
  | [] ↦ none
  | c ∷ cs ↦ let e = split_element (c ∷ cs) in some (skip_slashes e.1, store_name e.0 name)
]
