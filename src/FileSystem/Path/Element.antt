-- ===== src/FileSystem/Path/Element.antt =====
-- kernel/fs.c: what `skipelem` takes off a path.
use riscvos.Common.{
  ℕ, ◌<◌, ◌≡◌, refl, ◌≢◌, sym, ap, subst, ◌∙◌, inl, inr, false, Option, none, some, List, [], ◌∷◌,
  ◌++◌, append-nil, arith, length, get_or, All, ◌==◌, Bool-cases,
}
use riscvos.FileSystem.Path.{dirsiz, slash, skip_slashes, split_element, store_name, skipelem}

abbrev pub Slashes : List ℕ → Type 0
Slashes = All (λ c. c ≡ slash)

abbrev pub NoSlash : List ℕ → Type 0
NoSlash = All (λ c. c ≢ slash)

-- A path that starts with no slash.
abbrev pub Bare : List ℕ → Type 0
Bare [] = Unit
Bare (c ∷ cs) = c ≢ slash

-- What stands behind an element: a slash, or the end.
abbrev pub Stops : List ℕ → Type 0
Stops [] = Unit
Stops (c ∷ cs) = c ≡ slash

skip_slashes-split :
    (p : List ℕ) → (sl : List ℕ) × (p ≡ sl ++ skip_slashes p) × Slashes sl × Bare (skip_slashes p)
unfolding skip_slashes
skip_slashes-split [] = ([], refl, tt, tt)
skip_slashes-split (c ∷ cs) = elim (Bool-cases (c == slash)) [
  | inl y ↦
      let (sl, e, s, b) = skip_slashes-split cs in
      rw y (c ∷ sl, ap (λ r. c ∷ r) e, (ground arith, s), b)
  | inr n ↦ rw n ([], refl, tt, ground arith)
]

split_element-split :
    (p : List ℕ)
    → (p ≡ (split_element p).0 ++ (split_element p).1)
      × NoSlash (split_element p).0
      × Stops (split_element p).1
unfolding split_element
split_element-split [] = (refl, tt, tt)
split_element-split (c ∷ cs) = elim (Bool-cases (c == slash)) [
  | inl y ↦ rw y (refl, tt, ground arith)
  | inr n ↦
      let ih = split_element-split cs in rw n (ap (λ r. c ∷ r) ih.0, (ground arith, ih.1), ih.2)
]

-- The path is some slashes, the element up to the next slash or the end, and some slashes before the rest. The name is the element, cut
-- at 14 characters, with a NUL behind it if there is room.
pub record Element (path rest : List ℕ) (name : ℕ → ℕ) : Type 0 where
  pub before : List ℕ
  pub element : List ℕ
  pub between : List ℕ
  pub whole : path ≡ before ++ (element ++ (between ++ rest))
  pub slashes : Slashes before × Slashes between
  pub no_slash : NoSlash element
  pub all_of_it : Stops (between ++ rest)
  pub some_character : 0 < length element
  pub bare : Bare rest
  pub named : (j : ℕ) → j < length element → j < dirsiz → name j ≡ get_or element j 0
  pub ended : length element < dirsiz → name (length element) ≡ 0

-- What `skipelem` returns for a path.
pub data Skipped (path : List ℕ) : Option (List ℕ × (ℕ → ℕ)) → Type 0 where
  exhausted : Slashes path → Skipped path none
  element :
      {rest : List ℕ} {name : ℕ → ℕ} → Element path rest name → Skipped path (some (rest, name))

split_element-some : (c : ℕ) (cs : List ℕ) → c ≢ slash → 0 < length (split_element (c ∷ cs)).0
unfolding split_element
split_element-some c cs h = let n : (c == slash) ≡ false = ground arith in rw n (omega arith)

store_name-element :
    (e : List ℕ) (name : ℕ → ℕ) (j : ℕ)
    → j < length e
    → j < dirsiz
    → store_name e name j ≡ get_or e j 0
unfolding store_name
store_name-element e name j h d = ground arith

store_name-end : (e : List ℕ) (name : ℕ → ℕ) → length e < dirsiz → store_name e name (length e) ≡ 0
unfolding store_name
store_name-end e name d = ground arith

-- `skipelem` returns null for a path of nothing but slashes, and else takes off the whole first element with the
-- slashes around it, and stores its name.
pub skipelem-Skipped : (path : List ℕ) (name : ℕ → ℕ) → Skipped path (skipelem path name)
unfolding skipelem
skipelem-Skipped path name = go (skip_slashes path) (skip_slashes-split path) refl
  where
    go :
        (r : List ℕ)
        → ((sl : List ℕ) × (path ≡ sl ++ r) × Slashes sl × Bare r)
        → skip_slashes path ≡ r
        → Skipped path (skipelem path name)
    go [] (sl, e, s, b) q = rw (q, skipelem) (exhausted (subst Slashes (sym (e ∙ append-nil sl)) s))
    go (c ∷ cs) (sl, e, s, b) q =
        let (cut, clean, stop) = split_element-split (c ∷ cs) in
        let (mid, e', s', b') = skip_slashes-split (split_element (c ∷ cs)).1 in
        rw (q, skipelem)
          (element {rest = skip_slashes (split_element (c ∷ cs)).1}
            {name = store_name (split_element (c ∷ cs)).0 name}
            (record {
              before = sl;
              element = (split_element (c ∷ cs)).0;
              between = mid;
              whole = e ∙ ap (λ r. sl ++ r) (cut ∙ ap (λ r. (split_element (c ∷ cs)).0 ++ r) e');
              slashes = (s, s');
              no_slash = clean;
              all_of_it = subst Stops e' stop;
              some_character = split_element-some c cs b;
              bare = b';
              named = λ j h d. store_name-element (split_element (c ∷ cs)).0 name j h d;
              ended = λ d. store_name-end (split_element (c ∷ cs)).0 name d;
            }))
