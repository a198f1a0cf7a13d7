-- ===== src/PathName/Skip.antt =====
-- fs.c: `skipelem` on a path written as slashes, an element, slashes and the rest.
use os163_assi.Prelude.{
  ℕ, zero, suc, ◌≡◌, Bool, true, ◌&&◌, not, some, List, [], ◌∷◌, ◌++◌, ◌==◌, take, replicate, arith,
  refl,
}
use os163_assi.PathName.{slash, dirsiz, skip_slashes, element, skipelem}

-- A run of bytes without a slash.
abbrev pub plain : List ℕ → Bool
plain [] = true
plain (c ∷ rest) = not (c == slash) && plain rest

abbrev pub begins_plain : List ℕ → Bool
begins_plain [] = true
begins_plain (c ∷ rest) = not (c == slash)

-- Where an element ends.
abbrev pub ends_element : List ℕ → Bool
ends_element [] = true
ends_element (c ∷ rest) = c == slash

skip_slashes-append :
    (k : ℕ) (path : List ℕ)
    → begins_plain path ≡ true
    → skip_slashes (replicate k slash ++ path) ≡ path
unfolding skip_slashes
skip_slashes-append zero [] h = refl
skip_slashes-append zero (c ∷ path) h = ground arith
skip_slashes-append (suc k) path h = skip_slashes-append k path h

element-append :
    (name path : List ℕ)
    → plain name ≡ true
    → ends_element path ≡ true
    → element (name ++ path) ≡ (name, path)
unfolding element
element-append [] [] h e = refl
element-append [] (c ∷ path) h e = ground arith
element-append (c ∷ name) path h e = ground (arith, element-append name path)

-- From slashes, an element that is not empty, further slashes and a rest that begins with none,
-- `skipelem` gives the rest, and the first 14 bytes of the element; between the element and a rest
-- that is not empty there is a slash.
skipelem-append :
    (k m c : ℕ) (name rest : List ℕ)
    → plain (c ∷ name) ≡ true
    → begins_plain rest ≡ true
    → ends_element (replicate m slash ++ rest) ≡ true
    → skipelem (replicate k slash ++ ((c ∷ name) ++ (replicate m slash ++ rest)))
      ≡ some (rest, take dirsiz (c ∷ name))
unfolding skipelem
skipelem-append k m c name rest h first ends =
    rw
      (
        skip_slashes-append k ((c ∷ name) ++ (replicate m slash ++ rest)) (ground arith),
        element-append (c ∷ name) (replicate m slash ++ rest) h ends,
        skip_slashes-append m rest first,
      )
      refl
