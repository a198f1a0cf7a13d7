-- ===== src/PathName.antt =====
-- fs.c: how a path is taken apart. A path is the list of its bytes up to the nul.
pub mod Skip
use os163_assi.Prelude.{
  ℕ, Bool, true, false, ◌&&◌, not, Option, none, some, List, [], ◌∷◌, if◌then◌else◌, ◌==◌, take,
}

abbrev pub slash : ℕ
slash = 47

abbrev pub dirsiz : ℕ
dirsiz = 14

-- `while(*path == '/') path++;`
pub skip_slashes : List ℕ → List ℕ
skip_slashes [] = []
skip_slashes (c ∷ path) = let rest = skip_slashes path in if c == slash then rest else c ∷ path

-- `while(*path != '/' && *path != 0) path++;`, with what was passed
pub element : List ℕ → List ℕ × List ℕ
element [] = ([], [])
element (c ∷ path) =
    let further = element path in if c == slash then ([], c ∷ path) else (c ∷ further.0, further.1)

skip_found : List ℕ → Option (List ℕ × List ℕ)
unfolding skip_slashes element
skip_found [] = none
skip_found (c ∷ path) =
    some (skip_slashes (element (c ∷ path)).1, take dirsiz (element (c ∷ path)).0)

-- `skipelem`: the path behind the element, and the string that `name` then holds, of which there is
-- room for 14 bytes
pub skipelem : List ℕ → Option (List ℕ × List ℕ)
unfolding skip_found
skipelem path = skip_found (skip_slashes path)
