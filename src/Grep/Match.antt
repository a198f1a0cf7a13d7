-- ===== src/Grep/Match.antt =====
-- grep.c: which lines the matcher finds.
use os163_assi.Prelude.{
  ℕ, ◌≡◌, ap, refl, inl, inr, Bool, true, false, ◌||◌, List, [], ◌∷◌, ◌++◌, if◌then◌else◌, ◌==◌,
  arith, Bool-cases,
}
use os163_assi.Grep.{star, search}

-- A pattern is a sequence of bytes and of bytes with a star, and may be fixed at the end by a `$`.
pub data Item : Type 0 where
  one many : ℕ → Item

unfoldable pub items : List ℕ → List Item
items [] = []
items (c ∷ []) = if c == 36 then [] else one c ∷ []
items (c ∷ d ∷ re) = if d == 42 then many c ∷ items re else one c ∷ items (d ∷ re)

unfoldable pub to_end : List ℕ → Bool
to_end [] = false
to_end (c ∷ []) = c == 36
to_end (c ∷ d ∷ re) = if d == 42 then to_end re else to_end (d ∷ re)

-- The `.` stands for every byte.
abbrev pub fits : ℕ → ℕ → Bool
fits c t = c == 46 || c == t

unfoldable pub AllFit : ℕ → List ℕ → Type 0
AllFit c [] = Unit
AllFit c (t ∷ w) = (fits c t ≡ true) × AllFit c w

-- The language of a sequence
unfoldable pub Denotes : List Item → List ℕ → Type 0
unfolding AllFit
Denotes [] w = w ≡ []
Denotes (one c ∷ rest) w = (t : ℕ) × (v : List ℕ) × (w ≡ t ∷ v) × (fits c t ≡ true) × Denotes rest v
Denotes (many c ∷ rest) w = (u : List ℕ) × (v : List ℕ) × (w ≡ u ++ v) × AllFit c u × Denotes rest v

-- A word of the language begins the text, and is all of it where the pattern has a `$`.
pub record Begins (which : List Item) (all : Bool) (text : List ℕ) : Type 0 where
  pub word : List ℕ
  pub after : List ℕ
  pub split : text ≡ word ++ after
  pub denoted : Denotes which word
  pub ends : all ≡ true → after ≡ []

pub star_sound :
    (here : List ℕ → Bool) (c : ℕ) (text : List ℕ)
    → star here c text ≡ true
    → (u : List ℕ) × (v : List ℕ) × (text ≡ u ++ v) × AllFit c u × (here v ≡ true)
unfolding star AllFit
star_sound here c [] h = ([], [], refl, tt, h)
star_sound here c (t ∷ text) h = elim (Bool-cases (here (t ∷ text))) [
  | inl found ↦ ([], t ∷ text, refl, tt, found)
  | inr not_yet ↦ elim (Bool-cases (t == c || c == 46)) [
    | inr stop ↦ absurd (false_true (rw (not_yet, stop) at h))
    | inl go ↦
        let (u, v, split, fit, found) = star_sound here c text (rw (not_yet, go) at h) in
        (t ∷ u, v, ap (λ l. t ∷ l) split, (ground arith, fit), found)
  ]
]
  where
    false_true : false ≡ true → ⊥
    false_true e = cc

pub star_complete :
    (here : List ℕ → Bool) (c : ℕ) (u v : List ℕ)
    → AllFit c u
    → here v ≡ true
    → star here c (u ++ v) ≡ true
unfolding star AllFit
star_complete here c [] [] fit found = found
star_complete here c [] (t ∷ v) fit found = rw found refl
star_complete here c (t ∷ u) v (fit, fits') found = elim (Bool-cases (here (t ∷ (u ++ v)))) [
  | inl early ↦ rw early refl
  | inr not_yet ↦
      let go : (t == c || c == 46) ≡ true = ground arith in
      rw (not_yet, go) (star_complete here c u v fits' found)
]

pub search_sound :
    (here : List ℕ → Bool) (text : List ℕ)
    → search here text ≡ true
    → (u : List ℕ) × (v : List ℕ) × (text ≡ u ++ v) × (here v ≡ true)
unfolding search
search_sound here [] h = ([], [], refl, h)
search_sound here (t ∷ text) h = elim (Bool-cases (here (t ∷ text))) [
  | inl found ↦ ([], t ∷ text, refl, found)
  | inr not_yet ↦
      let (u, v, split, found) = search_sound here text (rw not_yet at h) in
      (t ∷ u, v, ap (λ l. t ∷ l) split, found)
]

pub search_complete :
    (here : List ℕ → Bool) (u v : List ℕ) → here v ≡ true → search here (u ++ v) ≡ true
unfolding search
search_complete here [] [] found = found
search_complete here [] (t ∷ v) found = rw found refl
search_complete here (t ∷ u) v found = elim (Bool-cases (here (t ∷ (u ++ v)))) [
  | inl early ↦ rw early refl
  | inr not_yet ↦ rw not_yet (search_complete here u v found)
]
