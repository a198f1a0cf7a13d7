-- ===== src/Grep/Words.antt =====
-- grep.c: `match` finds a line exactly when the line has a word of the pattern's language in it.
use os163_assi.Prelude.{
  ℕ, ◌≡◌, ◌↔◌, ◌∙◌, ap, sym, refl, inl, inr, Bool, true, false, ◌||◌, List, [], ◌∷◌, ◌++◌,
  if◌then◌else◌, ◌==◌, Bool-cases,
}
use mathlib.Core.List.{append_assoc}
use os163_assi.Grep.{at_nul, one_byte, matchhere, search, matches}
use os163_assi.Grep.Match.{
  Item, one, many, items, to_end, fits, AllFit, Denotes, Begins, star_sound, star_complete,
  search_sound, search_complete,
}

false_true {ℓ} : {A : Type ℓ} → false ≡ true → A
false_true e = absurd cc

-- The byte in front
one_byte_sound :
    (c : ℕ) (here : List ℕ → Bool) (text : List ℕ)
    → one_byte c here text ≡ true
    → (t : ℕ) × (v : List ℕ) × (text ≡ t ∷ v) × (fits c t ≡ true) × (here v ≡ true)
unfolding one_byte
one_byte_sound c here [] h = false_true h
one_byte_sound c here (t ∷ text) h = elim (Bool-cases (c == 46 || c == t)) [
  | inl fit ↦ (t, text, refl, fit, rw fit at h)
  | inr other ↦ false_true (rw other at h)
]

one_byte_complete :
    (c : ℕ) (here : List ℕ → Bool) (t : ℕ) (v text : List ℕ)
    → text ≡ t ∷ v
    → fits c t ≡ true
    → here v ≡ true
    → one_byte c here text ≡ true
unfolding one_byte
one_byte_complete c here t v text split fit found = rw split (rw fit found)

nul_sound : (text : List ℕ) → at_nul text ≡ true → text ≡ []
unfolding at_nul
nul_sound [] h = refl
nul_sound (t ∷ text) h = false_true h

-- How a word of a longer sequence begins
add_one :
    (c : ℕ) (rest : List Item) (all : Bool) (t : ℕ) (v text : List ℕ)
    → text ≡ t ∷ v
    → fits c t ≡ true
    → Begins rest all v
    → Begins (one c ∷ rest) all text
unfolding Denotes
add_one c rest all t v text split fit b = record {
  word = t ∷ b.word;
  after = b.after;
  split = split ∙ ap (λ l. t ∷ l) b.split;
  denoted = (t, b.word, refl, fit, b.denoted);
  ends = b.ends;
}

take_one :
    (c : ℕ) (rest : List Item) (all : Bool) (text : List ℕ)
    → Begins (one c ∷ rest) all text
    → (t : ℕ) × (v : List ℕ) × (text ≡ t ∷ v) × (fits c t ≡ true) × Begins rest all v
unfolding Denotes
take_one c rest all text b =
    let (t, v, e, fit, d) = b.denoted in
    (
      t,
      v ++ b.after,
      b.split ∙ ap (λ l. l ++ b.after) e,
      fit,
      record { word = v; after = b.after; split = refl; denoted = d; ends = b.ends },
    )

add_many :
    (c : ℕ) (rest : List Item) (all : Bool) (u v text : List ℕ)
    → text ≡ u ++ v
    → AllFit c u
    → Begins rest all v
    → Begins (many c ∷ rest) all text
unfolding Denotes
add_many c rest all u v text split fit b = record {
  word = u ++ b.word;
  after = b.after;
  split = split ∙ ap (λ l. u ++ l) b.split ∙ sym (append_assoc u b.word b.after);
  denoted = (u, b.word, refl, fit, b.denoted);
  ends = b.ends;
}

take_many :
    (c : ℕ) (rest : List Item) (all : Bool) (text : List ℕ)
    → Begins (many c ∷ rest) all text
    → (u : List ℕ) × (v : List ℕ) × (text ≡ u ++ v) × AllFit c u × Begins rest all v
unfolding Denotes
take_many c rest all text b =
    let (u, v, e, fit, d) = b.denoted in
    (
      u,
      v ++ b.after,
      b.split ∙ ap (λ l. l ++ b.after) e ∙ append_assoc u v b.after,
      fit,
      record { word = v; after = b.after; split = refl; denoted = d; ends = b.ends },
    )

no_items : (text : List ℕ) → Begins [] false text
unfolding Denotes
no_items text = record {
  word = [];
  after = text;
  split = refl;
  denoted = refl;
  ends = λ e. false_true e;
}

ends_here : (text : List ℕ) → text ≡ [] → Begins [] true text
unfolding Denotes
ends_here text e = record { word = []; after = []; split = e; denoted = refl; ends = λ _. refl }

ended_here : (text : List ℕ) → Begins [] true text → text ≡ []
unfolding Denotes
ended_here text b = b.split ∙ rw (b.denoted, b.ends refl) refl

matchhere_sound : (re text : List ℕ) → matchhere re text ≡ true → Begins (items re) (to_end re) text
unfolding matchhere items to_end
matchhere_sound [] text h = no_items text
matchhere_sound (c ∷ []) text h = elim (Bool-cases (c == 36)) [
  | inl dollar ↦ rw dollar (ends_here text (nul_sound text (rw dollar at h)))
  | inr plain ↦
      let (t, v, split, fit, found) = one_byte_sound c (λ t. matchhere [] t) text (rw plain at h) in
      rw plain (add_one c [] false t v text split fit (no_items v))
]
matchhere_sound (c ∷ d ∷ re) text h = elim (Bool-cases (d == 42)) [
  | inl starred ↦
      let (u, v, split, fit, found) = star_sound (λ t. matchhere re t) c text (rw starred at h) in
      rw starred (add_many c (items re) (to_end re) u v text split fit (matchhere_sound re v found))
  | inr plain ↦
      let (t, v, split, fit, found) =
        one_byte_sound c (λ t. matchhere (d ∷ re) t) text (rw plain at h) in
      rw plain (
        add_one c (items (d ∷ re)) (to_end (d ∷ re)) t v text split fit
          (matchhere_sound (d ∷ re) v found))
]

matchhere_complete :
    (re text : List ℕ) → Begins (items re) (to_end re) text → matchhere re text ≡ true
unfolding matchhere items to_end at_nul
matchhere_complete [] text b = refl
matchhere_complete (c ∷ []) text b = elim (Bool-cases (c == 36)) [
  | inl dollar ↦ rw dollar (rw (ended_here text (rw dollar at b)) refl)
  | inr plain ↦
      let (t, v, split, fit, b') = take_one c [] false text (rw plain at b) in
      rw plain (one_byte_complete c (λ t. matchhere [] t) t v text split fit refl)
]
matchhere_complete (c ∷ d ∷ re) text b = elim (Bool-cases (d == 42)) [
  | inl starred ↦
      let (u, v, split, fit, b') = take_many c (items re) (to_end re) text (rw starred at b) in
      rw (starred, split)
        (star_complete (λ t. matchhere re t) c u v fit (matchhere_complete re v b'))
  | inr plain ↦
      let (t, v, split, fit, b') =
        take_one c (items (d ∷ re)) (to_end (d ∷ re)) text (rw plain at b) in
      rw plain (
        one_byte_complete c (λ t. matchhere (d ∷ re) t) t v text split fit
          (matchhere_complete (d ∷ re) v b'))
]

-- What the pattern asks for: `^` in front fixes the word to the start of the line.
unfoldable pub Found : List ℕ → List ℕ → Type 0
Found [] text = Unit
Found (c ∷ re) text =
    if c == 94
    then Begins (items re) (to_end re) text
    else (u : List ℕ) × (v : List ℕ) × (text ≡ u ++ v) × Begins (items (c ∷ re)) (to_end (c ∷ re)) v

search_here :
    (re text : List ℕ)
    → (search (λ t. matchhere re t) text ≡ true)
      ↔ ((u : List ℕ) × (v : List ℕ) × (text ≡ u ++ v) × Begins (items re) (to_end re) v)
search_here re text = (
  λ h.
      let (u, v, split, found) = search_sound (λ t. matchhere re t) text h in
      (u, v, split, matchhere_sound re v found),
  λ (u, v, split, b).
      rw split (search_complete (λ t. matchhere re t) u v (matchhere_complete re v b)),
)

search_nothing : (text : List ℕ) → search (λ t. matchhere [] t) text ≡ true
unfolding search matchhere
search_nothing [] = refl
search_nothing (t ∷ text) = refl

-- `match` finds a line exactly when the line contains a word of the language of the pattern: bytes
-- that stand for themselves, `.` for every byte, a star for any number of the byte in front of it; at
-- the start of the line if the pattern begins with `^`, and at its end if it ends with `$`.
pub matches-Found : (re text : List ℕ) → (matches re text ≡ true) ↔ Found re text
unfolding matches Found
matches-Found [] text = (λ _. tt, λ _. search_nothing text)
matches-Found (c ∷ re) text = elim (Bool-cases (c == 94)) [
  | inl fixed ↦ rw fixed (matchhere_sound re text, matchhere_complete re text)
  | inr free ↦ rw free (search_here (c ∷ re) text)
]
