-- ===== src/Fssp/Automaton.antt =====
-- The soldiers of fssp.c: the transition table, one soldier's step, and the rounds that `main` and
-- the soldiers make between the barriers.
use mathlib.Core.Option
use os163_assi.Prelude.{
  ℕ, zero, suc, Bool, true, false, ◌&&◌, ◌||◌, Option, none, some, List, [], ◌∷◌, if◌then◌else◌,
  ◌==◌, get_elem?, length, replicate, minus_one, is_neg, ltb,
}

-- The states. `b` marks an entry that the table leaves open, and `x` a missing neighbour.
abbrev pub b : ℕ
b = minus_one

abbrev pub q : ℕ
q = 0

abbrev pub p : ℕ
p = 1

abbrev pub r : ℕ
r = 2

abbrev pub z : ℕ
z = 3

abbrev pub m : ℕ
m = 4

abbrev pub x : ℕ
x = 5

abbrev pub fire : ℕ
fire = 10

abbrev row : ℕ → ℕ → ℕ → ℕ → ℕ → ℕ → List ℕ
row s0 s1 s2 s3 s4 s5 = s0 ∷ s1 ∷ s2 ∷ s3 ∷ s4 ∷ s5 ∷ []

-- `trans_func[curr_state][left_state][right_state]`, a plane for each of q, p, r, z, m
pub trans_func : List (List (List ℕ))
trans_func =
    (row q p q q b q
      ∷ row p p b b b p
      ∷ row q b q b b b
      ∷ row q b b q b q
      ∷ row b b b b b b
      ∷ row q p q q b b
      ∷ [])
    ∷ (row z z r r b b
        ∷ row z b z z b b
        ∷ row r z z b b z
        ∷ row r z b z b z
        ∷ row b b b b b b
        ∷ row z b z z b fire
        ∷ [])
    ∷ (row b b r p z b
        ∷ row b b m r m b
        ∷ row r m b b m b
        ∷ row p r b b r b
        ∷ row z m m r m b
        ∷ row b b b b b b
        ∷ [])
    ∷ (row b b q p q b
        ∷ row b z b z b b
        ∷ row q b q q b q
        ∷ row p z q fire q fire
        ∷ row q b b q q q
        ∷ row b z q fire q b
        ∷ [])
    ∷ (row b b b b b b
        ∷ row b b b b b b
        ∷ row b b r z b b
        ∷ row b b z b b b
        ∷ row b b b b b b
        ∷ row b b b b b b
        ∷ [])
    ∷ []

-- `none` is a read outside the table.
pub next_state : (curr_state left_state right_state : ℕ) → Option ℕ
unfolding trans_func Option.bind
next_state curr_state left_state right_state =
    Option.bind (get_elem? trans_func curr_state)
      λ plane. Option.bind (get_elem? plane left_state) λ line. get_elem? line right_state

left_state : List ℕ → ℕ → Option ℕ
left_state soldiers zero = some x
left_state soldiers (suc index) = get_elem? soldiers index

right_state : List ℕ → ℕ → Option ℕ
right_state soldiers index =
    if suc index == length soldiers then some x else get_elem? soldiers (suc index)

-- What the thread of one soldier computes between two barriers.
pub soldier : List ℕ → ℕ → Option ℕ
unfolding next_state left_state right_state
soldier soldiers index = Option.bind (get_elem? soldiers index) λ curr.
    Option.bind (left_state soldiers index)
      λ left. Option.bind (right_state soldiers index) λ right. next_state curr left right

-- The soldiers `index`, `index + 1`, … compute their next states from the old ones, and write them
-- after the barrier.
soldiers_from : List ℕ → ℕ → ℕ → Option (List ℕ)
unfolding soldier
soldiers_from soldiers zero index = some []
soldiers_from soldiers (suc n) index =
    Option.bind (soldier soldiers index)
      λ next. Option.map (λ rest. next ∷ rest) (soldiers_from soldiers n (suc index))

pub round : List ℕ → Option (List ℕ)
unfolding soldiers_from
round soldiers = soldiers_from soldiers (length soldiers) 0

abbrev pub any_fired : List ℕ → Bool
any_fired [] = false
any_fired (s ∷ rest) = s == fire || any_fired rest

abbrev pub all_fired : List ℕ → Bool
all_fired [] = true
all_fired (s ∷ rest) = s == fire && all_fired rest

abbrev pub general_fired : List ℕ → Bool
general_fired [] = false
general_fired (s ∷ rest) = s == fire

-- How the run of the program ends. A soldier that has fired leaves its loop, and so the barrier,
-- which counts on every soldier and on `main`: if only some have fired, the others wait for ever.
pub data Result : Type 0 where
  fired : (rounds : ℕ) (soldiers : List ℕ) → Result
  deadlock : Result
  out_of_bounds : Result
  out_of_fuel : Result

-- `while(GENERAL.state != F)` of `main`, with the soldiers' own loops.
unfoldable pub march : ℕ → ℕ → List ℕ → Result
unfolding round
march zero rounds soldiers = out_of_fuel
march (suc fuel) rounds soldiers = elim (any_fired soldiers) [
  | true ↦ if general_fired soldiers && all_fired soldiers then fired rounds soldiers else deadlock
  | false ↦ elim (round soldiers) [
    | none ↦ out_of_bounds
    | some soldiers' ↦ march fuel (suc rounds) soldiers'
  ]
]

-- `GENERAL.state = P`, and all others in state `Q`.
unfoldable pub initial : ℕ → List ℕ
initial zero = []
initial (suc n) = p ∷ replicate n q

-- The check of `main` on the number that it was given: an `int` from 1 to 15.
unfoldable pub is_legal : ℕ → Bool
is_legal num_of_soldiers =
    if (num_of_soldiers == 0) || is_neg num_of_soldiers
    then false
    else if ltb 15 num_of_soldiers
    then false
    else true
