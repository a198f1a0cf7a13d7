-- ===== src/Pipe/Stream.antt =====
-- What passes through `pipewrite` and `piperead`: the bytes come out as they went in.
use os163_assi.Prelude.{
  ℕ, zero, suc, ◌≡◌, ◌∙◌, ◌⊎◌, ap, refl, sym, inl, inr, min, Bool, true, false, not, ◌||◌, List, [],
  ◌∷◌, ◌++◌, length, arith, Bool-cases,
}
use mathlib.Core.List.{append_assoc, append-nil}
use os163_assi.Pipe.{
  Pipe, is_full, is_empty, put, Written, wrote, refused, sleeping, write, next, advance, copy,
}
use os163_assi.Pipe.Queue.{IsValid, count, contents, length-contents, put-append, advance-tail}

-- How a pass of `pipewrite` ends, with the bytes `rest` that it did not store: all are stored; or
-- the pipe is full and the thread sleeps with the rest; or it is full, and the thread gives up since
-- nobody reads or it has been killed.
abbrev pub Ends : Bool → Written → List ℕ → Pipe → Type 0
Ends killed out rest p =
    ((out ≡ wrote) × (rest ≡ []))
    ⊎ ((out ≡ sleeping rest) × (is_full p ≡ true) × (p.readopen ≡ true) × (killed ≡ false))
    ⊎ ((out ≡ refused rest) × (is_full p ≡ true) × ((not p.readopen || killed) ≡ true))

-- A pass of `pipewrite` stores a prefix of its bytes behind those in the pipe, in order, and stops
-- only where the pipe is full.
pub write-append :
    (killed : Bool) (cs : List ℕ) (p : Pipe)
    → IsValid p
    → (sent : List ℕ) × (rest : List ℕ) × (cs ≡ sent ++ rest)
      × IsValid (write killed cs p).1
      × (contents (write killed cs p).1 ≡ contents p ++ sent)
      × Ends killed (write killed cs p).0 rest (write killed cs p).1
unfolding write
write-append killed [] p v = ([], [], refl, v, sym (append-nil (contents p)), inl (refl, refl))
write-append killed (c ∷ cs) p v = elim (Bool-cases (is_full p)) [
  | inr room ↦
      let (v', stored, n) = put-append p c v room in
      let (sent, rest, split, valid, held, ends) = write-append killed cs (put p c) v' in
      (
        c ∷ sent,
        rest,
        ap (λ l. c ∷ l) split,
        rw room valid,
        rw room (held ∙ ap (λ l. l ++ sent) stored ∙ append_assoc (contents p) (c ∷ []) sent),
        rw room ends,
      )
  | inl full ↦ elim (Bool-cases (not p.readopen || killed)) [
    | inl gone ↦ (
      [],
      c ∷ cs,
      refl,
      rw (full, gone) v,
      rw (full, gone) (sym (append-nil (contents p))),
      rw (full, gone) (inr (inr (refl, full, gone))),
    )
    | inr stay ↦ (
      [],
      c ∷ cs,
      refl,
      rw (full, stay) v,
      rw (full, stay) (sym (append-nil (contents p))),
      rw (full, stay) (inr (inl (refl, full, ground arith, ground arith))),
    )
  ]
]

-- The copying loop takes the oldest bytes out, as many as asked for or as there are.
pub copy-take :
    (n : ℕ) (p : Pipe)
    → IsValid p
    → IsValid (copy n p).1
      × (contents p ≡ (copy n p).0 ++ contents (copy n p).1)
      × (length (copy n p).0 ≡ min n (count p))
unfolding copy
copy-take zero p v = (v, refl, omega arith)
copy-take (suc n) p v = elim (Bool-cases (is_empty p)) [
  | inl empty ↦ (rw empty v, rw empty, rw empty (ground arith))
  | inr more ↦
      let (v', front) = advance-tail p v more in
      let (valid, split, len) = copy-take n (advance p) v' in
      (
        rw more valid,
        rw more (front ∙ ap (λ l. next p ∷ l) split),
        rw more
            (omega (arith, len, length-contents p, length-contents (advance p), ap length front)),
      )
]
