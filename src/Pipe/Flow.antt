-- ===== src/Pipe/Flow.antt =====
-- Writers and readers of one pipe, in any order of their passes.
use os163_assi.Prelude.{
  ℕ, ◌-◌, ◌≡◌, ◌≤◌, ◌∙◌, ap, refl, sym, inl, inr, Bool, ◌&&◌, List, [], ◌∷◌, ◌++◌, length,
  length-append, arith, Bool-cases, take, take-append_length,
}
use mathlib.Core.List.{append_assoc, append-nil}
use os163_assi.Pipe.{
  Pipe, pipesize, fresh, close, is_empty, Written, wrote, refused, sleeping, write, Reading, got,
  read,
}
use os163_assi.Pipe.Queue.{IsValid, contents, length-contents, close-contents, fresh-contents}
use os163_assi.Pipe.Stream.{Ends, write-append, copy-take}

-- A pass of some thread through one of the functions; a reader or writer may have been killed.
pub data Op : Type 0 where
  writing : (killed : Bool) (cs : List ℕ) → Op
  reading : (killed : Bool) (n : ℕ) → Op
  closing : (writable : Bool) → Op

-- The pipe with all bytes that writers have written, and all that were handed to readers.
pub record Flow : Type 0 where
  pub pipe : Pipe
  pub sent : List ℕ
  pub received : List ℕ

abbrev pub delivered : Reading → List ℕ
delivered (got out) = out
delivered _ = []

-- The bytes that a pass of `pipewrite` has written, by how it ends: all that it was given when it
-- returns their count, and else those in front of the ones that it has not come to.
abbrev pub written_by : List ℕ → Written → List ℕ
written_by cs wrote = cs
written_by cs (refused rest) = take (length cs - length rest) cs
written_by cs (sleeping rest) = take (length cs - length rest) cs

pub act : Op → Flow → Flow
act (writing killed cs) f =
    let (out, p') = write killed cs f.pipe in
    record f { pipe = p'; sent = f.sent ++ written_by cs out }
act (reading killed n) f = record f {
  pipe = (read killed n f.pipe).1;
  received = f.received ++ delivered (read killed n f.pipe).0;
}
act (closing writable) f = record f { pipe = (close writable f.pipe).pipe }

pub run : List Op → Flow → Flow
unfolding act
run [] f = f
run (op ∷ ops) f = run ops (act op f)

abbrev pub start : List ℕ → Flow
start bytes = record { pipe = fresh bytes; sent = []; received = [] }

record IsFaithful (f : Flow) : Type 0 where
  valid : IsValid f.pipe
  exact : f.sent ≡ f.received ++ contents f.pipe

-- They are those that the pass has stored.
front : (sent rest : List ℕ) → take (length (sent ++ rest) - length rest) (sent ++ rest) ≡ sent
front sent rest =
    let n : length (sent ++ rest) - length rest ≡ length sent =
      omega (arith, length-append sent rest) in
    rw n (take-append_length sent rest)

written_lem :
    (killed : Bool) (cs sent rest : List ℕ) (out : Written) (p : Pipe)
    → cs ≡ sent ++ rest
    → Ends killed out rest p
    → written_by cs out ≡ sent
written_lem killed cs sent rest out p split (inl (e, none)) =
    rw e (split ∙ ap (λ l. sent ++ l) none ∙ append-nil sent)
written_lem killed cs sent rest out p split (inr (inl (e, _, _, _))) =
    rw (e, split) (front sent rest)
written_lem killed cs sent rest out p split (inr (inr (e, _, _))) = rw (e, split) (front sent rest)

read-append :
    (killed : Bool) (n : ℕ) (p : Pipe)
    → IsValid p
    → IsValid (read killed n p).1
      × (contents p ≡ delivered (read killed n p).0 ++ contents (read killed n p).1)
unfolding read
read-append killed n p v = elim (Bool-cases (is_empty p && p.writeopen)) [
  | inl blocked ↦ elim (Bool-cases killed) [
    | inl k ↦ rw (blocked, k) (v, refl)
    | inr k ↦ rw (blocked, k) (v, refl)
  ]
  | inr open_or_data ↦ let (valid, split, len) = copy-take n p v in rw open_or_data (valid, split)
]

act-IsFaithful : (op : Op) (f : Flow) → IsFaithful f → IsFaithful (act op f)
unfolding act
act-IsFaithful (writing killed cs) f h =
    let (sent, rest, split, valid, held, ends) = write-append killed cs f.pipe h.valid in
    record {
      valid = valid;
      exact =
          rw
            (
              written_lem killed cs sent rest (write killed cs f.pipe).0 (write killed cs f.pipe).1
                  split ends,
              held,
              h.exact,
            )
            (append_assoc f.received (contents f.pipe) sent);
    }
act-IsFaithful (reading killed n) f h =
    let (valid, split) = read-append killed n f.pipe h.valid in
    record {
      valid = valid;
      exact =
          h.exact
          ∙ ap (λ l. f.received ++ l) split
          ∙ sym (
              append_assoc f.received (delivered (read killed n f.pipe).0)
                (contents (read killed n f.pipe).1));
    }
act-IsFaithful (closing writable) f h =
    let (valid, same) = close-contents writable f.pipe h.valid in
    record { valid = valid; exact = rw same h.exact }

run-IsFaithful : (ops : List Op) (f : Flow) → IsFaithful f → IsFaithful (run ops f)
unfolding run
run-IsFaithful [] f h = h
run-IsFaithful (op ∷ ops) f h = run-IsFaithful ops (act op f) (act-IsFaithful op f h)

-- Nothing is lost, repeated or reordered. Whatever passes writers, readers and closers of a fresh
-- pipe make, in whatever order, the bytes handed to the readers, followed by those in the pipe, are
-- the bytes that writers have written: all of those that a `pipewrite` was given when it returns their
-- count, and those before the place where it sleeps or gives up. The pipe never holds more than 512.
pub pipe_is_faithful :
    (bytes : List ℕ) (ops : List Op)
    → length bytes ≡ pipesize
    → ((run ops (start bytes)).sent
        ≡ (run ops (start bytes)).received ++ contents (run ops (start bytes)).pipe)
      × (length (contents (run ops (start bytes)).pipe) ≤ 512)
pipe_is_faithful bytes ops len =
    let h : IsFaithful (run ops (start bytes)) =
      run-IsFaithful ops (start bytes) fresh-IsFaithful in
    (h.exact, omega (arith, length-contents (run ops (start bytes)).pipe, h.valid.bounded))
  where
    fresh-IsFaithful : IsFaithful (start bytes)
    fresh-IsFaithful =
        let (valid, empty) = fresh-contents bytes len in record { valid = valid; exact = sym empty }
