-- ===== src/Pipe/Tests.antt =====
-- A pipe that is written to and read from.
use os163_assi.Prelude.{
  ℕ, ◌≡◌, ◌≤◌, List, [], ◌∷◌, ◌++◌, true, false, length, replicate, length-replicate,
}
use os163_assi.Pipe.Queue.{contents}
use os163_assi.Pipe.Flow.{Op, writing, reading, closing, start, run, pipe_is_faithful}

abbrev storage : List ℕ
storage = replicate 512 7

abbrev ops : List Op
ops = writing false (1 ∷ 2 ∷ 3 ∷ []) ∷ reading false 2 ∷ closing true ∷ reading false 5 ∷ []

pipe_is_faithful_example :
    ((run ops (start storage)).sent
      ≡ (run ops (start storage)).received ++ contents (run ops (start storage)).pipe)
    × (length (contents (run ops (start storage)).pipe) ≤ 512)
pipe_is_faithful_example = pipe_is_faithful storage ops (length-replicate {A = ℕ} 512 7)
