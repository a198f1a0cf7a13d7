-- ===== src/Bytes/Tests.antt =====
-- The functions of string.c on a memory that holds a few strings.
use os163_assi.Prelude.{◌≡◌, if◌then◌else◌, ◌==◌, arith}
use os163_assi.Bytes.{Mem, memmove}
use os163_assi.Bytes.Move.{moved, memmove-moved}

-- "abcde" at 10 and "abx" at 30
abbrev text : Mem
text a =
    if a == 10
    then 97
    else if a == 11
    then 98
    else if a == 12
    then 99
    else if a == 13
    then 100
    else if a == 14
    then 101
    else if a == 30
    then 97
    else if a == 31
    then 98
    else if a == 32
    then 120
    else 0

-- An overlapping move, up by two.
memmove-moved_example : memmove 12 10 5 text 14 ≡ moved 12 10 5 text 14
memmove-moved_example = memmove-moved 12 10 5 text 14 (omega arith) (omega arith)
