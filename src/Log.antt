-- ===== src/Log.antt =====
-- log.c: the write-ahead log of the file system. The buffer cache is taken by what bio.c promises:
-- `bread` gives the current contents of a block, `bwrite` brings them to the disk, and a block that
-- `log_write` pinned stays in the cache. A block is the list of its words.
-- A power counter stands for a crash: it says how many more writes reach the disk.
pub mod Region
pub mod Recover
pub mod Crash
pub mod Reserve
mod Tests
use os163_assi.Prelude.{
  ℕ, zero, suc, ◌+◌, ◌-◌, ◌*◌, Bool, true, false, not, ◌||◌, List, [], ◌∷◌, ◌++◌, if◌then◌else◌,
  ◌==◌, ltb, leb, length, take, drop, update, sub32, is_neg,
}

abbrev pub Block : Type 0
Block = List ℕ

pub record Store : Type 0 where
  pub disk : ℕ → Block
  pub cache : ℕ → Block
  pub power : ℕ

-- `memmove(b->data, …); bwrite(b);`
pub bwrite : ℕ → Block → Store → Store
bwrite b contents st = record {
  disk = if st.power == 0 then st.disk else update st.disk b contents;
  cache = update st.cache b contents;
  power = st.power - 1;
}

-- The machine starts again: the cache is empty, so every `bread` reads the disk.
abbrev pub reboot : ℕ → Store → Store
reboot power st = record { disk = st.disk; cache = st.disk; power = power }

-- `struct logheader` in a block: the count, then the block numbers, then what the block held.
tail_words : Block → List ℕ
tail_words [] = []
tail_words (n ∷ words) = words

pub encode : List ℕ → Block → Block
unfolding tail_words
encode blocks old = length blocks ∷ (blocks ++ drop (length blocks) (tail_words old))

pub decode : Block → List ℕ
decode [] = []
decode (n ∷ words) = take n words

-- `write_head` and `read_head`, for the list `log.lh.block[0 .. log.lh.n)`
pub write_head : ℕ → List ℕ → Store → Store
unfolding bwrite encode
write_head start blocks st = bwrite start (encode blocks (st.cache start)) st

pub read_head : ℕ → Store → List ℕ
unfolding decode
read_head start st = decode (st.cache start)

-- The loops of `write_log` and `install_trans` from one `tail` on, with the block `log.start+tail+1`.
pub write_log_loop : List ℕ → ℕ → Store → Store
unfolding bwrite
write_log_loop [] at st = st
write_log_loop (b ∷ blocks) at st = write_log_loop blocks (suc at) (bwrite at (st.cache b) st)

pub write_log : ℕ → List ℕ → Store → Store
unfolding write_log_loop
write_log start blocks st = write_log_loop blocks (suc start) st

pub install_loop : List ℕ → ℕ → Store → Store
unfolding bwrite
install_loop [] at st = st
install_loop (b ∷ blocks) at st = install_loop blocks (suc at) (bwrite b (st.cache at) st)

pub install_trans : ℕ → List ℕ → Store → Store
unfolding install_loop
install_trans start blocks st = install_loop blocks (suc start) st

-- `commit`
pub commit : ℕ → List ℕ → Store → Store
unfolding write_head write_log install_trans
commit start [] st = st
commit start (b ∷ rest) st =
    let blocks = b ∷ rest in
    write_head start []
      (install_trans start blocks (write_head start blocks (write_log start blocks st)))

-- `recover_from_log`
pub recover_from_log : ℕ → Store → Store
unfolding write_head read_head install_trans
recover_from_log start st = write_head start [] (install_trans start (read_head start st) st)

-- `struct log`, without its place on the disk. `block` holds the `lh.n` block numbers.
pub record Log : Type 0 where
  pub size : ℕ
  pub outstanding : ℕ
  pub committing : Bool
  pub block : List ℕ

abbrev pub maxopblocks : ℕ
maxopblocks = 10

abbrev pub logsize : ℕ
logsize = 30

-- How a pass of an operation ends: it goes on, it sleeps on the log, or it panics.
pub data Pass : Type 0 where
  goes_on : Log → Pass
  sleeps : Pass
  panics : Pass

-- One pass of the loop of `begin_op`.
pub begin_op : Log → Pass
begin_op log =
    if log.committing
    then sleeps
    else if ltb logsize (length log.block + (log.outstanding + 1) * maxopblocks)
    then sleeps
    else goes_on (record log { outstanding = log.outstanding + 1 })

-- `end_op` up to the decision to commit; true if the caller has to commit. Otherwise it wakes those
-- that sleep on the log.
pub end_op : Log → Bool × Pass
end_op log =
    let left = sub32 log.outstanding 1 in
    if log.committing
    then (false, panics)
    else if left == 0
    then (true, goes_on (record log { outstanding = left; committing = true }))
    else (false, goes_on (record log { outstanding = left }))

-- The end of `end_op` after `commit`, which emptied the log.
pub end_commit : Log → Log
end_commit log = record log { committing = false; block = [] }

abbrev pub has : ℕ → List ℕ → Bool
has b [] = false
has b (c ∷ rest) = b == c || has b rest

-- `log_write` of the block number `b`
pub log_write : ℕ → Log → Pass
log_write b log =
    if leb logsize (length log.block) || leb (log.size - 1) (length log.block)
    then panics
    else if log.outstanding == 0 || is_neg log.outstanding
    then panics
    else goes_on
        (record log { block = if has b log.block then log.block else log.block ++ (b ∷ []) })
