-- ===== src/Fssp.antt =====
-- fssp.c: the firing squad synchronisation program that runs on the kernel threads and mutexes.
-- `Automaton` is what the soldiers compute, `Fires` that they all fire together.
pub mod Automaton
pub mod Fires
pub mod Barrier
