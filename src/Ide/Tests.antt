-- ===== src/Ide/Tests.antt =====
-- Two requests, of which the first has been served.
use os163_assi.Prelude.{ℕ, ◌≡◌, refl, true, false, [], ◌∷◌, if◌then◌else◌, ◌==◌, update}
use os163_assi.Kalloc.{done}
use os163_assi.Ide.{DiskBuf, Ide, iderw, ideintr, is_done, command}
use os163_assi.Ide.History.{has, Ready, History, request, interrupt, Reached, begin, after, IsFifo}
use os163_assi.Ide.Fifo.{requests_in_order}

abbrev wanted : ℕ → DiskBuf
wanted b = record {
  busy = true;
  valid = false;
  dirty = false;
  dev = 0;
  blockno = if b == 1 then 7 else 8;
  bytes = [];
}

abbrev asked_one : Ide
asked_one = record {
  queue = 1 ∷ [];
  bufs = wanted;
  started = (1, command (wanted 1)) ∷ [];
  woken = [];
}

abbrev asked_two : Ide
asked_two = record asked_one { queue = 1 ∷ 2 ∷ [] }

abbrev served_one : Ide
served_one = record {
  queue = 2 ∷ [];
  bufs =
      update wanted 1
        (record { busy = true; valid = true; dirty = false; dev = 0; blockno = 7; bytes = 5 ∷ [] });
  started = (1, command (wanted 1)) ∷ (2, command (wanted 2)) ∷ [];
  woken = 1 ∷ [];
}

abbrev idle : Ide
idle = record { queue = []; bufs = wanted; started = []; woken = [] }

idle-Ready : Ready false idle 1
unfolding is_done has
idle-Ready = record { busy = refl; needed = refl; disk = refl; block = refl; new = refl }

asked_one-Ready : Ready false asked_one 2
unfolding is_done has
asked_one-Ready = record { busy = refl; needed = refl; disk = refl; block = refl; new = refl }

first_request : iderw false 1 idle ≡ done tt asked_one
unfolding iderw
first_request = refl

second_request : iderw false 2 asked_one ≡ done tt asked_two
unfolding iderw
second_request = refl

first_served : ideintr true (5 ∷ []) asked_two ≡ done tt served_one
unfolding ideintr
first_served = refl

abbrev history : History
history = record { ide = served_one; asked = 1 ∷ 2 ∷ [] }

history-Reached : Reached false history
history-Reached =
    after
      (after
        (after (begin wanted)
          (request (record { ide = idle; asked = [] }) 1 asked_one idle-Ready first_request))
        (request (record { ide = asked_one; asked = 1 ∷ [] }) 2 asked_two asked_one-Ready
          second_request))
      (interrupt (record { ide = asked_two; asked = 1 ∷ 2 ∷ [] }) true (5 ∷ []) served_one
        first_served)

requests_in_order_example : IsFifo history
requests_in_order_example = requests_in_order false history history-Reached
