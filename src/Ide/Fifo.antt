-- ===== src/Ide/Fifo.antt =====
-- ide.c: the requests are served one at a time, in the order in which they come.
use os163_assi.Prelude.{
  ℕ, ◌≡◌, ◌∙◌, ap, sym, refl, inl, inr, Bool, true, false, not, ◌&&◌, ◌||◌, List, [], ◌∷◌, ◌++◌,
  if◌then◌else◌, ◌==◌, update, arith, Bool-cases,
}
use mathlib.Core.List.{append_assoc, append-nil}
use os163_assi.Kalloc.{Run, done}
use os163_assi.Ide.{DiskBuf, Ide, start_first, serve, ideintr, is_first, iderw, is_done}
use os163_assi.Ide.History.{
  has, Ready, History, Step, request, interrupt, change, Reached, begin, after, first, BlocksExist,
  started_for, IsFifo, idestart_lem, BlocksExist-append, BlocksExist-update, BlocksExist-elsewhere,
}

first-append :
    (queue : List ℕ) (b : ℕ)
    → has b queue ≡ false
    → first (queue ++ (b ∷ [])) ≡ (if is_first b (queue ++ (b ∷ [])) then b ∷ [] else first queue)
unfolding is_first has
first-append [] b out = let self : (b == b) ≡ true = ground arith in rw self refl
first-append (k ∷ queue) b out = let other : (k == b) ≡ false = ground arith in rw other refl

-- Nothing is at work when a request comes to the front.
none_before :
    (queue : List ℕ) (b : ℕ)
    → has b queue ≡ false
    → is_first b (queue ++ (b ∷ [])) ≡ true
    → first queue ≡ []
unfolding is_first has
none_before [] b out e = refl
none_before (k ∷ queue) b out e = absurd (differ (k == b) (ground arith) e)
  where
    differ : (t : Bool) → t ≡ false → t ≡ true → ⊥
    differ t off on = cc

request-IsFifo :
    (havedisk1 : Bool) (h : History) (b : ℕ)
    → IsFifo h
    → Ready havedisk1 h.ide b
    → (s' : Ide) × (iderw havedisk1 b h.ide ≡ done tt s')
      × IsFifo (record { ide = s'; asked = h.asked ++ (b ∷ []) })
unfolding iderw is_done
request-IsFifo havedisk1 h b f r =
    let s = h.ide in
    let queue = s.queue ++ (b ∷ []) in
    let fine : (not (s.bufs b).busy
          || ((s.bufs b).valid && not (s.bufs b).dirty)
          || (not ((s.bufs b).dev == 0) && not havedisk1))
        ≡ false =
      rw (r.busy, r.needed, r.disk) refl in
    let order : h.asked ++ (b ∷ []) ≡ s.woken ++ queue =
      ap (λ l. l ++ (b ∷ [])) f.order ∙ append_assoc s.woken s.queue (b ∷ []) in
    let blocks = BlocksExist-append s.bufs s.queue b f.blocks r.block in
    elim (Bool-cases (is_first b queue)) [
      | inr waits ↦
          let same : first queue ≡ first s.queue = first-append s.queue b r.new ∙ rw waits refl in
          (
            record s { queue = queue },
            rw (fine, waits) refl,
            record {
              order = order;
              one_at_a_time = f.one_at_a_time ∙ ap (λ l. s.woken ++ l) (sym same);
              blocks = blocks;
            },
          )
      | inl starts ↦
          let (s', ends, q, bs, w, st) = idestart_lem b (record s { queue = queue }) r.block in
          let idle = none_before s.queue b r.new starts in
          let now : first queue ≡ b ∷ [] = first-append s.queue b r.new ∙ rw starts refl in
          (
            s',
            rw (fine, starts) ends,
            record {
              order = order ∙ rw (q, w) refl;
              one_at_a_time =
                  st
                  ∙ ap (λ l. l ++ (b ∷ []))
                      (f.one_at_a_time ∙ ap (λ l. s.woken ++ l) idle ∙ append-nil s.woken)
                  ∙ rw (q, w) (ap (λ l. s.woken ++ l) (sym now));
              blocks = rw (q, bs) blocks;
            },
          )
    ]

start_first_lem :
    (queue : List ℕ) (s : Ide)
    → BlocksExist s.bufs queue
    → (s' : Ide) × (start_first queue s ≡ done tt s')
      × (s'.queue ≡ s.queue)
      × (s'.bufs ≡ s.bufs)
      × (s'.woken ≡ s.woken)
      × (started_for s' ≡ started_for s ++ first queue)
unfolding start_first BlocksExist
start_first_lem [] s good = (s, refl, refl, refl, refl, sym (append-nil (started_for s)))
start_first_lem (b ∷ queue) s (block, good) = idestart_lem b s block

serve-IsFifo :
    (ok : Bool) (incoming : List ℕ) (q : List ℕ) (h : History)
    → h.ide.queue ≡ q
    → IsFifo h
    → (s' : Ide) × (serve ok incoming q h.ide ≡ done tt s') × IsFifo (record h { ide = s' })
unfolding serve BlocksExist
serve-IsFifo ok incoming [] h e f = (h.ide, refl, f)
serve-IsFifo ok incoming (b ∷ queue) h e f =
    let s = h.ide in
    let old = s.bufs b in
    let new = record old {
      bytes = if not old.dirty && ok then incoming else old.bytes;
      valid = true;
      dirty = false;
    } in
    let s1 = record s { queue = queue; bufs = update s.bufs b new; woken = s.woken ++ (b ∷ []) } in
    let good = BlocksExist-update s.bufs (b ∷ queue) b new (rw e at f.blocks) refl in
    let (s', ends, q, bs, w, st) = start_first_lem queue s1 good.1 in
    (
      s',
      ends,
      record {
        order = f.order ∙ rw (q, w, e) (sym (append_assoc s.woken (b ∷ []) queue));
        one_at_a_time = st ∙ rw (q, w) (ap (λ l. l ++ first queue) (f.one_at_a_time ∙ rw e refl));
        blocks = rw (q, bs) good.1;
      },
    )

start-IsFifo :
    (bufs : ℕ → DiskBuf)
    → IsFifo
        (record { ide = record { queue = []; bufs = bufs; started = []; woken = [] }; asked = [] })
unfolding BlocksExist
start-IsFifo bufs = record { order = refl; one_at_a_time = refl; blocks = tt }

same_run :
    {A : Type 0} (r : Run Ide A) (a b : A) (s s' : Ide) → r ≡ done a s → r ≡ done b s' → s ≡ s'
same_run r a b s s' e e' = cc

interrupt-IsFifo :
    (ok : Bool) (incoming : List ℕ) (h : History)
    → IsFifo h
    → (s' : Ide) × (ideintr ok incoming h.ide ≡ done tt s') × IsFifo (record h { ide = s' })
unfolding ideintr
interrupt-IsFifo ok incoming h f = serve-IsFifo ok incoming h.ide.queue h refl f

step-IsFifo : (havedisk1 : Bool) (h h' : History) → IsFifo h → Step havedisk1 h h' → IsFifo h'
step-IsFifo havedisk1 _ _ f (request h b s' r e) =
    let (s2, e2, f2) = request-IsFifo havedisk1 h b f r in
    rw (same_run (iderw havedisk1 b h.ide) tt tt s' s2 e e2) f2
step-IsFifo havedisk1 _ _ f (interrupt h ok incoming s' e) =
    let (s2, e2, f2) = interrupt-IsFifo ok incoming h f in
    rw (same_run (ideintr ok incoming h.ide) tt tt s' s2 e e2) f2
step-IsFifo havedisk1 _ _ f (change h b buf out) = record {
  order = f.order;
  one_at_a_time = f.one_at_a_time;
  blocks = BlocksExist-elsewhere h.ide.bufs h.ide.queue b buf f.blocks out;
}

Reached-IsFifo : (havedisk1 : Bool) (h : History) → Reached havedisk1 h → IsFifo h
Reached-IsFifo havedisk1 h (begin bufs) = start-IsFifo bufs
Reached-IsFifo havedisk1 h' (after {h = h} before step) =
    step-IsFifo havedisk1 h h' (Reached-IsFifo havedisk1 h before) step

-- The disk driver is a queue. In every history of requests and interrupts, whatever the disk returns,
-- the buffers that were asked for are those whose owners were woken, followed by those in the queue, in
-- the order of the requests; and the disk got one command for each that was woken and one for the
-- first of the queue, in this order: it never has two at a time, and is idle only with an empty queue.
pub requests_in_order : (havedisk1 : Bool) (h : History) → Reached havedisk1 h → IsFifo h
requests_in_order havedisk1 h reached = Reached-IsFifo havedisk1 h reached

-- The driver never panics where its callers keep to what it asks of them.
driver_goes_on :
    (havedisk1 : Bool) (h : History)
    → Reached havedisk1 h
    → ((b : ℕ) → Ready havedisk1 h.ide b → (s' : Ide) × (iderw havedisk1 b h.ide ≡ done tt s'))
      × ((ok : Bool) (incoming : List ℕ) → (s' : Ide) × (ideintr ok incoming h.ide ≡ done tt s'))
driver_goes_on havedisk1 h reached =
    let f = Reached-IsFifo havedisk1 h reached in
    (
      λ b r. let (s', e, f') = request-IsFifo havedisk1 h b f r in (s', e),
      λ ok incoming. let (s', e, f') = interrupt-IsFifo ok incoming h f in (s', e),
    )
