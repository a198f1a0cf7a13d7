-- ===== src/Ide/History.antt =====
-- ide.c: histories of requests and interrupts, and the order in which they are to be served.
use os163_assi.Prelude.{
  ℕ, ◌≡◌, ap, refl, inl, inr, Bool, true, false, not, ◌&&◌, ◌||◌, List, [], ◌∷◌, ◌++◌, map, ◌==◌,
  leb, update, arith, Bool-cases,
}
use os163_assi.Kalloc.{done}
use os163_assi.Ide.{DiskBuf, Command, Ide, fssize, command, idestart, ideintr, iderw, is_done}

unfoldable pub has : ℕ → List ℕ → Bool
has b [] = false
has b (k ∷ queue) = k == b || has b queue

-- What `iderw` may be asked for: a busy buffer with something to do, on a disk and a block that are
-- there, and not already in the queue.
pub record Ready (havedisk1 : Bool) (s : Ide) (b : ℕ) : Type 0 where
  pub busy : (s.bufs b).busy ≡ true
  pub needed : is_done (s.bufs b) ≡ false
  pub disk : (not ((s.bufs b).dev == 0) && not havedisk1) ≡ false
  pub block : leb fssize (s.bufs b).blockno ≡ false
  pub new : has b s.queue ≡ false

-- The driver with the requests that came
pub record History : Type 0 where
  pub ide : Ide
  pub asked : List ℕ

-- A request, an interrupt, or a change of a buffer that is not in the queue
pub data Step (havedisk1 : Bool) : History → History → Type 0 where
  request :
      (h : History) (b : ℕ) (s' : Ide)
      → Ready havedisk1 h.ide b
      → iderw havedisk1 b h.ide ≡ done tt s'
      → Step havedisk1 h (record { ide = s'; asked = h.asked ++ (b ∷ []) })
  interrupt :
      (h : History) (ok : Bool) (incoming : List ℕ) (s' : Ide)
      → ideintr ok incoming h.ide ≡ done tt s'
      → Step havedisk1 h (record h { ide = s' })
  change :
      (h : History) (b : ℕ) (buf : DiskBuf)
      → has b h.ide.queue ≡ false
      → Step havedisk1 h (record h { ide = record h.ide { bufs = update h.ide.bufs b buf } })

pub data Reached (havedisk1 : Bool) : History → Type 0 where
  begin :
      (bufs : ℕ → DiskBuf)
      → Reached havedisk1 (record {
        ide = record { queue = []; bufs = bufs; started = []; woken = [] };
        asked = [];
      })
  after : {h h' : History} → Reached havedisk1 h → Step havedisk1 h h' → Reached havedisk1 h'

abbrev pub first : List ℕ → List ℕ
first [] = []
first (b ∷ queue) = b ∷ []

unfoldable pub BlocksExist : (ℕ → DiskBuf) → List ℕ → Type 0
BlocksExist bufs [] = Unit
BlocksExist bufs (b ∷ queue) = (leb fssize (bufs b).blockno ≡ false) × BlocksExist bufs queue

abbrev pub started_for : Ide → List ℕ
started_for s = map (λ c. c.0) s.started

pub record IsFifo (h : History) : Type 0 where
  pub order : h.asked ≡ h.ide.woken ++ h.ide.queue
  pub one_at_a_time : started_for h.ide ≡ h.ide.woken ++ first h.ide.queue
  pub blocks : BlocksExist h.ide.bufs h.ide.queue

map-append_one :
    (cs : List (ℕ × Command)) (c : ℕ × Command)
    → map (λ c. c.0) (cs ++ (c ∷ [])) ≡ map (λ c. c.0) cs ++ (c.0 ∷ [])
map-append_one [] c = refl
map-append_one (d ∷ cs) c = ap (λ l. d.0 ∷ l) (map-append_one cs c)

pub idestart_lem :
    (b : ℕ) (s : Ide)
    → leb fssize (s.bufs b).blockno ≡ false
    → (s' : Ide) × (idestart b s ≡ done tt s')
      × (s'.queue ≡ s.queue)
      × (s'.bufs ≡ s.bufs)
      × (s'.woken ≡ s.woken)
      × (started_for s' ≡ started_for s ++ (b ∷ []))
unfolding idestart
idestart_lem b s block = (
  record s { started = s.started ++ ((b, command (s.bufs b)) ∷ []) },
  rw block refl,
  refl,
  refl,
  refl,
  map-append_one s.started (b, command (s.bufs b)),
)

pub BlocksExist-append :
    (bufs : ℕ → DiskBuf) (queue : List ℕ) (b : ℕ)
    → BlocksExist bufs queue
    → leb fssize (bufs b).blockno ≡ false
    → BlocksExist bufs (queue ++ (b ∷ []))
unfolding BlocksExist
BlocksExist-append bufs [] b good new = (new, tt)
BlocksExist-append bufs (k ∷ queue) b (here, good) new =
    (here, BlocksExist-append bufs queue b good new)

-- The number of a block in the queue is the same whatever changes elsewhere.
pub BlocksExist-update :
    (bufs : ℕ → DiskBuf) (queue : List ℕ) (b : ℕ) (buf : DiskBuf)
    → BlocksExist bufs queue
    → (buf.blockno ≡ (bufs b).blockno)
    → BlocksExist (update bufs b buf) queue
unfolding BlocksExist
BlocksExist-update bufs [] b buf good same = tt
BlocksExist-update bufs (k ∷ queue) b buf (here, good) same = (
  elim (Bool-cases (b == k)) [
    | inl one ↦ let e : b ≡ k = ground arith in rw (one, same, e) here
    | inr other ↦ rw other here
  ],
  BlocksExist-update bufs queue b buf good same,
)

pub BlocksExist-elsewhere :
    (bufs : ℕ → DiskBuf) (queue : List ℕ) (b : ℕ) (buf : DiskBuf)
    → BlocksExist bufs queue
    → has b queue ≡ false
    → BlocksExist (update bufs b buf) queue
unfolding BlocksExist has
BlocksExist-elsewhere bufs [] b buf good out = tt
BlocksExist-elsewhere bufs (k ∷ queue) b buf (here, good) out =
    let other : (b == k) ≡ false = ground arith in
    (rw other here, BlocksExist-elsewhere bufs queue b buf good (ground arith))
