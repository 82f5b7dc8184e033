-- ===== src/Io/Kb/Fifo.antt =====
-- The keyboard buffer is a first-in first-out queue of at most 32 bytes that drops what comes
-- when it is full.
use mathlib.Core.List.{append_assoc, append-nil}
use native.Mathlib.Numerals.{add-one}
use create_an_os.Prelude.{
  ℕ, suc, ◌+◌, ◌-◌, ◌%◌, ◌≤◌, ◌<◌, ◌≡◌, refl, sym, ap, ◌∙◌, List, [], ◌∷◌, ◌++◌, arith, length,
  get_or, set, take, take-nil, length-set, length-append, Outcome, ok, hang, ◌>>=◌, read-ok,
  write-ok, dec_lt, ℕ_discrete, ==_iff,
}
use create_an_os.Prelude.Ring.{window, length-window, window-set, window_of_pos}
use create_an_os.Io.Kb.{
  Kb, advance, init_keyboard_interrupt, receive, keyboard_handler, take_byte, get_byte_from_buffer,
}

pub record IsValid (kb : Kb) : Type 0 where
  pub storage : length kb.buffer ≡ 32
  pub tail_in : kb.tail < 32
  pub cnt_in : kb.cnt ≤ 32
  pub head_at : kb.head ≡ (kb.tail + kb.cnt) % 32

-- The bytes that wait, oldest first.
abbrev pub contents : Kb → List ℕ
contents kb = window kb.buffer 32 kb.tail kb.cnt

pub advance-mod : (p : ℕ) → p < 32 → advance p ≡ (p + 1) % 32
unfolding advance
advance-mod p h = ground arith

pub init-IsValid : IsValid init_keyboard_interrupt
unfolding init_keyboard_interrupt
init-IsValid = omega arith

-- What one call of the handler promises: it returns a valid buffer that holds `queue`.
abbrev pub Holds : List ℕ → Outcome Kb → Type 0
Holds queue run = (kb : Kb) × (run ≡ ok kb) × IsValid kb × (contents kb ≡ queue)

receive-full : (byte : ℕ) (kb : Kb) → 32 ≤ kb.cnt → receive byte kb ≡ ok kb
unfolding receive
receive-full byte kb h = ground arith

abbrev stored : ℕ → Kb → Kb
stored byte kb = record kb {
  buffer = set kb.buffer kb.head byte;
  head = advance kb.head;
  cnt = kb.cnt + 1;
}

receive-ok : (byte : ℕ) (kb : Kb) → IsValid kb → kb.cnt < 32 → receive byte kb ≡ ok (stored byte kb)
unfolding receive
receive-ok byte kb v h = ground (arith, write-ok kb.buffer kb.head byte)

stored-IsValid : (byte : ℕ) (kb : Kb) → IsValid kb → kb.cnt < 32 → IsValid (stored byte kb)
stored-IsValid byte kb v h = ground (arith, length-set kb.buffer kb.head byte, advance-mod kb.head)

contents-stored :
    (byte : ℕ) (kb : Kb)
    → IsValid kb
    → kb.cnt < 32
    → contents (stored byte kb) ≡ contents kb ++ byte ∷ []
contents-stored byte kb v h = rw add-one (
    window-set kb.buffer 32 byte kb.cnt kb.tail kb.head (omega arith) v.tail_in (omega arith)
      v.head_at)

length-contents : (kb : Kb) → length (contents kb) ≡ kb.cnt
length-contents kb = length-window kb.buffer 32 kb.tail kb.cnt

-- The abstract queue: its newest end takes bytes while there is room.
unfoldable pub enqueue : List ℕ → List ℕ → List ℕ
enqueue queue bytes = queue ++ take (32 - length queue) bytes

enqueue-full : (queue bytes : List ℕ) → 32 ≤ length queue → enqueue queue bytes ≡ queue
unfolding enqueue
enqueue-full queue bytes h =
    let none_left : 32 - length queue ≡ 0 = omega arith in rw none_left (append-nil queue)

enqueue-cons :
    (queue bytes : List ℕ) (byte : ℕ)
    → length queue < 32
    → enqueue queue (byte ∷ bytes) ≡ enqueue (queue ++ byte ∷ []) bytes
unfolding enqueue
enqueue-cons queue bytes byte h =
    let room : 32 - length queue ≡ suc (32 - length (queue ++ byte ∷ [])) =
      omega (arith, length-append queue (byte ∷ [])) in
    rw room (sym (append_assoc queue (byte ∷ []) _))

-- The handler reads all that the controller has, keeps what fits behind what waits already, in
-- order, and drops the rest; it never writes outside of the buffer.
pub keyboard_handler-enqueues :
    (bytes : List ℕ) (kb : Kb)
    → IsValid kb
    → Holds (enqueue (contents kb) bytes) (keyboard_handler bytes kb)
unfolding keyboard_handler
keyboard_handler-enqueues [] kb v = (
  kb,
  refl,
  v,
  sym (unfold enqueue in rw (take-nil {0} (32 - length (contents kb))) (append-nil (contents kb))),
)
keyboard_handler-enqueues (byte ∷ bytes) kb v = elim (dec_lt kb.cnt 32) [
  | yes room ↦
      let rest = keyboard_handler-enqueues bytes (stored byte kb) (stored-IsValid byte kb v room) in
      rw
        (receive-ok byte kb v room, enqueue-cons (contents kb) bytes byte (rw length-contents room))
        (rw (contents-stored byte kb v room) at rest)
  | no full ↦
      let rest = keyboard_handler-enqueues bytes kb v in
      rw
        (
          receive-full byte kb (omega arith),
          enqueue-full (contents kb) (byte ∷ bytes) (rw length-contents (omega arith)),
        )
        (rw (enqueue-full (contents kb) bytes (rw length-contents (omega arith))) at rest)
]

-- The abstract reader: it takes the oldest byte, and waits for one where there is none.
unfoldable pub dequeue : List (List ℕ) → List ℕ → Outcome (ℕ × List ℕ × List (List ℕ))
unfolding enqueue
dequeue polls (byte ∷ queue) = ok (byte, queue, polls)
dequeue [] [] = hang
dequeue (poll ∷ polls) [] = dequeue polls (enqueue [] poll)

-- What a reader sees of a run: the byte, the bytes that are left, and the rounds that are left.
abbrev pub seen : Outcome (ℕ × Kb × List (List ℕ)) → Outcome (ℕ × List ℕ × List (List ℕ))
seen run = do (byte, kb, polls) ← run; ok (byte, contents kb, polls)

take_byte-ok :
    (kb : Kb)
    → IsValid kb
    → 0 < kb.cnt
    → (kb' : Kb) × (take_byte kb ≡ ok (get_or kb.buffer kb.tail 0, kb'))
      × IsValid kb'
      × (contents kb ≡ get_or kb.buffer kb.tail 0 ∷ contents kb')
unfolding take_byte
take_byte-ok kb v h = (
  record kb { tail = advance kb.tail; cnt = kb.cnt - 1 },
  rw (read-ok kb.buffer kb.tail 0 (omega arith)),
  ground (arith, advance-mod kb.tail),
  window_of_pos kb.buffer 32 kb.tail kb.cnt h
      ∙ ap (λ t. get_or kb.buffer kb.tail 0 ∷ window kb.buffer 32 t (kb.cnt - 1))
          (sym (advance-mod kb.tail v.tail_in)),
)

contents-empty : (kb : Kb) → kb.cnt ≡ 0 → contents kb ≡ []
contents-empty kb h = ap (window kb.buffer 32 kb.tail) h

-- The reader waits as long as the queue is empty, through as many rounds as it takes, and then has
-- the oldest byte; it reads inside the buffer, and hangs only if no round brings a byte.
pub get_byte_from_buffer-dequeues :
    (polls : List (List ℕ)) (kb : Kb)
    → IsValid kb
    → seen (get_byte_from_buffer polls kb) ≡ dequeue polls (contents kb)
unfolding get_byte_from_buffer dequeue
get_byte_from_buffer-dequeues [] kb v = elim (ℕ_discrete kb.cnt 0) [
  | yes empty ↦ rw (contents-empty kb empty, (==_iff kb.cnt 0).1 empty)
  | no some_left ↦ ground (arith, take_byte-ok kb v)
]
get_byte_from_buffer-dequeues (poll ∷ polls) kb v = elim (ℕ_discrete kb.cnt 0) [
  | yes empty ↦
      let (kb', e, v', held) = keyboard_handler-enqueues poll kb v in
      let rest = get_byte_from_buffer-dequeues polls kb' v' in
      rw ((==_iff kb.cnt 0).1 empty, e, contents-empty kb empty)
        (rw (held, contents-empty kb empty) at rest)
  | no some_left ↦ ground (arith, take_byte-ok kb v)
]

-- A byte that is read leaves a valid buffer.
pub get_byte_from_buffer-IsValid :
    (polls : List (List ℕ)) (kb : Kb)
    → IsValid kb
    → (r : ℕ × Kb × List (List ℕ)) → get_byte_from_buffer polls kb ≡ ok r
    → IsValid r.1
unfolding get_byte_from_buffer
get_byte_from_buffer-IsValid [] kb v r h = ground (arith, take_byte-ok kb v)
get_byte_from_buffer-IsValid (poll ∷ polls) kb v r h =
    let (kb', e, v', held) = keyboard_handler-enqueues poll kb v in
    ground (arith, take_byte-ok kb v, e, get_byte_from_buffer-IsValid polls kb' v' r)
