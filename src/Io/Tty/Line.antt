-- ===== src/Io/Tty/Line.antt =====
-- What `std_read` hands to a process: the line that waits.
use create_an_os.Prelude.{
  ℕ, zero, suc, ◌+◌, ◌-◌, ◌%◌, ◌≤◌, ◌<◌, ◌≡◌, refl, ap, ◌∙◌, inl, inr, List, [], ◌∷◌, arith, ◌==◌,
  ◌||◌, if◌then◌else◌, Bool-cases, true, false, length, get_or, ok, ◌>>=◌, read-ok,
}
use create_an_os.Prelude.Ring.{window}
use create_an_os.Io.Terminal.{Tty}
use create_an_os.Io.Tty.{input_size, copy_line, drain, std_read_line}
use create_an_os.Io.Tty.Input.{IsValid, contents}

-- The bytes in front of the first newline, `room` of them at most.
unfoldable pub take_line : ℕ → List ℕ → List ℕ
take_line room [] = []
take_line room (c ∷ q) = if c == b'\n' || room == 0 then [] else c ∷ take_line (room - 1) q

-- A terminal whose reader went on by `k` bytes.
abbrev pub advanced : ℕ → Tty → Tty
advanced k tty = record tty { tail = (tty.tail + k) % 128; cnt = tty.cnt - k }

advanced-IsValid : (k : ℕ) (tty : Tty) → IsValid tty → k ≤ tty.cnt → IsValid (advanced k tty)
advanced-IsValid k tty v h = ground arith

pub length-take_line-le : (room : ℕ) (q : List ℕ) → length (take_line room q) ≤ length q
unfolding take_line
length-take_line-le room [] = omega arith
length-take_line-le room (c ∷ q) = ground (arith, length-take_line-le (room - 1) q)

advanced-zero : (tty : Tty) → IsValid tty → tty ≡ advanced 0 tty
advanced-zero tty v =
    let same : tty.tail ≡ (tty.tail + 0) % 128 = omega arith in
    let all_left : tty.cnt ≡ tty.cnt - 0 = omega arith in
    λ i. record tty { tail = same i; cnt = all_left i }

advanced-advanced : (k : ℕ) (tty : Tty) → advanced k (advanced 1 tty) ≡ advanced (suc k) tty
advanced-advanced k tty =
    let same : ((tty.tail + 1) % 128 + k) % 128 ≡ (tty.tail + suc k) % 128 = omega arith in
    let left : tty.cnt - 1 - k ≡ tty.cnt - suc k = omega arith in
    λ i. record tty { tail = same i; cnt = left i }

-- One round of the copying loop.
module _ (left room : ℕ) (tty : Tty) (inside : tty.tail < length tty.input) where
  copy_line-stop :
      (get_or tty.input tty.tail 0 == b'\n' || room == 0) ≡ true
      → copy_line (suc left) room tty ≡ ok ([], tty)
  unfolding copy_line
  copy_line-stop h = rw (read-ok tty.input tty.tail 0 inside, h)

  copy_line-go :
      (get_or tty.input tty.tail 0 == b'\n' || room == 0) ≡ false
      → copy_line (suc left) room tty ≡ (
          copy_line left (room - 1) (record tty {
            tail = if tty.tail + 1 == input_size then 0 else tty.tail + 1;
            cnt = left;
          })
          >>= λ (line, tty'). ok (get_or tty.input tty.tail 0 ∷ line, tty'))
  unfolding copy_line
  copy_line-go h = rw (read-ok tty.input tty.tail 0 inside, h)

one_on :
    (left : ℕ) (tty : Tty)
    → IsValid tty
    → tty.cnt ≡ suc left
    → record tty { tail = if tty.tail + 1 == input_size then 0 else tty.tail + 1; cnt = left }
      ≡ advanced 1 tty
one_on left tty v h =
    let same : (if tty.tail + 1 == input_size then 0 else tty.tail + 1) ≡ (tty.tail + 1) % 128 =
      ground (arith, v.tail_in) in
    let rest : left ≡ tty.cnt - 1 = omega arith in λ i. record tty { tail = same i; cnt = rest i }

-- One entry of the line.
module _ (room c : ℕ) (q : List ℕ) where
  take_line-stop : (c == b'\n' || room == 0) ≡ true → take_line room (c ∷ q) ≡ []
  unfolding take_line
  take_line-stop h = rw h

  take_line-go :
      (c == b'\n' || room == 0) ≡ false → take_line room (c ∷ q) ≡ c ∷ take_line (room - 1) q
  unfolding take_line
  take_line-go h = rw h

copy_line_lem :
    (left room : ℕ) (tty : Tty)
    → IsValid tty
    → tty.cnt ≡ left
    → let line = take_line room (window tty.input 128 tty.tail left) in
      copy_line left room tty ≡ ok (line, advanced (length line) tty)
copy_line_lem zero room tty v h =
    unfold copy_line take_line in ap (λ t. ok ([], t)) (advanced-zero tty v)
copy_line_lem (suc left) room tty v h =
    let c = get_or tty.input tty.tail 0 in
    let inside : tty.tail < length tty.input = omega arith in
    let rest = window tty.input 128 ((tty.tail + 1) % 128) left in
    elim (Bool-cases (c == b'\n' || room == 0)) [
      | inl stop ↦
          rw (copy_line-stop left room tty inside stop, take_line-stop room c rest stop)
            (ap (λ t. ok ([], t)) (advanced-zero tty v))
      | inr go ↦
          rw
            (
              copy_line-go left room tty inside go,
              take_line-go room c rest go,
              one_on left tty v h,
              copy_line_lem left (room - 1) (advanced 1 tty)
                  (advanced-IsValid 1 tty v (omega arith)) (omega arith),
            )
            (ap (λ t. ok (c ∷ take_line (room - 1) rest, t))
              (advanced-advanced (length (take_line (room - 1) rest)) tty))
    ]

drain_lem :
    (left : ℕ) (tty : Tty)
    → tty.cnt ≡ left
    → drain left tty ≡ record tty { tail = tty.tail + left; cnt = 0 }
unfolding drain
drain_lem zero tty h =
    let same : tty.tail ≡ tty.tail + 0 = omega arith in λ i. record tty { tail = same i; cnt = h i }
drain_lem (suc left) tty h =
    let same : tty.tail + 1 + left ≡ tty.tail + suc left = omega arith in
    drain_lem left (record tty { tail = tty.tail + 1; cnt = left }) refl
    ∙ (λ i. record tty { tail = same i; cnt = 0 })

-- A terminal after a line of `k` bytes was read: the rest of its queue is gone.
abbrev pub emptied : ℕ → Tty → Tty
emptied k tty = record tty { tail = (tty.tail + k) % 128 + (tty.cnt - k); cnt = 0 }

-- Reading from a valid terminal hands over the bytes in front of the first newline, `max_size` of
-- them at most, reads only inside of the queue, and empties it: what waits behind is dropped, and
-- `tail` goes on by its number.
pub std_read_line_lem :
    (max_size : ℕ) (tty : Tty)
    → IsValid tty
    → let line = take_line max_size (contents tty) in
      std_read_line max_size tty ≡ ok (line, emptied (length line) tty)
unfolding std_read_line
std_read_line_lem max_size tty v =
    let line = take_line max_size (contents tty) in
    rw (copy_line_lem tty.cnt max_size tty v refl)
      (ap (λ t. ok (line, t)) (drain_lem (tty.cnt - length line) (advanced (length line) tty) refl))

-- Where the queue does not go round behind the line, the terminal is valid again, and empty.
pub emptied-IsValid :
    (k : ℕ) (tty : Tty)
    → IsValid tty
    → k ≤ tty.cnt
    → (tty.tail + k) % 128 + (tty.cnt - k) < 128
    → IsValid (emptied k tty)
emptied-IsValid k tty v h inside = omega arith
