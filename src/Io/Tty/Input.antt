-- ===== src/Io/Tty/Input.antt =====
-- The input queue of a terminal as an editable line: bytes are typed at its end, a backspace takes
-- the last one back, and a full queue takes no more.
use native.Mathlib.Numerals.{add-one}
use create_an_os.Prelude.{
  ℕ, suc, ◌+◌, ◌-◌, ◌%◌, ◌≤◌, ◌<◌, ◌≡◌, ◌≢◌, refl, sym, ap, ◌∙◌, List, [], ◌∷◌, ◌++◌, Option, none,
  some, arith, ltb, leb, ◌==◌, if◌then◌else◌, dec_lt, ℕ_discrete, length, set, length-set, ok,
  write-ok,
}
use create_an_os.Prelude.Ring.{window, length-window, window-set, window-last}
use create_an_os.Io.Terminal.{Tty}
use create_an_os.Io.Tty.{input_size, blank_tty, edit_input}

pub record IsValid (tty : Tty) : Type 0 where
  pub storage : length tty.input ≡ 128
  pub tail_in : tty.tail < 128
  pub cnt_in : tty.cnt ≤ 128
  pub head_at : tty.head ≡ (tty.tail + tty.cnt) % 128

-- The bytes that wait, oldest first.
abbrev pub contents : Tty → List ℕ
contents tty = window tty.input 128 tty.tail tty.cnt

pub blank_tty-IsValid : (addr : ℕ) → IsValid (blank_tty addr)
blank_tty-IsValid addr = omega arith

pub length-contents : (tty : Tty) → length (contents tty) ≡ tty.cnt
length-contents tty = length-window tty.input 128 tty.tail tty.cnt

unfoldable pub drop_last : List ℕ → List ℕ
drop_last [] = []
drop_last (x ∷ []) = []
drop_last (x ∷ y ∷ xs) = x ∷ drop_last (y ∷ xs)

drop_last-append : (xs : List ℕ) (x : ℕ) → drop_last (xs ++ x ∷ []) ≡ xs
unfolding drop_last
drop_last-append [] x = refl
drop_last-append (y ∷ []) x = refl
drop_last-append (y ∷ z ∷ xs) x = ap (◌∷◌ y) (drop_last-append (z ∷ xs) x)

-- The line after one more byte is typed.
unfoldable pub typed : ℕ → List ℕ → List ℕ
typed c line =
    if c == 8 then drop_last line else if ltb (length line) 128 then line ++ c ∷ [] else line

-- The terminal after `edit_input`.
abbrev pub after : Tty → Option Tty → Tty
after tty none = tty
after tty (some tty') = tty'

-- `out` is what typing `c` leaves of `tty`.
pub record Edited (c : ℕ) (tty : Tty) (out : Option Tty) : Type 0 where
  pub runs : edit_input c tty ≡ ok out
  pub valid : IsValid (after tty out)
  pub line : contents (after tty out) ≡ typed c (contents tty)
  pub screen : ((after tty out).addr ≡ tty.addr) × ((after tty out).pos ≡ tty.pos)

erased : Tty → Tty
erased tty = record tty { head = if tty.head == 0 then 127 else tty.head - 1; cnt = tty.cnt - 1 }

appended : ℕ → Tty → Tty
appended c tty = record tty {
  input = set tty.input tty.head c;
  head = if leb input_size (tty.head + 1) then 0 else tty.head + 1;
  cnt = tty.cnt + 1;
}

contents-erased :
    (tty : Tty) → IsValid tty → 0 < tty.cnt → contents (erased tty) ≡ drop_last (contents tty)
unfolding erased
contents-erased tty v h =
    let some_left : tty.cnt ≡ suc (tty.cnt - 1) = omega arith in
    sym (
      ap (λ n. drop_last (window tty.input 128 tty.tail n)) some_left
      ∙ ap drop_last (window-last tty.input 128 (tty.cnt - 1) tty.tail v.tail_in)
      ∙ drop_last-append (window tty.input 128 tty.tail (tty.cnt - 1)) _)

contents-appended :
    (c : ℕ) (tty : Tty)
    → IsValid tty
    → tty.cnt < 128
    → contents (appended c tty) ≡ contents tty ++ c ∷ []
unfolding appended
contents-appended c tty v h =
    rw add-one
      (window-set tty.input 128 c tty.cnt tty.tail tty.head (omega arith) v.tail_in h v.head_at)

erased-IsValid : (tty : Tty) → IsValid tty → 0 < tty.cnt → IsValid (erased tty)
unfolding erased
erased-IsValid tty v h = ground arith

appended-IsValid : (c : ℕ) (tty : Tty) → IsValid tty → tty.cnt < 128 → IsValid (appended c tty)
unfolding appended
appended-IsValid c tty v h = ground (arith, length-set tty.input tty.head c)

edit_backspace : (tty : Tty) → IsValid tty → (out : Option Tty) × Edited 8 tty out
edit_backspace tty v = elim (ℕ_discrete tty.cnt 0) [
  | yes empty ↦ (
    none,
    record {
      runs = unfold edit_input in ground arith;
      valid = v;
      line =
          unfold typed in rw (ap (window tty.input 128 tty.tail) empty) (unfold drop_last in refl);
      screen = (refl, refl);
    },
  )
  | no more ↦ (
    some (erased tty),
    record {
      runs = unfold edit_input erased in ground arith;
      valid = erased-IsValid tty v (omega arith);
      line = unfold typed in contents-erased tty v (omega arith);
      screen = unfold erased in (refl, refl);
    },
  )
]

edit_other : (c : ℕ) (tty : Tty) → c ≢ 8 → IsValid tty → (out : Option Tty) × Edited c tty out
edit_other c tty ne v = elim (dec_lt tty.cnt 128) [
  | yes room ↦ (
    some (appended c tty),
    record {
      runs = unfold edit_input appended in ground (arith, write-ok tty.input tty.head c);
      valid = appended-IsValid c tty v room;
      line = unfold typed in ground (arith, contents-appended c tty v room, length-contents tty);
      screen = unfold appended in (refl, refl);
    },
  )
  | no full ↦ (
    none,
    record {
      runs = unfold edit_input in ground arith;
      valid = v;
      line = unfold typed in ground (arith, length-contents tty);
      screen = (refl, refl);
    },
  )
]

-- On a valid terminal every byte is taken with no access outside of the queue: a backspace removes
-- the newest byte that waits, if there is one; any other byte is appended, unless 128 wait already;
-- the queue is valid again, and the terminal's screen is not touched.
pub edit_input-Edited : (c : ℕ) (tty : Tty) → IsValid tty → (out : Option Tty) × Edited c tty out
edit_input-Edited c tty v = elim (ℕ_discrete c 8) [
  | yes e ↦ rw e (edit_backspace tty v)
  | no ne ↦ edit_other c tty ne v
]
