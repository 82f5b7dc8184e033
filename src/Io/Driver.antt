-- ===== src/Io/Driver.antt =====
-- io/tty.c, `transfer_buffer` and `tty_driver`: scan codes become keys, keys become modifier flags,
-- terminal switches and bytes in a terminal's queue.
pub mod Scan
pub mod Modifiers
pub mod Safety
pub mod History
pub mod Loop
pub mod Wake
pub mod Exchange
mod Tests
use create_an_os.Prelude.{
  ℕ, zero, suc, ◌+◌, ◌-◌, ◌*◌, ◌%◌, ◌^◌, bit_and, bit_or, bit_xor, Bool, true, false, not, List, [],
  ◌∷◌, leb, ltb, ◌==◌, ◌&&◌, ◌||◌, if◌then◌else◌, Outcome, ok, ◌>>=◌, read,
}
use create_an_os.Io.Kb.{Kb, get_byte_from_buffer}
use create_an_os.Io.Terminal.{Console}
use create_an_os.Io.Tty.{sys_switch_tty, put_tty_in_buffer}
use create_an_os.Io.Keys
use create_an_os.Io.Keymap.{keymap}
use create_an_os.Proc.Table.{Pcb, ready, is_waiting_input}

-- What the driver works on. `polls` is what the keyboard controller will have, one list for each
-- time that the driver asks.
pub record Driver : Type 0 where
  pub kb : Kb
  pub polls : List (List ℕ)
  pub kbflag : ℕ
  pub console : Console
  pub procs : List Pcb

-- A key and `mark`: 1 as it goes down, 0 as it comes up.
pub record Key : Type 0 where
  pub code : ℕ
  pub mark : ℕ

unfoldable pub next_byte : Driver → Outcome (ℕ × Driver)
next_byte d = do
  (byte, kb, polls) ← get_byte_from_buffer d.polls d.kb
  ok (byte, record d { kb = kb; polls = polls })

-- `mark = key & 0x80 ? 0 : 1; key &= 0x7f;`, then column `column` of the table.
unfoldable pub look_up : ℕ → ℕ → Outcome Key
look_up key column = do
  code ← read keymap (bit_and key 0x7f * 3 + column)
  ok (record { code = code; mark = if bit_and key 0x80 == 0 then 1 else 0 })

-- Two more bytes after the start of a print screen sequence; other bytes leave `mark` as it is.
unfoldable pub print_screen : ℕ → ℕ → ℕ → ℕ → Driver → Outcome (Key × Driver)
unfolding next_byte
print_screen key last pressed mark d = do
  (s1, d₁) ← next_byte d
  (s2, d₂) ← next_byte d₁
  let matched = s1 == 0xe0 && s2 == last
  ok (
    if matched
        then record { code = Keys.printscreen; mark = pressed }
        else record { code = key; mark = mark },
    d₂,
  )

-- The codes behind 0xe0.
unfoldable pub extended : ℕ → Driver → Outcome (Key × Driver)
unfolding next_byte look_up print_screen
extended mark d = next_byte d >>= λ (key, d').
    if key == 0x2a
    then print_screen key 0x37 1 mark d'
    else if key == 0xb7
    then print_screen key 0xaa 0 mark d'
    else (look_up key 2 >>= λ k. ok (k, d'))

-- The codes behind 0xe1.
unfoldable pub pause : ℕ → Driver → Outcome (Key × Driver)
unfolding next_byte
pause mark d = do
  (s0, d₀) ← next_byte d
  (s1, d₁) ← next_byte d₀
  (s2, d₂) ← next_byte d₁
  (s3, d₃) ← next_byte d₂
  (s4, d₄) ← next_byte d₃
  let matched = s0 == 0x1d && s1 == 0x45 && s2 == 0xe1 && s3 == 0x9d && s4 == 0xc5
  ok (
    if matched
        then record { code = Keys.pausebreak; mark = 1 }
        else record { code = 0xe1; mark = mark },
    d₄,
  )

-- The first half of `transfer_buffer`. `mark` is declared with no value: `garbage` is what it holds.
unfoldable pub interpret_scancode : ℕ → Driver → Outcome (Key × Driver)
unfolding next_byte extended pause look_up
interpret_scancode garbage d = next_byte d >>= λ (key, d').
    if key == 0xe0
    then extended garbage d'
    else if key == 0xe1
    then pause garbage d'
    else (look_up key (if bit_and d'.kbflag 0b11 == 0 then 0 else 1) >>= λ k. ok (k, d'))

unfoldable pub one_of : List ℕ → ℕ → Bool
one_of [] key = false
one_of (k ∷ ks) key = key == k || one_of ks key

-- The cases that only break, Tab's among them.
abbrev pub ignored_keys : List ℕ
ignored_keys =
    Keys.up ∷ Keys.down ∷ Keys.left ∷ Keys.right ∷ Keys.home ∷ Keys.end ∷ Keys.pgup ∷ Keys.pgdown
    ∷ Keys.insert ∷ Keys.delete ∷ Keys.esc ∷ Keys.pausebreak ∷ Keys.printscreen ∷ Keys.gui_l
    ∷ Keys.gui_r ∷ Keys.apps ∷ Keys.power ∷ Keys.sleep ∷ Keys.wake ∷ Keys.pad_slash ∷ Keys.pad_star
    ∷ Keys.pad_minus ∷ Keys.pad_plus ∷ Keys.pad_enter ∷ Keys.pad_dot ∷ Keys.pad_0 ∷ Keys.pad_1
    ∷ Keys.pad_2 ∷ Keys.pad_3 ∷ Keys.pad_4 ∷ Keys.pad_5 ∷ Keys.pad_6 ∷ Keys.pad_7 ∷ Keys.pad_8
    ∷ Keys.pad_9 ∷ Keys.tab ∷ []

abbrev pub function_keys : List ℕ
function_keys =
    Keys.f1 ∷ Keys.f2 ∷ Keys.f3 ∷ Keys.f4 ∷ Keys.f5 ∷ Keys.f6 ∷ Keys.f7 ∷ Keys.f8 ∷ Keys.f9
    ∷ Keys.f10 ∷ Keys.f11 ∷ Keys.f12 ∷ []

-- `if(mark)kbflag |= (1 << bit); else kbflag &= ~(1 << bit);`
unfoldable pub hold_flag : ℕ → ℕ → ℕ → ℕ
hold_flag bit mark flag =
    if mark == 0 then bit_and flag (2 ^ 32 - 1 - 2 ^ bit) % 2 ^ 16 else bit_or flag (2 ^ bit)

-- `if(mark)kbflag ^= (1 << bit);`
unfoldable pub toggle_flag : ℕ → ℕ → ℕ → ℕ
toggle_flag bit mark flag = if mark == 0 then flag else bit_xor flag (2 ^ bit)

-- The cases of the modifier and lock keys, as one function on `kbflag`.
unfoldable pub flag_after : Key → ℕ → ℕ
unfolding hold_flag toggle_flag
flag_after k flag =
    if k.code == Keys.shift_r
    then hold_flag 0 k.mark flag
    else if k.code == Keys.shift_l
    then hold_flag 1 k.mark flag
    else if k.code == Keys.ctrl_r
    then hold_flag 2 k.mark flag
    else if k.code == Keys.ctrl_l
    then hold_flag 3 k.mark flag
    else if k.code == Keys.alt_r
    then hold_flag 4 k.mark flag
    else if k.code == Keys.alt_l
    then hold_flag 5 k.mark flag
    else if k.code == Keys.caps_lock
    then toggle_flag 6 k.mark flag
    else if k.code == Keys.num_lock
    then toggle_flag 7 k.mark flag
    else if k.code == Keys.scroll_lock
    then toggle_flag 8 k.mark flag
    else flag

abbrev pub flag_keys : List ℕ
flag_keys =
    Keys.shift_r ∷ Keys.shift_l ∷ Keys.ctrl_r ∷ Keys.ctrl_l ∷ Keys.alt_r ∷ Keys.alt_l
    ∷ Keys.caps_lock ∷ Keys.num_lock ∷ Keys.scroll_lock ∷ []

-- Control, alt and one of the first two function keys.
unfoldable pub function_key : Key → Driver → Outcome Driver
function_key k d =
    let wanted =
      not (k.mark == 0)
      && not (bit_and d.kbflag 0b1100 == 0)
      && not (bit_and d.kbflag 0b110000 == 0)
      && ltb (k.code - Keys.f1) 2 in
    let switched = sys_switch_tty (k.code - Keys.f1) d.console >>= λ console.
    ok (record d { console = console }) in
    if wanted then switched else ok d

-- The body of Enter's loop over the process table.
unfoldable pub wake_reader : ℕ → Pcb → Pcb
wake_reader current_tty pcb =
    if is_waiting_input pcb.stat && pcb.tty == current_tty then record pcb { stat = ready } else pcb

unfoldable pub wake_readers : ℕ → List Pcb → List Pcb
unfolding wake_reader
wake_readers current_tty [] = []
wake_readers current_tty (pcb ∷ procs) =
    wake_reader current_tty pcb ∷ wake_readers current_tty procs

-- Capslock swaps the case of a letter.
unfoldable pub cased : ℕ → ℕ → ℕ
cased flag key =
    if bit_and flag (2 ^ 6) == 0
    then key
    else if leb b'a' key && leb key b'z'
    then key - 32
    else if leb b'A' key && leb key b'Z'
    then key + 32
    else key

-- `put_tty_in_buffer(current_tty, c)`; `c` is passed as a byte.
unfoldable pub put_key : ℕ → Driver → Outcome Driver
put_key c d = put_tty_in_buffer d.console.current_tty (c % 2 ^ 8) d.console >>= λ console.
    ok (record d { console = console })

unfoldable pub enter_key : Driver → Outcome Driver
enter_key d = put_key b'\n' d >>= λ d'.
    ok (record d' { procs = wake_readers d'.console.current_tty d'.procs })

-- The second half of `transfer_buffer`, the switch over the key.
unfoldable pub interpret_key : Key → Driver → Outcome Driver
interpret_key k d =
    if one_of ignored_keys k.code
    then ok d
    else if one_of function_keys k.code
    then function_key k d
    else if one_of flag_keys k.code
    then ok (record d { kbflag = flag_after k d.kbflag })
    else if k.mark == 0
    then ok d
    else if k.code == Keys.backspace
    then put_key 8 d
    else if k.code == Keys.enter
    then enter_key d
    else put_key (cased d.kbflag k.code) d

unfoldable pub transfer_buffer : ℕ → Driver → Outcome Driver
transfer_buffer garbage d = interpret_scancode garbage d >>= λ (k, d'). interpret_key k d'

-- `while(1)transfer_buffer();` for as many rounds as `garbage` has entries, the values that `mark`
-- happens to hold.
unfoldable pub tty_driver : List ℕ → Driver → Outcome Driver
tty_driver [] d = ok d
tty_driver (g ∷ garbage) d = transfer_buffer g d >>= tty_driver garbage
