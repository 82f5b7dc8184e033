-- ===== src/Sys/Int/Dispatch.antt =====
-- Which handler an interrupt comes to.
use create_an_os.Prelude.{
  ℕ, ◌+◌, ◌-◌, ◌*◌, ◌^◌, ◌≤◌, ◌<◌, ◌≡◌, refl, arith, List, ◌++◌, [], ◌∷◌, Option, none, some, ◌==◌,
  if◌then◌else◌, ℕ_discrete, length, get_or, drop, set, ok, ◌>>=◌, true, false, read, write-ok,
  read-set_self, read-set_ne,
}
use create_an_os.Sys.Frame.{Frame}
use create_an_os.Io.Terminal.{Tty, Console}
use create_an_os.Video.Text.{cell}
use create_an_os.Sys.Int.{Handler, Interrupts, returned, stopped, register_isr_handler, isr_handler}
use create_an_os.Sys.Int.Message.{
  message, hex_value, buffer_lem, c_string-message, message-IsText, message-number,
  hex_value-hex_digits,
}
use create_an_os.Sys.Int.Alarm.{alarm_lem}

module _ {S : Type 0} (console : S → Console) where
  -- Registering a handler for an interrupt number of the table returns. From then on that interrupt
  -- runs this handler, and any other does what it did.
  pub isr_handler-register_isr_handler :
      (num : ℕ) (handler : Handler S) (ints : Interrupts S)
      → num < length ints.isr_handlers
      → (ints' : Interrupts S) × (register_isr_handler num handler ints ≡ ok ints')
        × ((param : Frame) (s : S)
            → isr_handler console ints'.isr_handlers param s ≡ (
                if num == param.num
                then (handler param s >>= λ s'. ok (returned s'))
                else isr_handler console ints.isr_handlers param s))
  unfolding register_isr_handler isr_handler
  isr_handler-register_isr_handler num handler ints inside = (
    record ints { isr_handlers = set ints.isr_handlers num (some handler) },
    rw (write-ok ints.isr_handlers num (some handler) inside),
    λ param s. elim (ℕ_discrete num param.num) [
      | yes same ↦
          let here : read (set ints.isr_handlers num (some handler)) param.num ≡ ok (some handler) =
            rw (← same) (read-set_self ints.isr_handlers num (some handler) inside) in
          let hit : (num == param.num) ≡ true = ground (arith, same) in rw (here, hit) refl
      | no other ↦
          let miss : (num == param.num) ≡ false = ground (arith, other) in
          rw (read-set_ne ints.isr_handlers num param.num (some handler) other, miss) refl
    ],
  )

  -- An interrupt below 100 for which no handler is registered stops the kernel, while the terminal
  -- that is shown is one of the first two: that terminal shows a message from its first cell on, in
  -- which the two digits are the interrupt's number and the last eight, read as a hexadecimal
  -- number, are the address where it happened.
  pub isr_handler-stops :
      (handlers : List (Option (Handler S))) (param : Frame) (s : S) (tty : Tty)
      → read handlers param.num ≡ ok none
      → param.num < 100
      → param.eip < 2 ^ 32
      → read (console s).ttys (console s).current_tty ≡ ok tty
      → tty.addr ≤ 2000
      → (con : Console) × (text : List ℕ) × (isr_handler console handlers param s
          ≡ ok (stopped con))
        × (length text ≡ 38)
        × ((j : ℕ) → j < 38 → con.memory (tty.addr + j) ≡ cell (get_or text j 0) 0x24)
        × ((get_or text 22 0 - b'0') * 10 + (get_or text 23 0 - b'0') ≡ param.num)
        × (hex_value 0 (drop 30 text) ≡ param.eip)
  unfolding isr_handler
  isr_handler-stops handlers param s tty missing small word shown a =
      let (con, e, cells) =
        alarm_lem (message param.num param.eip ++ 0 ∷ []) (message param.num param.eip) tty
          (console s) (c_string-message param.num param.eip small)
          (message-IsText param.num param.eip small) (omega arith) shown a in
      (
        con,
        message param.num param.eip,
        rw (missing, buffer_lem param, e),
        refl,
        cells,
        message-number param.num small,
        hex_value-hex_digits param.eip word,
      )
