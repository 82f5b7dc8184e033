-- ===== src/Io/Driver/Wake.antt =====
-- Enter: the end of the line, and the processes that wait for one.
use create_an_os.Prelude.{
  ℕ, zero, suc, ◌≡◌, ◌≢◌, refl, ap, ◌∙◌, arith, Bool, true, false, ◌&&◌, List, [], ◌∷◌, ◌==◌,
  length, Outcome, ok, ◌>>=◌, read,
}
use create_an_os.Io.Terminal.{Console}
use create_an_os.Io.Tty.{put_tty_in_buffer}
use create_an_os.Io.Tty.Input.{typed}
use create_an_os.Io.Tty.Typing.{Shows, put_tty_in_buffer-Shows}
use create_an_os.Io.Keys
use create_an_os.Io.Driver.{
  Driver, one_of, put_key, enter_key, wake_reader, wake_readers, interpret_key,
}
use create_an_os.Proc.Table.{Pcb, ready, is_waiting_input}

-- The process waits for input of terminal `n`.
abbrev pub waits_for : ℕ → Pcb → Bool
waits_for n pcb = is_waiting_input pcb.stat && pcb.tty == n

wake_readers-read :
    (n i : ℕ) (procs : List Pcb) (pcb : Pcb)
    → read procs i ≡ ok pcb
    → read (wake_readers n procs) i ≡ ok (wake_reader n pcb)
unfolding wake_readers read
wake_readers-read n i [] pcb h = absurd (cc)
wake_readers-read n zero (x ∷ procs) pcb h = ground (arith, h)
wake_readers-read n (suc i) (x ∷ procs) pcb h = wake_readers-read n i procs pcb h

length-wake_readers : (n : ℕ) (procs : List Pcb) → length (wake_readers n procs) ≡ length procs
unfolding wake_readers
length-wake_readers n [] = refl
length-wake_readers n (x ∷ procs) = ap suc (length-wake_readers n procs)

-- The process table once the readers of terminal `n` are woken.
pub record Woken (n : ℕ) (procs procs' : List Pcb) : Type 0 where
  pub size : length procs' ≡ length procs
  pub readers :
      (i : ℕ) (pcb : Pcb)
      → read procs i ≡ ok pcb
      → waits_for n pcb ≡ true
      → read procs' i ≡ ok (record pcb { stat = ready })
  pub others :
      (i : ℕ) (pcb : Pcb) → read procs i ≡ ok pcb → waits_for n pcb ≡ false → read procs' i ≡ ok pcb

wake_readers-Woken : (n : ℕ) (procs : List Pcb) → Woken n procs (wake_readers n procs)
unfolding wake_reader
wake_readers-Woken n procs = record {
  size = length-wake_readers n procs;
  readers = λ i pcb h w. wake_readers-read n i procs pcb h ∙ rw w refl;
  others = λ i pcb h w. wake_readers-read n i procs pcb h ∙ rw w refl;
}

put_newline :
    (n : ℕ) (d : Driver) (con' : Console)
    → d.console.current_tty ≡ n
    → put_tty_in_buffer n b'\n' d.console ≡ ok con'
    → put_key b'\n' d ≡ ok (record d { console = con' })
unfolding put_key
put_newline n d con' shown e =
    let back : Console → Outcome Driver = λ con. ok (record d { console = con }) in
    ap (λ m. put_tty_in_buffer m b'\n' d.console >>= back) shown ∙ ap (λ run. run >>= back) e

enter_key-wakes :
    (n : ℕ) (line : List ℕ) (d : Driver)
    → Shows n line d.console
    → (d' : Driver) × (enter_key d ≡ ok d')
      × Shows n (typed b'\n' line) d'.console
      × Woken n d.procs d'.procs
unfolding enter_key
enter_key-wakes n line d s =
    let (con', e, s', _) = put_tty_in_buffer-Shows n b'\n' line d.console s in
    let after : ℕ → Outcome Driver =
      λ m. ok (record d { console = con'; procs = wake_readers m d.procs }) in
    let wake : Driver → Outcome Driver =
      λ d'. ok (record d' { procs = wake_readers d'.console.current_tty d'.procs }) in
    (
      record d { console = con'; procs = wake_readers n d.procs },
      ap (λ run. run >>= wake) (put_newline n d con' s.shown e) ∙ ap after s'.shown,
      s',
      wake_readers-Woken n d.procs,
    )

enter_case :
    (m : ℕ) (d : Driver)
    → m ≢ 0
    → interpret_key (record { code = Keys.enter; mark = m }) d ≡ enter_key d
unfolding interpret_key one_of
enter_case m d h = ground arith

-- Enter ends the line of the terminal that is shown, if a byte still fits there, and makes exactly
-- the processes that wait for input of that terminal ready: nothing else in the process table
-- changes. The run returns.
pub interpret_key-wakes :
    (n m : ℕ) (line : List ℕ) (d : Driver)
    → m ≢ 0
    → Shows n line d.console
    → (d' : Driver) × (interpret_key (record { code = Keys.enter; mark = m }) d ≡ ok d')
      × Shows n (typed b'\n' line) d'.console
      × Woken n d.procs d'.procs
interpret_key-wakes n m line d h s = rw (enter_case m d h) (enter_key-wakes n line d s)
