-- ===== src/Io/Driver/Exchange.antt =====
-- A process reads a line: it waits, the line is typed on its terminal, Enter wakes it, and its
-- read hands over what was typed.
use create_an_os.Prelude.{
  ℕ, ◌≤◌, ◌<◌, ◌≡◌, ◌≢◌, refl, sym, ap, ◌∙◌, arith, List, [], ◌∷◌, ◌++◌, true, length, set, ok,
  read, write-ok, lt-of_read, read-set_self,
}
use create_an_os.Io.Terminal.{Tty, Console}
use create_an_os.Io.Tty.{std_read_line}
use create_an_os.Io.Tty.Input.{typed}
use create_an_os.Io.Tty.Line.{take_line, emptied, std_read_line_lem}
use create_an_os.Io.Tty.Typing.{
  Shows, IsPlain, put_all, put_all-Shows, typed_all, typed_all-plain, take_line-plain,
}
use create_an_os.Io.Syscalls.{sys_std_read_begin, sys_std_read_resume}
use create_an_os.Io.Keys
use create_an_os.Io.Driver.{Driver, interpret_key}
use create_an_os.Io.Driver.Wake.{waits_for, interpret_key-wakes}
use create_an_os.Proc.Table.{Pcb, ready, waiting_input}

-- The process table and the console once the process waits and the bytes of `s` are typed.
abbrev asleep : ℕ → Pcb → List Pcb → List Pcb
asleep p pcb procs = set procs p (record pcb { stat = waiting_input })

begin-ok :
    (p : ℕ) (pcb : Pcb) (procs : List Pcb)
    → read procs p ≡ ok pcb
    → sys_std_read_begin p procs ≡ ok (asleep p pcb procs)
unfolding sys_std_read_begin
begin-ok p pcb procs h =
    rw (h, write-ok procs p (record pcb { stat = waiting_input }) (lt-of_read procs p pcb h))

resume-ok :
    (p max_size : ℕ) (pcb : Pcb) (procs : List Pcb) (con : Console) (tty : Tty) (s : List ℕ)
    (tty' : Tty)
    → read procs p ≡ ok pcb
    → read con.ttys pcb.tty ≡ ok tty
    → std_read_line max_size tty ≡ ok (s, tty')
    → sys_std_read_resume p max_size procs con
      ≡ ok (s, record con { ttys = set con.ttys pcb.tty tty' })
unfolding sys_std_read_resume
resume-ok p max_size pcb procs con tty s tty' h here e =
    rw (h, here, e, write-ok con.ttys pcb.tty tty' (lt-of_read con.ttys pcb.tty tty here))

typed_all-last :
    (c : ℕ) (s line : List ℕ) → typed_all (s ++ c ∷ []) line ≡ typed c (typed_all s line)
unfolding typed_all
typed_all-last c [] line = refl
typed_all-last c (x ∷ s) line = typed_all-last c s (typed x line)

-- What a terminal hands over that holds `s` and a newline.
reads_line :
    (n max_size : ℕ) (s : List ℕ) (con : Console) (sh : Shows n (s ++ b'\n' ∷ []) con)
    → IsPlain s
    → length s ≤ max_size
    → std_read_line max_size sh.tty ≡ ok (s, emptied (length s) sh.tty)
reads_line n max_size s con sh plain room =
    std_read_line_lem max_size sh.tty sh.valid
    ∙ ap (λ l. ok (l, emptied (length l) sh.tty))
        (ap (take_line max_size) sh.holds ∙ take_line-plain s max_size plain room)

-- A process that waits for input of terminal `n` once `begin` has run.
waits :
    (n p : ℕ) (pcb : Pcb) → pcb.tty ≡ n → waits_for n (record pcb { stat = waiting_input }) ≡ true
waits n p pcb e = ground arith

-- A process reads on the terminal that is shown, while nothing waits there. A line of at most 127
-- plain bytes is typed, and Enter: every step returns, the process is ready again, and otherwise as
-- it was, and its read hands over the line. The buffer of the read must have room for it.
pub sys_std_read-interpret_key :
    (p n max_size mark : ℕ) (s : List ℕ) (pcb : Pcb) (d : Driver)
    → read d.procs p ≡ ok pcb
    → pcb.tty ≡ n
    → Shows n [] d.console
    → IsPlain s
    → length s < 128
    → length s ≤ max_size
    → mark ≢ 0
    → (procs : List Pcb) × (con con' : Console) × (d' : Driver) × (sys_std_read_begin p d.procs
        ≡ ok procs)
      × (put_all n s d.console ≡ ok con)
      × (interpret_key
            (record { code = Keys.enter; mark = mark })
            (record d { console = con; procs = procs })
          ≡ ok d')
      × (read d'.procs p ≡ ok (record pcb { stat = ready }))
      × (sys_std_read_resume p max_size d'.procs d'.console ≡ ok (s, con'))
sys_std_read-interpret_key p n max_size mark s pcb d h at_n shows plain short room down =
    let procs = asleep p pcb d.procs in
    let sleeper : Pcb = record pcb { stat = waiting_input } in
    let (con, e, sh) = put_all-Shows n s [] d.console shows in
    let (d', e', sh', woken) =
      interpret_key-wakes n mark (typed_all s []) (record d { console = con; procs = procs }) down
        sh in
    let line : typed b'\n' (typed_all s []) ≡ s ++ b'\n' ∷ [] =
      sym (typed_all-last b'\n' s []) ∙ typed_all-plain s [] plain (omega arith) in
    let full : Shows n (s ++ b'\n' ∷ []) d'.console = rw line at sh' in
    let again =
      woken.readers p sleeper (read-set_self d.procs p sleeper (lt-of_read d.procs p pcb h))
        (waits n p pcb at_n) in
    (
      procs,
      con,
      record d'.console { ttys = set d'.console.ttys pcb.tty (emptied (length s) full.tty) },
      d',
      begin-ok p pcb d.procs h,
      e,
      e',
      again,
      resume-ok p max_size (record pcb { stat = ready }) d'.procs d'.console full.tty s
          (emptied (length s) full.tty) again (ap (read d'.console.ttys) at_n ∙ full.here)
          (reads_line n max_size s d'.console full plain room),
    )
