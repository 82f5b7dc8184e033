-- ===== src/Io/Driver/Loop.antt =====
-- `tty_driver` as a whole: bytes from the keyboard, scan codes of one to six bytes, and the switch.
use create_an_os.Prelude.{
  ℕ, ◌≡◌, ◌<◌, refl, arith, bit_and, List, [], ◌∷◌, ◌==◌, if◌then◌else◌, Bool-cases, inl, inr,
  Outcome, ok, hang, fault, ◌>>=◌,
}
use create_an_os.Io.Kb.{Kb, get_byte_from_buffer}
use create_an_os.Io.Kb.Fifo
use create_an_os.Io.Kb.Fifo.{
  seen, dequeue, get_byte_from_buffer-dequeues, get_byte_from_buffer-IsValid,
}
use create_an_os.Io.Tty.Switch.{IsSound}
use create_an_os.Io.Driver.{
  Driver, Key, next_byte, look_up, print_screen, extended, pause, interpret_scancode,
  transfer_buffer, tty_driver,
}
use create_an_os.Io.Driver.Scan.{look_up-ok}
use create_an_os.Io.Driver.Safety.{interpret_key-Handled}

-- A run that never leaves an object: it returns with `P`, or waits for ever.
abbrev pub Safely {ℓ} : {A : Type ℓ} → Outcome A → (A → Type 0) → Type 0
Safely (ok a) P = P a
Safely hang P = Unit {0}
Safely fault P = ⊥

pub record IsReady (d : Driver) : Type 0 where
  pub kb : Fifo.IsValid d.kb
  pub console : IsSound d.console

pub safely-bind {ℓ κ} :
    {A : Type ℓ} {B : Type κ} (P : A → Type 0) (Q : B → Type 0) (m : Outcome A) (f : A → Outcome B)
    → Safely m P
    → ((a : A) → P a → Safely (f a) Q)
    → Safely (m >>= f) Q
safely-bind P Q (ok a) f h k = k a h
safely-bind P Q hang f h k = h
safely-bind P Q fault f h k = absurd h

-- The reader does not leave the buffer.
dequeue-safe :
    (polls : List (List ℕ)) (queue : List ℕ) → Safely (dequeue polls queue) (λ _. Unit {0})
unfolding dequeue
dequeue-safe polls (byte ∷ queue) = tt
dequeue-safe [] [] = tt
dequeue-safe (poll ∷ polls) [] = dequeue-safe polls _

seen-safe :
    (run : Outcome (ℕ × Kb × List (List ℕ)))
    → Safely (seen run) (λ _. Unit {0})
    → ((r : ℕ × Kb × List (List ℕ)) → run ≡ ok r → Fifo.IsValid r.1)
    → Safely run (λ r. Fifo.IsValid r.1)
seen-safe (ok r) h v = v r refl
seen-safe hang h v = tt
seen-safe fault h v = h

get_byte-safe :
    (polls : List (List ℕ)) (kb : Kb)
    → Fifo.IsValid kb
    → Safely (get_byte_from_buffer polls kb) (λ r. Fifo.IsValid r.1)
get_byte-safe polls kb v =
    seen-safe (get_byte_from_buffer polls kb)
      (rw (get_byte_from_buffer-dequeues polls kb v) (dequeue-safe polls (Fifo.contents kb)))
      (get_byte_from_buffer-IsValid polls kb v)

-- A run of the decoder that leaves a driver that is ready.
abbrev Decodes : Outcome (Key × Driver) → Type 0
Decodes run = Safely run (λ r. IsReady r.1)

next_byte-safe : (d : Driver) → IsReady d → Safely (next_byte d) (λ r. IsReady r.1)
unfolding next_byte
next_byte-safe d v =
    safely-bind (λ r. Fifo.IsValid r.1) (λ r. IsReady r.1) (get_byte_from_buffer d.polls d.kb) _
      (get_byte-safe d.polls d.kb v.kb) (λ r h. record { kb = h; console = v.console })

-- The same, with what follows a byte.
with_byte {κ} :
    {B : Type κ} (Q : B → Type 0) (d : Driver) (f : ℕ × Driver → Outcome B)
    → IsReady d
    → ((r : ℕ × Driver) → IsReady r.1 → Safely (f r) Q)
    → Safely (next_byte d >>= f) Q
with_byte Q d f v k = safely-bind (λ r. IsReady r.1) Q (next_byte d) f (next_byte-safe d v) k

look_up-safe :
    (key column : ℕ) (d : Driver)
    → column < 3
    → IsReady d
    → Decodes (look_up key column >>= λ k. ok (k, d))
look_up-safe key column d h v = rw ((look_up-ok key column h).1) v

print_screen-safe :
    (key last pressed mark : ℕ) (d : Driver)
    → IsReady d
    → Decodes (print_screen key last pressed mark d)
unfolding print_screen
print_screen-safe key last pressed mark d v =
    with_byte (λ r. IsReady r.1) d _ v
      (λ r₁ v₁. with_byte (λ r. IsReady r.1) r₁.1 _ v₁ (λ r₂ v₂. v₂))

extended-safe : (mark : ℕ) (d : Driver) → IsReady d → Decodes (extended mark d)
unfolding extended
extended-safe mark d v =
    with_byte (λ r. IsReady r.1) d _ v
      (λ r w. elim (Bool-cases (r.0 == 0x2a)) [
        | inl e ↦ rw e (print_screen-safe r.0 0x37 1 mark r.1 w)
        | inr e ↦ elim (Bool-cases (r.0 == 0xb7)) [
          | inl e' ↦ rw (e, e') (print_screen-safe r.0 0xaa 0 mark r.1 w)
          | inr e' ↦ rw (e, e') (look_up-safe r.0 2 r.1 (omega arith) w)
        ]
      ])

pause-safe : (mark : ℕ) (d : Driver) → IsReady d → Decodes (pause mark d)
unfolding pause
pause-safe mark d v =
    let Ready : (Key × Driver) → Type 0 = λ r. IsReady r.1 in
    with_byte Ready d _ v (λ r₀ v₀. with_byte Ready r₀.1 _ v₀ (λ r₁ v₁.
      with_byte Ready r₁.1 _ v₁
        (λ r₂ v₂. with_byte Ready r₂.1 _ v₂ (λ r₃ v₃. with_byte Ready r₃.1 _ v₃ (λ r₄ v₄. v₄)))))

plain_column : (flag : ℕ) → (if bit_and flag 0b11 == 0 then 0 else 1) < 3
plain_column flag = ground arith

interpret_scancode-safe :
    (garbage : ℕ) (d : Driver) → IsReady d → Decodes (interpret_scancode garbage d)
unfolding interpret_scancode
interpret_scancode-safe garbage d v =
    with_byte (λ r. IsReady r.1) d _ v
      (λ r w. elim (Bool-cases (r.0 == 0xe0)) [
        | inl e ↦ rw e (extended-safe garbage r.1 w)
        | inr e ↦ elim (Bool-cases (r.0 == 0xe1)) [
          | inl e' ↦ rw (e, e') (pause-safe garbage r.1 w)
          | inr e' ↦ rw (e, e') (look_up-safe r.0 _ r.1 (plain_column r.1.kbflag) w)
        ]
      ])

-- One round of the driver, whatever bytes come and whatever value `mark` had.
pub transfer_buffer-safe :
    (garbage : ℕ) (d : Driver) → IsReady d → Safely (transfer_buffer garbage d) IsReady
unfolding transfer_buffer
transfer_buffer-safe garbage d v =
    safely-bind (λ r. IsReady r.1) IsReady (interpret_scancode garbage d) _
      (interpret_scancode-safe garbage d v)
      (λ r w.
        let (d', e, p) = interpret_key-Handled r.0 r.1 w.console in
        rw e (record { kb = rw p.kb w.kb; console = p.console }))

-- From a valid keyboard buffer and sound terminals, for any number of rounds and any bytes from
-- the keyboard, the driver never reads or writes outside of the keyboard's buffer, the key table,
-- a terminal's queue or the array of terminals: a run returns with all of them valid, or hangs.
pub tty_driver-safe :
    (garbage : List ℕ) (d : Driver) → IsReady d → Safely (tty_driver garbage d) IsReady
unfolding tty_driver
tty_driver-safe [] d v = v
tty_driver-safe (g ∷ garbage) d v =
    safely-bind IsReady IsReady (transfer_buffer g d) (tty_driver garbage)
      (transfer_buffer-safe g d v) (λ d' w. tty_driver-safe garbage d' w)
