-- ===== src/Io/Driver/Safety.antt =====
-- The switch over a key and the driver's loop: on sound terminals nothing is read or written outside
-- of its object, and the terminals stay sound.
use create_an_os.Prelude.{
  ℕ, ◌-◌, ◌%◌, ◌^◌, ◌≡◌, refl, arith, bit_and, true, false, not, ◌&&◌, ltb, ◌==◌, if◌then◌else◌,
  Bool-cases, inl, inr, Outcome, ok,
}
use create_an_os.Io.Tty.Switch.{IsSound, sys_switch_tty-IsSound, put_tty_in_buffer-IsSound}
use create_an_os.Io.Keys
use create_an_os.Io.Driver.{
  Driver, Key, one_of, ignored_keys, function_keys, flag_keys, flag_after, function_key, put_key,
  enter_key, wake_readers, cased, interpret_key,
}
use create_an_os.Io.Driver.Modifiers.{flag_keys-apart}

-- What one key leaves of the driver: sound terminals, the keyboard's bytes, and the flags, which
-- the key has changed if it is a modifier or a lock.
pub record Handled (k : Key) (d d' : Driver) : Type 0 where
  pub console : IsSound d'.console
  pub kb : d'.kb ≡ d.kb
  pub flags : d'.kbflag ≡ (if one_of flag_keys k.code then flag_after k d.kbflag else d.kbflag)

-- A run of the switch that leaves the flags alone.
abbrev Keeps : Driver → Outcome Driver → Type 0
Keeps d run =
    (d' : Driver) × (run ≡ ok d') × IsSound d'.console × (d'.kb ≡ d.kb) × (d'.kbflag ≡ d.kbflag)

pub put_key-Keeps : (c : ℕ) (d : Driver) → IsSound d.console → Keeps d (put_key c d)
unfolding put_key
put_key-Keeps c d s =
    let (con', e, s', _) = put_tty_in_buffer-IsSound (c % 2 ^ 8) d.console s in
    (record d { console = con' }, rw e refl, s', refl, refl)

enter_key-Keeps : (d : Driver) → IsSound d.console → Keeps d (enter_key d)
unfolding enter_key
enter_key-Keeps d s =
    let (d', e, s', kb, flag) = put_key-Keeps b'\n' d s in
    (record d' { procs = wake_readers d'.console.current_tty d'.procs }, rw e refl, s', kb, flag)

function_key-Keeps : (k : Key) (d : Driver) → IsSound d.console → Keeps d (function_key k d)
unfolding function_key
function_key-Keeps k d s =
    let wanted =
      not (k.mark == 0)
      && not (bit_and d.kbflag 0b1100 == 0)
      && not (bit_and d.kbflag 0b110000 == 0)
      && ltb (k.code - Keys.f1) 2 in
    elim (Bool-cases wanted) [
      | inl yes_please ↦
          let (con', e, s', _) =
            sys_switch_tty-IsSound (k.code - Keys.f1) d.console s (ground (arith, yes_please)) in
          (record d { console = con' }, rw (yes_please, e) refl, s', refl, refl)
      | inr nothing ↦ (d, rw nothing refl, s, refl, refl)
    ]

-- A key without a case for the flags.
other_key-Keeps :
    (k : Key) (d : Driver)
    → IsSound d.console
    → one_of flag_keys k.code ≡ false
    → Keeps d (interpret_key k d)
unfolding interpret_key
other_key-Keeps k d s h = elim (Bool-cases (one_of ignored_keys k.code)) [
  | inl ignored ↦ rw ignored (d, refl, s, refl, refl)
  | inr e₁ ↦ elim (Bool-cases (one_of function_keys k.code)) [
    | inl switches ↦ rw (e₁, switches) (function_key-Keeps k d s)
    | inr e₂ ↦ elim (Bool-cases (k.mark == 0)) [
      | inl up ↦ rw (e₁, e₂, h, up) (d, refl, s, refl, refl)
      | inr down ↦ elim (Bool-cases (k.code == Keys.backspace)) [
        | inl back ↦ rw (e₁, e₂, h, down, back) (put_key-Keeps 8 d s)
        | inr e₃ ↦ elim (Bool-cases (k.code == Keys.enter)) [
          | inl enters ↦ rw (e₁, e₂, h, down, e₃, enters) (enter_key-Keeps d s)
          | inr e₄ ↦ rw (e₁, e₂, h, down, e₃, e₄) (put_key-Keeps (cased d.kbflag k.code) d s)
        ]
      ]
    ]
  ]
]

flag_key-ok :
    (k : Key) (d : Driver)
    → one_of flag_keys k.code ≡ true
    → interpret_key k d ≡ ok (record d { kbflag = flag_after k d.kbflag })
unfolding interpret_key
flag_key-ok k d h = rw ((flag_keys-apart k.code h).0, (flag_keys-apart k.code h).1, h) refl

-- Every key, up or down, whatever its code: the switch returns, the terminals are sound again, the
-- keyboard's bytes are not touched, and `kbflag` changes for a modifier or lock key only.
pub interpret_key-Handled :
    (k : Key) (d : Driver)
    → IsSound d.console
    → (d' : Driver) × (interpret_key k d ≡ ok d') × Handled k d d'
interpret_key-Handled k d s = elim (Bool-cases (one_of flag_keys k.code)) [
  | inl h ↦ (
    record d { kbflag = flag_after k d.kbflag },
    flag_key-ok k d h,
    record { console = s; kb = refl; flags = rw h refl },
  )
  | inr h ↦
      let (d', e, s', kb, flag) = other_key-Keeps k d s h in
      (d', e, record { console = s'; kb = kb; flags = rw h flag })
]
