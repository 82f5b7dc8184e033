-- ===== src/Io/Tty/Typing.antt =====
-- `put_tty_in_buffer` on the console: the queue and the screen of the terminal that is shown, and
-- the way of a typed line to the process that reads it.
use mathlib.Core.List.{append_assoc}
use create_an_os.Prelude.{
  ℕ, ◌+◌, ◌-◌, ◌≤◌, ◌<◌, ◌≡◌, ◌≢◌, refl, ap, ◌∙◌, arith, List, [], ◌∷◌, ◌++◌, Option, none, some,
  length, length-append, set, Outcome, ok, ◌>>=◌, read, write-ok, lt-of_read, read-set_self,
  read-set_ne,
}
use create_an_os.Io.Terminal.{Tty, Console}
use create_an_os.Video.{sys_putchar, color_default}
use create_an_os.Video.Text.{Fits}
use create_an_os.Video.Frame.{sys_putchar_with_color-Printed}
use create_an_os.Io.Tty.{put_tty_in_buffer, std_read_line}
use create_an_os.Io.Tty.Input.{IsValid, contents, typed, Edited, edit_input-Edited}
use create_an_os.Io.Tty.Line.{take_line, emptied, std_read_line_lem}

-- Terminal `n` is the one that is shown, and holds `line`.
pub record Shows (n : ℕ) (line : List ℕ) (con : Console) : Type 0 where
  pub tty : Tty
  pub here : read con.ttys n ≡ ok tty
  pub shown : con.current_tty ≡ n
  pub valid : IsValid tty
  pub fits : Fits tty
  pub holds : contents tty ≡ line

put-Edited :
    (n c : ℕ) (con : Console) (tty : Tty) (out : Option Tty)
    → read con.ttys n ≡ ok tty
    → con.current_tty ≡ n
    → Fits tty
    → Edited c tty out
    → (con' : Console) × (put_tty_in_buffer n c con ≡ ok con')
      × Shows n (typed c (contents tty)) con'
      × ((m : ℕ) → n ≢ m → read con'.ttys m ≡ read con.ttys m)
unfolding put_tty_in_buffer sys_putchar
put-Edited n c con tty none here shown fits edit = (
  con,
  rw (here, edit.runs),
  record {
    tty = tty;
    here = here;
    shown = shown;
    valid = edit.valid;
    fits = fits;
    holds = edit.line;
  },
  λ m ne. refl,
)
put-Edited n c con tty (some tty') here shown fits edit =
    let inside = lt-of_read con.ttys n tty here in
    let con₁ : Console = record con { ttys = set con.ttys n tty' } in
    let (con', e, p) =
      sys_putchar_with_color-Printed n c color_default tty' con₁
        (read-set_self con.ttys n tty' inside)
        (omega (arith, fits.pos_in, fits.addr_in, edit.screen.0, edit.screen.1)) in
    (
      con',
      rw (here, edit.runs, write-ok con.ttys n tty' inside)
          (ap (λ m. sys_putchar m c con₁) shown ∙ e),
      record {
        tty = record tty' { pos = p.pos };
        here = p.own;
        shown = p.current ∙ shown;
        valid = omega (arith, edit.valid);
        fits = omega (arith, p.in_range, fits.addr_in, edit.screen.0);
        holds = edit.line;
      },
      λ m ne. p.others m ne ∙ read-set_ne con.ttys n m tty' ne,
    )

-- A byte that is put into the terminal that is shown edits its line; the queue is still valid and
-- the cursor in range, no other terminal changes, and the call returns.
pub put_tty_in_buffer-Shows :
    (n c : ℕ) (line : List ℕ) (con : Console)
    → Shows n line con
    → (con' : Console) × (put_tty_in_buffer n c con ≡ ok con')
      × Shows n (typed c line) con'
      × ((m : ℕ) → n ≢ m → read con'.ttys m ≡ read con.ttys m)
put_tty_in_buffer-Shows n c line con s =
    let (out, edit) = edit_input-Edited c s.tty s.valid in
    let (con', e, s', others) = put-Edited n c con s.tty out s.here s.shown s.fits edit in
    (con', e, rw (ap (typed c) s.holds) at s', others)

-- The bytes of `keys`, put one after the other.
unfoldable pub put_all : ℕ → List ℕ → Console → Outcome Console
put_all n [] con = ok con
put_all n (c ∷ keys) con = put_tty_in_buffer n c con >>= put_all n keys

unfoldable pub typed_all : List ℕ → List ℕ → List ℕ
typed_all [] line = line
typed_all (c ∷ keys) line = typed_all keys (typed c line)

pub put_all-Shows :
    (n : ℕ) (keys line : List ℕ) (con : Console)
    → Shows n line con
    → (con' : Console) × (put_all n keys con ≡ ok con') × Shows n (typed_all keys line) con'
unfolding put_all typed_all
put_all-Shows n [] line con s = (con, refl, s)
put_all-Shows n (c ∷ keys) line con s =
    let (con₁, e, s₁, _) = put_tty_in_buffer-Shows n c line con s in
    let (con', e', s') = put_all-Shows n keys (typed c line) con₁ s₁ in (con', rw e e', s')

-- Bytes of a line: neither its end nor a correction.
abbrev pub IsPlain : List ℕ → Type 0
IsPlain [] = Unit {0}
IsPlain (c ∷ s) = (c ≢ b'\n') × (c ≢ 8) × IsPlain s

typed_plain : (c : ℕ) (line : List ℕ) → c ≢ 8 → length line < 128 → typed c line ≡ line ++ c ∷ []
unfolding typed
typed_plain c line ne h = ground arith

pub typed_all-plain :
    (s line : List ℕ)
    → IsPlain s
    → length line + length s < 128
    → typed_all (s ++ b'\n' ∷ []) line ≡ line ++ (s ++ b'\n' ∷ [])
unfolding typed_all
typed_all-plain [] line p h = typed_plain b'\n' line (λ e. omega arith) (omega arith)
typed_all-plain (c ∷ s) line p h =
    ap (typed_all (s ++ b'\n' ∷ [])) (typed_plain c line p.1 (omega arith))
    ∙ (typed_all-plain s (line ++ c ∷ []) p.2 (omega (arith, length-append line (c ∷ [])))
        ∙ append_assoc line (c ∷ []) (s ++ b'\n' ∷ []))

pub take_line-plain :
    (s : List ℕ) (room : ℕ) → IsPlain s → length s ≤ room → take_line room (s ++ b'\n' ∷ []) ≡ s
unfolding take_line
take_line-plain [] room p h = refl
take_line-plain (c ∷ s) room p h = ground (arith, take_line-plain s (room - 1) p.2, p.0)

-- A line of at most 127 plain bytes and a newline, typed on the terminal that is shown while
-- nothing waits there, is what the next read with room for it hands over.
pub std_read_line-put_all :
    (n max_size : ℕ) (s : List ℕ) (con : Console)
    → Shows n [] con
    → IsPlain s
    → length s < 128
    → length s ≤ max_size
    → (con' : Console) × (tty drained : Tty) × (put_all n (s ++ b'\n' ∷ []) con ≡ ok con')
      × (read con'.ttys n ≡ ok tty)
      × (std_read_line max_size tty ≡ ok (s, drained))
      × (drained.cnt ≡ 0)
std_read_line-put_all n max_size s con shows plain short room =
    let (con', e, s') = put_all-Shows n (s ++ b'\n' ∷ []) [] con shows in
    let line : take_line max_size (contents s'.tty) ≡ s =
      ap (take_line max_size) (s'.holds ∙ typed_all-plain s [] plain (omega arith))
      ∙ take_line-plain s max_size plain room in
    (
      con',
      s'.tty,
      emptied (length s) s'.tty,
      e,
      s'.here,
      (std_read_line_lem max_size s'.tty s'.valid
          ∙ ap (λ l. ok (l, emptied (length l) s'.tty)) line),
      refl,
    )
