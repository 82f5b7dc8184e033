-- ===== src/Io/Tty/Switch.antt =====
-- `sys_switch_tty` and `init_ttys`: which terminal is shown, and what all terminals keep.
use create_an_os.Prelude.{
  ℕ, zero, suc, ◌+◌, ◌*◌, ◌/◌, ◌%◌, ◌^◌, ◌<◌, ◌≡◌, refl, sym, ap, ◌∙◌, arith, List, [], ◌∷◌,
  ℕ_discrete, ok, read, set-read,
}
use create_an_os.Io.Terminal.{Tty, Console, store}
use create_an_os.Video.{set_register}
use create_an_os.Video.Text.{Fits}
use create_an_os.Video.Cursor.{pointed, sys_set_cursor_pos_lem}
use create_an_os.Io.Tty.{blank_tty, sys_switch_tty, init_ttys, put_tty_in_buffer}
use create_an_os.Io.Tty.Input.{IsValid, contents, blank_tty-IsValid}
use create_an_os.Io.Tty.Typing.{Shows, put_tty_in_buffer-Shows}

-- Terminal `n` exists, with a valid queue and the cursor in range.
pub record IsUsable (ttys : List Tty) (n : ℕ) : Type 0 where
  pub tty : Tty
  pub here : read ttys n ≡ ok tty
  pub valid : IsValid tty
  pub fits : Fits tty

-- One of the two terminals is shown, and both can be used.
pub record IsSound (con : Console) : Type 0 where
  pub current_in : con.current_tty < 2
  pub usable : (n : ℕ) → n < 2 → IsUsable con.ttys n

-- The console with terminal `n` on the screen.
abbrev switched : ℕ → Tty → Console → Console
switched n tty con = record con {
  current_tty = n;
  crtc =
      pointed tty.pos tty
        (store (store con.crtc 0xc (tty.addr / 2 ^ 8 % 2 ^ 8)) 0xd (tty.addr % 2 ^ 8));
}

sys_switch_tty_lem :
    (n : ℕ) (tty : Tty) (con : Console)
    → read con.ttys n ≡ ok tty
    → sys_switch_tty n con ≡ ok (switched n tty con)
unfolding sys_switch_tty
sys_switch_tty_lem n tty con h =
    let con₁ =
      set_register 0xd tty.addr
        (set_register 0xc (tty.addr / 2 ^ 8) (record con { current_tty = n })) in
    rw (h, sys_set_cursor_pos_lem n tty.pos tty con₁ h, set-read con.ttys n tty h) (ground arith)

-- Switching to a terminal whose cursor is in range returns: the terminal is the current one, the
-- display starts at its first cell, the hardware cursor stands at its position, and neither a
-- terminal nor video memory changes.
pub sys_switch_tty-shows :
    (n : ℕ) (tty : Tty) (con : Console)
    → read con.ttys n ≡ ok tty
    → Fits tty
    → (con' : Console) × (sys_switch_tty n con ≡ ok con')
      × (con'.current_tty ≡ n)
      × (con'.crtc 0xc * 256 + con'.crtc 0xd ≡ tty.addr)
      × (con'.crtc 0xe * 256 + con'.crtc 0xf ≡ tty.addr + tty.pos)
      × (con'.ttys ≡ con.ttys)
      × (con'.memory ≡ con.memory)
sys_switch_tty-shows n tty con h f = (
  switched n tty con,
  sys_switch_tty_lem n tty con h,
  refl,
  omega (arith, f.addr_in),
  omega (arith, f.addr_in, f.pos_in),
  refl,
  refl,
)

pub sys_switch_tty-IsSound :
    (n : ℕ) (con : Console)
    → IsSound con
    → n < 2
    → (con' : Console) × (sys_switch_tty n con ≡ ok con') × IsSound con' × (con'.current_tty ≡ n)
sys_switch_tty-IsSound n con s h =
    let u = s.usable n h in
    (
      switched n u.tty con,
      sys_switch_tty_lem n u.tty con u.here,
      record { current_in = h; usable = s.usable },
      refl,
    )

-- A byte for the terminal that is shown: the line there is edited, and all terminals stay usable.
pub put_tty_in_buffer-IsSound :
    (c : ℕ) (con : Console)
    → IsSound con
    → (con' : Console) × (put_tty_in_buffer con.current_tty c con ≡ ok con')
      × IsSound con'
      × (con'.current_tty ≡ con.current_tty)
put_tty_in_buffer-IsSound c con s =
    let n = con.current_tty in
    let u = s.usable n s.current_in in
    let (con', e, s', others) = put_tty_in_buffer-Shows n c (contents u.tty) con (record {
      tty = u.tty;
      here = u.here;
      shown = refl;
      valid = u.valid;
      fits = u.fits;
      holds = refl;
    }) in
    (
      con',
      e,
      record {
        current_in = rw (s'.shown) (s.current_in);
        usable = λ m hm. elim (ℕ_discrete n m) [
          | yes same ↦ record {
            tty = s'.tty;
            here = ap (read con'.ttys) (sym same) ∙ s'.here;
            valid = s'.valid;
            fits = s'.fits;
          }
          | no ne ↦ record {
            tty = (s.usable m hm).tty;
            here = others m ne ∙ (s.usable m hm).here;
            valid = (s.usable m hm).valid;
            fits = (s.usable m hm).fits;
          }
        ];
      },
      s'.shown,
    )

pub two-IsUsable :
    (t₀ t₁ : Tty) (n : ℕ)
    → IsValid t₀
    → Fits t₀
    → IsValid t₁
    → Fits t₁
    → n < 2
    → IsUsable (t₀ ∷ t₁ ∷ []) n
unfolding read
two-IsUsable t₀ t₁ zero v₀ f₀ v₁ f₁ h = record { tty = t₀; here = refl; valid = v₀; fits = f₀ }
two-IsUsable t₀ t₁ (suc zero) v₀ f₀ v₁ f₁ h = record {
  tty = t₁;
  here = refl;
  valid = v₁;
  fits = f₁;
}
two-IsUsable t₀ t₁ (suc (suc n)) v₀ f₀ v₁ f₁ h = absurd (omega arith)

-- What the kernel starts with: both terminals can be used, the first is shown, and no byte waits
-- there.
pub init_ttys-Shows :
    (memory crtc : ℕ → ℕ)
    → (con : Console) × (init_ttys memory crtc ≡ ok con) × IsSound con × Shows 0 [] con
unfolding init_ttys read
init_ttys-Shows memory crtc =
    let t₀ = blank_tty 0 in
    let t₁ = blank_tty 0x7d0 in
    let con : Console = record {
      ttys = t₀ ∷ t₁ ∷ [];
      current_tty = 0;
      memory = memory;
      crtc = crtc;
    } in
    let f₀ : Fits t₀ = omega arith in
    let f₁ : Fits t₁ = omega arith in
    (
      switched 0 t₀ con,
      sys_switch_tty_lem 0 t₀ con refl,
      record {
        current_in = omega arith;
        usable =
            λ n h. two-IsUsable t₀ t₁ n (blank_tty-IsValid 0) f₀ (blank_tty-IsValid 0x7d0) f₁ h;
      },
      record {
        tty = t₀;
        here = refl;
        shown = refl;
        valid = blank_tty-IsValid 0;
        fits = f₀;
        holds = refl;
      },
    )
