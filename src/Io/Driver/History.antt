-- ===== src/Io/Driver/History.antt =====
-- `kbflag` after any sequence of keys.
use create_an_os.Prelude.{
  ℕ, ◌<◌, ◌≡◌, refl, sym, ap, ◌∙◌, arith, List, [], ◌∷◌, if◌then◌else◌, Bool-cases, inl, inr,
  Outcome, ok, ◌>>=◌,
}
use create_an_os.Io.Tty.Switch.{IsSound}
use create_an_os.Io.Driver.{Driver, Key, one_of, flag_keys, flag_after, interpret_key}
use create_an_os.Io.Driver.Modifiers.{flag_bit, bit_after, flag_after-bit_after, bit_after-other}
use create_an_os.Io.Driver.Safety.{interpret_key-Handled}

-- The switch over one key after the other.
unfoldable pub interpret_keys : List Key → Driver → Outcome Driver
interpret_keys [] d = ok d
interpret_keys (k ∷ keys) d = interpret_key k d >>= interpret_keys keys

-- What bit `j` remembers of the keys, the first one first.
unfoldable pub remembered : ℕ → List Key → ℕ → ℕ
remembered j [] b = b
remembered j (k ∷ keys) b = remembered j keys (bit_after j k b)

flags_lem :
    (k : Key) (flag : ℕ)
    → flag < 512
    → ((if one_of flag_keys k.code then flag_after k flag else flag) < 512)
      × ((j : ℕ)
          → j < 9
          → flag_bit (if one_of flag_keys k.code then flag_after k flag else flag) j
            ≡ bit_after j k (flag_bit flag j))
flags_lem k flag h = elim (Bool-cases (one_of flag_keys k.code)) [
  | inl e ↦ rw e (
    (flag_after-bit_after k flag 0 e h (omega arith)).0,
    λ j hj. (flag_after-bit_after k flag j e h hj).1,
  )
  | inr e ↦ rw e (h, λ j hj. sym (bit_after-other k j (flag_bit flag j) e hj))
]

-- After any keys, held, released, repeated and mixed with others, each of the nine flags is what
-- the keys of its own left it: whether the modifier is down, or how often the lock went down. The
-- run returns and leaves the terminals sound.
pub interpret_keys-remembered :
    (keys : List Key) (d : Driver)
    → IsSound d.console
    → d.kbflag < 512
    → (d' : Driver) × (interpret_keys keys d ≡ ok d')
      × IsSound d'.console
      × ((j : ℕ) → j < 9 → flag_bit d'.kbflag j ≡ remembered j keys (flag_bit d.kbflag j))
unfolding interpret_keys remembered
interpret_keys-remembered [] d s h = (d, refl, s, λ j hj. refl)
interpret_keys-remembered (k ∷ keys) d s h =
    let (d₁, e, p) = interpret_key-Handled k d s in
    let (small, bits) = flags_lem k d.kbflag h in
    let (d', e', s', all) = interpret_keys-remembered keys d₁ p.console (rw (p.flags) small) in
    (
      d',
      rw e e',
      s',
      λ j hj. all j hj ∙ ap (remembered j keys) (ap (λ f. flag_bit f j) p.flags ∙ bits j hj),
    )
