-- ===== src/Fs/Directory/Split.antt =====
-- `split_name` and the joining of a name in `find_file` undo each other on names that fit.
use create_an_os.Prelude.{
  ℕ, ◌+◌, min, ◌≤◌, ◌<◌, ◌≡◌, refl, ap, ◌∙◌, arith, List, [], ◌∷◌, ◌++◌, Option, none, some, length,
  take-append_le, set, length-set, Outcome, ok, read, write-ok, read-set_self, read-set_ne,
}
use create_an_os.Fs.File.Copy.{Copied, copy_into-copy_from}
use create_an_os.Fs.Directory.{
  base_at, ext_at, filename, last_dot, split_plain, split_dotted, split_name,
}
use create_an_os.Fs.Directory.Names.{
  IsPart, StandsAt, joined, filename-plain, filename-dotted, take-whole, drop-append, last_dot-none,
  last_dot-joined,
}

-- A string of at most `room` characters with a terminator behind it and one at the end of the field.
ended :
    (off room : ℕ) (s buffer copied : List ℕ)
    → Copied off s buffer copied
    → length s ≤ room
    → off + room < length buffer
    → StandsAt off s (set (set copied (off + room) 0) (off + length s) 0)
ended off room s buffer copied c short inside = record {
  chars = λ j lt.
      read-set_ne (set copied (off + room) 0) (off + length s) (off + j) 0 (omega arith)
      ∙ read-set_ne copied (off + room) (off + j) 0 (omega arith)
      ∙ c.placed j lt;
  end =
      read-set_self (set copied (off + room) 0) (off + length s) 0
        (omega (arith, length-set copied (off + room) 0, c.size));
}

-- What stands somewhere is still there after a change further on.
StandsAt-set :
    (off p v : ℕ) (s dirs : List ℕ)
    → off + length s < p
    → StandsAt off s dirs
    → StandsAt off s (set dirs p v)
StandsAt-set off p v s dirs behind st = record {
  chars = λ j lt. read-set_ne dirs p (off + j) v (omega arith) ∙ st.chars j lt;
  end = read-set_ne dirs p (off + length s) v (omega arith) ∙ st.end;
}

StandsAt-Copied :
    (off p : ℕ) (s t dirs dirs' : List ℕ)
    → off + length s < p
    → Copied p t dirs dirs'
    → StandsAt off s dirs
    → StandsAt off s dirs'
StandsAt-Copied off p s t dirs dirs' behind c st = record {
  chars = λ j lt. c.before (off + j) (omega arith) ∙ st.chars j lt;
  end = c.before (off + length s) (omega arith) ∙ st.end;
}

unfoldable pub branch : ℕ → List ℕ → List ℕ → Option ℕ → Outcome (List ℕ)
branch i name dirs none = split_plain i name dirs
branch i name dirs (some dot) = split_dotted i dot name dirs

pub split_name-branch :
    (i : ℕ) (name dirs : List ℕ) (dot : Option ℕ)
    → last_dot 0 none name ≡ dot
    → split_name i name dirs ≡ branch i name dirs dot
unfolding split_name branch
split_name-branch i name dirs dot h =
    ap
      (λ (d : Option ℕ). elim d [
        | none ↦ split_plain i name dirs
        | some k ↦ split_dotted i k name dirs
      ])
      h
    ∙ by_case dot
  where
    by_case :
        (d : Option ℕ)
        → elim d [ none ↦ split_plain i name dirs | some k ↦ split_dotted i k name dirs ]
          ≡ branch i name dirs d
    by_case none = refl
    by_case (some k) = refl

module _ (i : ℕ) (base dirs : List ℕ) (entry : i < 32) (size : length dirs ≡ 512)
    (short : length base ≤ 7) where
  split_plain-runs :
      (d₁ : List ℕ)
      → Copied (base_at i) base dirs d₁
      → split_plain i base dirs
        ≡ ok (set (set (set d₁ (base_at i + 7) 0) (base_at i + length base) 0) (ext_at i) 0)
  unfolding split_plain
  split_plain-runs d₁ c =
      let d₂ = set d₁ (base_at i + 7) 0 in
      let d₃ = set d₂ (base_at i + length base) 0 in
      let l₁ = c.size in
      let l₂ = length-set d₁ (base_at i + 7) 0 in
      let l₃ = length-set d₂ (base_at i + length base) 0 in
      rw
        (
          take-whole 7 base short,
          c.runs,
          write-ok d₁ (base_at i + 7) 0 (omega arith),
          write-ok d₂ (base_at i + length base) 0 (omega arith),
          write-ok d₃ (ext_at i) 0 (omega arith),
        )
        refl

  split_name-plain :
      IsPart base
      → (dirs' : List ℕ) × (split_name i base dirs ≡ ok dirs') × (filename i dirs' ≡ ok base)
  unfolding branch
  split_name-plain part =
      let (d₁, c) = copy_into-copy_from (base_at i) base dirs (omega arith) in
      let d₃ = set (set d₁ (base_at i + 7) 0) (base_at i + length base) 0 in
      let st = ended (base_at i) 7 base dirs d₁ c short (omega arith) in
      let l₂ = length-set d₁ (base_at i + 7) 0 in
      let l₃ = length-set (set d₁ (base_at i + 7) 0) (base_at i + length base) 0 in
      let l₁ = c.size in
      (
        set d₃ (ext_at i) 0,
        split_name-branch i base dirs none (last_dot-none base 0 none part) ∙ split_plain-runs d₁ c,
        filename-plain i base (set d₃ (ext_at i) 0) part short
            (StandsAt-set (base_at i) (ext_at i) 0 base d₃ (omega arith) st)
            (read-set_self d₃ (ext_at i) 0 (omega arith)),
      )

  split_dotted-runs :
      (ext d₁ d₄ : List ℕ)
      → length ext ≤ 3
      → Copied (base_at i) base dirs d₁
      → Copied (ext_at i) ext (set (set d₁ (base_at i + 7) 0) (base_at i + length base) 0) d₄
      → split_dotted i (length base) (base ++ b'.' ∷ ext) dirs
        ≡ ok (set (set d₄ (ext_at i + 3) 0) (ext_at i + length ext) 0)
  unfolding split_dotted
  split_dotted-runs ext d₁ d₄ short' c c' =
      let d₂ = set d₁ (base_at i + 7) 0 in
      let d₃ = set d₂ (base_at i + length base) 0 in
      let d₅ = set d₄ (ext_at i + 3) 0 in
      let l₁ = c.size in
      let l₂ = length-set d₁ (base_at i + 7) 0 in
      let l₃ = length-set d₂ (base_at i + length base) 0 in
      let l₄ = c'.size in
      let l₅ = length-set d₄ (ext_at i + 3) 0 in
      let least : min (length base) 7 ≡ length base = omega arith in
      rw
        (
          drop-append base ext b'.',
          take-whole 3 ext short',
          least,
          take-append_le (length base) base (b'.' ∷ ext) (omega arith),
          take-whole (length base) base (omega arith),
          c.runs,
          write-ok d₁ (base_at i + 7) 0 (omega arith),
          write-ok d₂ (base_at i + length base) 0 (omega arith),
          c'.runs,
          write-ok d₄ (ext_at i + 3) 0 (omega arith),
          write-ok d₅ (ext_at i + length ext) 0 (omega arith),
        )
        refl

  split_name-dotted :
      (e : ℕ) (ext : List ℕ)
      → IsPart base
      → IsPart (e ∷ ext)
      → length ext ≤ 2
      → (dirs' : List ℕ) × (split_name i (base ++ b'.' ∷ e ∷ ext) dirs ≡ ok dirs')
        × (filename i dirs' ≡ ok (base ++ b'.' ∷ e ∷ ext))
  unfolding branch read
  split_name-dotted e ext part part' short' =
      let (d₁, c) = copy_into-copy_from (base_at i) base dirs (omega arith) in
      let d₂ = set d₁ (base_at i + 7) 0 in
      let d₃ = set d₂ (base_at i + length base) 0 in
      let l₁ = c.size in
      let l₂ = length-set d₁ (base_at i + 7) 0 in
      let l₃ = length-set d₂ (base_at i + length base) 0 in
      let (d₄, c') = copy_into-copy_from (ext_at i) (e ∷ ext) d₃ (omega arith) in
      let d₅ = set d₄ (ext_at i + 3) 0 in
      let d₆ = set d₅ (ext_at i + length (e ∷ ext)) 0 in
      let st = StandsAt-set (base_at i) (ext_at i + length (e ∷ ext)) 0 base d₅ (omega arith) (
        StandsAt-set (base_at i) (ext_at i + 3) 0 base d₄ (omega arith) (
          StandsAt-Copied (base_at i) (ext_at i) base (e ∷ ext) d₃ d₄ (omega arith) c'
            (ended (base_at i) 7 base dirs d₁ c short (omega arith)))) in
      let st' = ended (ext_at i) 3 (e ∷ ext) d₃ d₄ c' (omega arith) (omega arith) in
      (
        d₆,
        split_name-branch i (base ++ b'.' ∷ e ∷ ext) dirs (some (length base))
              (last_dot-joined base (e ∷ ext) part part')
            ∙ split_dotted-runs (e ∷ ext) d₁ d₄ (omega arith) c c',
        filename-dotted i e base ext d₆ part part' short short' st st'
            (ap (read d₆) (omega arith) ∙ st'.chars 0 (omega arith)),
      )

-- A base of at most seven characters and an extension of at most three, or none, both without
-- dots and terminators: the name that they make is cut into an entry of the directory, within the
-- sector, and joined from it again, the same.
pub filename-split_name :
    (i : ℕ) (base ext dirs : List ℕ)
    → i < 32
    → length dirs ≡ 512
    → length base ≤ 7
    → length ext ≤ 3
    → IsPart base
    → IsPart ext
    → (dirs' : List ℕ) × (split_name i (joined base ext) dirs ≡ ok dirs')
      × (filename i dirs' ≡ ok (joined base ext))
unfolding joined
filename-split_name i base [] dirs entry size short short' part part' =
    split_name-plain i base dirs entry size short part
filename-split_name i base (e ∷ ext) dirs entry size short short' part part' =
    split_name-dotted i base dirs entry size short e ext part part' (omega arith)
