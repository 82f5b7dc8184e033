-- ===== src/Fs/Directory/Names.antt =====
-- Names as `split_name` cuts them and as `find_file` joins them.
use create_an_os.Prelude.{
  ℕ, zero, suc, ◌+◌, ◌≤◌, ◌<◌, ◌≡◌, ◌≢◌, refl, ap, ◌∙◌, arith, List, [], ◌∷◌, ◌++◌, Option, none,
  some, false, ◌==◌, if◌then◌else◌, lt→ltb, length, length-append, take, drop, ok, read,
}
use create_an_os.Fs.Directory.{base_at, ext_at, c_string, in_filename, filename, last_dot}

-- A part of a name: no terminator and no dot.
abbrev pub IsPart : List ℕ → Type 0
IsPart [] = Unit {0}
IsPart (c ∷ s) = (c ≢ 0) × (c ≢ b'.') × IsPart s

-- A string stands at `off`, with its terminator.
pub record StandsAt (off : ℕ) (s dirs : List ℕ) : Type 0 where
  pub chars : (j : ℕ) → j < length s → read dirs (off + j) ≡ read s j
  pub end : read dirs (off + length s) ≡ ok 0

drop-read : (xs : List ℕ) (i c : ℕ) → read xs i ≡ ok c → drop i xs ≡ c ∷ drop (i + 1) xs
unfolding read
drop-read [] i c h = absurd (cc)
drop-read (x ∷ xs) zero c h = ground (arith, h)
drop-read (x ∷ xs) (suc i) c h =
    let next : suc i + 1 ≡ suc (i + 1) = omega arith in rw next (drop-read xs i c h)

c_string-end : (off : ℕ) (dirs : List ℕ) → read dirs off ≡ ok 0 → c_string (drop off dirs) ≡ ok []
unfolding c_string
c_string-end off dirs h = rw (drop-read dirs off 0 h) refl

c_string-char :
    (off c : ℕ) (s dirs : List ℕ)
    → read dirs off ≡ ok c
    → c ≢ 0
    → c_string (drop (off + 1) dirs) ≡ ok s
    → c_string (drop off dirs) ≡ ok (c ∷ s)
unfolding c_string
c_string-char off c s dirs h ne rest =
    let more : (c == 0) ≡ false = ground (arith, ne) in rw (drop-read dirs off c h, more, rest) refl

c_string-StandsAt :
    (s : List ℕ) (off : ℕ) (dirs : List ℕ)
    → IsPart s
    → StandsAt off s dirs
    → c_string (drop off dirs) ≡ ok s
c_string-StandsAt [] off dirs part st =
    c_string-end off dirs (ap (read dirs) (omega arith) ∙ st.end)
c_string-StandsAt (c ∷ s) off dirs part st =
    c_string-char off c s dirs (ap (read dirs) (omega arith) ∙ st.chars 0 (omega arith) ∙ here c s)
      part.0
      (c_string-StandsAt s (off + 1) dirs part.2 (record {
        chars = λ j lt. ap (read dirs) (omega arith) ∙ st.chars (suc j) (omega arith) ∙ there c s j;
        end = ap (read dirs) (omega arith) ∙ st.end;
      }))
  where
    here : (c : ℕ) (s : List ℕ) → read (c ∷ s) 0 ≡ ok c
    here c s = unfold read in refl

    there : (c : ℕ) (s : List ℕ) (j : ℕ) → read (c ∷ s) (suc j) ≡ read s j
    there c s j = unfold read in refl

-- The name of an entry from its two parts.
unfoldable pub joined : List ℕ → List ℕ → List ℕ
joined base [] = base
joined base (c ∷ ext) = base ++ b'.' ∷ c ∷ ext

pub filename-plain :
    (i : ℕ) (base dirs : List ℕ)
    → IsPart base
    → length base ≤ 7
    → StandsAt (base_at i) base dirs
    → read dirs (ext_at i) ≡ ok 0
    → filename i dirs ≡ ok base
unfolding filename in_filename
filename-plain i base dirs part short st no_ext =
    rw
      (
        c_string-StandsAt base (base_at i) dirs part st,
        lt→ltb (length base) 16 (omega arith),
        no_ext,
      )
      refl

pub filename-dotted :
    (i c : ℕ) (base ext dirs : List ℕ)
    → IsPart base
    → IsPart (c ∷ ext)
    → length base ≤ 7
    → length ext ≤ 2
    → StandsAt (base_at i) base dirs
    → StandsAt (ext_at i) (c ∷ ext) dirs
    → read dirs (ext_at i) ≡ ok c
    → filename i dirs ≡ ok (base ++ b'.' ∷ c ∷ ext)
unfolding filename in_filename
filename-dotted i c base ext dirs part part' short short' st st' first =
    let more : (c == 0) ≡ false = ground (arith, part'.0) in
    rw
      (
        c_string-StandsAt base (base_at i) dirs part st,
        lt→ltb (length base) 16 (omega arith),
        first,
        more,
        c_string-StandsAt (c ∷ ext) (ext_at i) dirs part' st',
        lt→ltb (length (base ++ b'.' ∷ c ∷ ext)) 16
            (omega (arith, length-append base (b'.' ∷ c ∷ ext))),
      )
      refl

pub take-whole : (n : ℕ) (s : List ℕ) → length s ≤ n → take n s ≡ s
take-whole zero [] h = refl
take-whole zero (c ∷ s) h = absurd (omega arith)
take-whole (suc n) [] h = refl
take-whole (suc n) (c ∷ s) h = ap (λ r. c ∷ r) (take-whole n s (omega arith))

pub drop-append : (s t : List ℕ) (c : ℕ) → drop (length s + 1) (s ++ c ∷ t) ≡ t
drop-append [] t c = refl
drop-append (x ∷ s) t c =
    let next : suc (length s) + 1 ≡ suc (length s + 1) = omega arith in rw next (drop-append s t c)

last_dot-part :
    (s rest : List ℕ) (i : ℕ) (dot : Option ℕ)
    → IsPart s
    → last_dot i dot (s ++ rest) ≡ last_dot (i + length s) dot rest
unfolding last_dot
last_dot-part [] rest i dot part = ap (λ k. last_dot k dot rest) (omega arith)
last_dot-part (c ∷ s) rest i dot part =
    let plain : (c == b'.') ≡ false = ground (arith, part.1) in
    ap (λ b. last_dot (i + 1) (if b then some i else dot) (s ++ rest)) plain
    ∙ last_dot-part s rest (i + 1) dot part.2
    ∙ ap (λ k. last_dot k dot rest) (omega arith)

pub last_dot-none : (s : List ℕ) (i : ℕ) (dot : Option ℕ) → IsPart s → last_dot i dot s ≡ dot
unfolding last_dot
last_dot-none [] i dot part = refl
last_dot-none (c ∷ s) i dot part =
    let plain : (c == b'.') ≡ false = ground (arith, part.1) in
    rw plain (last_dot-none s (i + 1) dot part.2)

pub last_dot-joined :
    (base ext : List ℕ)
    → IsPart base
    → IsPart ext
    → last_dot 0 none (base ++ b'.' ∷ ext) ≡ some (length base)
last_dot-joined base ext part part' =
    last_dot-part base (b'.' ∷ ext) 0 none part
    ∙ dot_here ext (0 + length base)
    ∙ last_dot-none ext _ _ part'
    ∙ ap some (omega arith)
  where
    dot_here : (ext : List ℕ) (k : ℕ) → last_dot k none (b'.' ∷ ext) ≡ last_dot (k + 1) (some k) ext
    dot_here ext k = unfold last_dot in refl
