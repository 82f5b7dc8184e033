-- ===== src/Fs/File/Copy.antt =====
-- `memcpy` into a buffer and out of it.
use create_an_os.Prelude.{
  ℕ, zero, suc, ◌+◌, ◌≤◌, ◌<◌, ◌≡◌, refl, ap, ◌∙◌, arith, List, [], ◌∷◌, length, set, length-set,
  ok, read, write-ok, read-set_self, read-some, read-set_ne,
}
use create_an_os.Fs.File.{copy_into, copy_from}

-- What a copy leaves in the buffer: the bytes from `at` on, and what was there before them.
pub record Copied (at : ℕ) (bytes buffer buffer' : List ℕ) : Type 0 where
  pub runs : copy_into at bytes buffer ≡ ok buffer'
  pub size : length buffer' ≡ length buffer
  pub back : copy_from (length bytes) at buffer' ≡ ok bytes
  pub placed : (j : ℕ) → j < length bytes → read buffer' (at + j) ≡ read bytes j
  pub before : (j : ℕ) → j < at → read buffer' j ≡ read buffer j

put :
    (b : ℕ) (bytes buffer : List ℕ) (at : ℕ)
    → at < length buffer
    → copy_into at (b ∷ bytes) buffer ≡ copy_into (at + 1) bytes (set buffer at b)
unfolding copy_into
put b bytes buffer at inside = rw (write-ok buffer at b inside)

get :
    (b : ℕ) (bytes buffer : List ℕ) (at : ℕ)
    → read buffer at ≡ ok b
    → copy_from (length bytes) (at + 1) buffer ≡ ok bytes
    → copy_from (length (b ∷ bytes)) at buffer ≡ ok (b ∷ bytes)
unfolding copy_from
get b bytes buffer at here rest = rw (here, rest)

shifted :
    (at b : ℕ) (bytes buffer : List ℕ)
    → read buffer at ≡ ok b
    → ((j : ℕ) → j < length bytes → read buffer (at + 1 + j) ≡ read bytes j)
    → (j : ℕ) → j < length (b ∷ bytes)
    → read buffer (at + j) ≡ read (b ∷ bytes) j
unfolding read
shifted at b bytes buffer first rest zero lt = ap (read buffer) (omega arith) ∙ first
shifted at b bytes buffer first rest (suc j) lt =
    ap (read buffer) (omega arith) ∙ rest j (omega arith)

-- Bytes that fit are copied, and are read back from the same place.
pub copy_into-copy_from :
    (at : ℕ) (bytes buffer : List ℕ)
    → at + length bytes ≤ length buffer
    → (buffer' : List ℕ) × Copied at bytes buffer buffer'
copy_into-copy_from at [] buffer h = (
  buffer,
  record {
    runs = unfold copy_into in refl;
    size = refl;
    back = unfold copy_from in refl;
    placed = λ j lt. absurd (omega arith);
    before = λ j lt. refl;
  },
)
copy_into-copy_from at (b ∷ bytes) buffer h =
    let (buffer', c) =
      copy_into-copy_from (at + 1) bytes (set buffer at b)
        (omega (arith, length-set buffer at b)) in
    let first : read buffer' at ≡ ok b =
      c.before at (omega arith) ∙ read-set_self buffer at b (omega arith) in
    (
      buffer',
      record {
        runs = put b bytes buffer at (omega arith) ∙ c.runs;
        size = c.size ∙ length-set buffer at b;
        back = get b bytes buffer' at first c.back;
        placed = λ j lt. shifted at b bytes buffer' first c.placed j lt;
        before = λ j lt. c.before j (omega arith) ∙ read-set_ne buffer at j b (omega arith);
      },
    )

skipped : (at b : ℕ) (bytes : List ℕ) → read (b ∷ bytes) (at + 1) ≡ read bytes at
unfolding read
skipped at b bytes = let next : at + 1 ≡ suc at = omega arith in rw next refl

copy_from-skip :
    (n at b : ℕ) (bytes : List ℕ) → copy_from n (at + 1) (b ∷ bytes) ≡ copy_from n at bytes
unfolding copy_from
copy_from-skip zero at b bytes = refl
copy_from-skip (suc n) at b bytes =
    let over : read (b ∷ bytes) (at + 1) ≡ read bytes at = skipped at b bytes in
    rw (over, copy_from-skip n (at + 1) b bytes)

-- Copying all of a list.
pub copy_from-whole : (bytes : List ℕ) → copy_from (length bytes) 0 bytes ≡ ok bytes
unfolding copy_from read
copy_from-whole [] = refl
copy_from-whole (b ∷ bytes) = rw (copy_from-skip (length bytes) 0 b bytes, copy_from-whole bytes)

-- A copy out of a list that is long enough.
pub copy_from-ok :
    (n at : ℕ) (bytes : List ℕ)
    → at + n ≤ length bytes
    → (part : List ℕ) × (copy_from n at bytes ≡ ok part) × (length part ≡ n)
unfolding copy_from
copy_from-ok zero at bytes h = ([], refl, refl)
copy_from-ok (suc n) at bytes h =
    let (b, e) = read-some bytes at (omega arith) in
    let (part, e', size) = copy_from-ok n (at + 1) bytes (omega arith) in
    (b ∷ part, rw (e, e') refl, ap suc size)
