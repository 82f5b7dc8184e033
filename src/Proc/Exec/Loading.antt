-- ===== src/Proc/Exec/Loading.antt =====
-- Loading a program: each byte of memory afterwards, in terms of the program headers.
use create_an_os.Prelude.{
  ℕ, zero, suc, ◌+◌, ◌-◌, ◌*◌, ◌%◌, ◌^◌, ◌≤◌, ◌<◌, ◌≡◌, refl, ap, ap₂, ◌∙◌, arith, Bool, true, ◌&&◌,
  leb, ltb, ◌==◌, if◌then◌else◌, ℕ_discrete, ok, Bool-cases, inl, inr, lt→ltb, le→ltb_false,
}
use create_an_os.Io.Terminal.{store}
use create_an_os.Proc.Exec.{
  exec_buffer, byte_at, half_at, word_at, copy_bytes, p_type, p_offset, p_vaddr, p_filesz, e_phoff,
  e_phentsize, e_phnum, header_at, load_segment, load_segments,
}

-- The largest file that is loaded: where it stands, two memories are the same.
abbrev pub file_max : ℕ
file_max = 0x80000

SameFile : (ℕ → ℕ) → (ℕ → ℕ) → Type 0
SameFile memory m = (k : ℕ) → k < file_max → m (exec_buffer + k) ≡ memory (exec_buffer + k)

-- Segment `i` is loaded, and covers address `a`.
abbrev pub covers : (ℕ → ℕ) → ℕ → ℕ → Bool
covers memory i a =
    let header = header_at memory i in
    (p_type memory header == 1)
    && (leb (p_vaddr memory header) a && ltb a (p_vaddr memory header + p_filesz memory header))

-- The byte that the file has for `a` in segment `i`.
abbrev pub segment_byte : (ℕ → ℕ) → ℕ → ℕ → ℕ
segment_byte memory i a =
    let header = header_at memory i in
    memory (exec_buffer + p_offset memory header + (a - p_vaddr memory header))

-- The byte at `a` by the last of the segments `i` to `i + n - 1` that covers it, else `old`.
abbrev pub loaded_byte : ℕ → ℕ → (ℕ → ℕ) → ℕ → ℕ → ℕ
loaded_byte zero i memory a old = old
loaded_byte (suc n) i memory a old =
    loaded_byte n (i + 1) memory a (if covers memory i a then segment_byte memory i a else old)

-- Header `i` stands in the file, and so do the bytes of its segment, if it is loaded, whose place in
-- memory is below the buffer.
pub record IsInFile (memory : ℕ → ℕ) (i : ℕ) : Type 0 where
  pub header : e_phoff memory + i * e_phentsize memory + 32 ≤ file_max
  pub source :
      (p_type memory (header_at memory i) == 1) ≡ true
      → p_offset memory (header_at memory i) + p_filesz memory (header_at memory i) ≤ file_max
  pub target :
      (p_type memory (header_at memory i) == 1) ≡ true
      → p_vaddr memory (header_at memory i) + p_filesz memory (header_at memory i) ≤ exec_buffer

byte_at-SameFile :
    (memory m : ℕ → ℕ) (k : ℕ)
    → SameFile memory m
    → k < file_max
    → byte_at m (exec_buffer + k) ≡ byte_at memory (exec_buffer + k)
unfolding SameFile
byte_at-SameFile memory m k same h =
    let small : (exec_buffer + k) % 2 ^ 32 ≡ exec_buffer + k = omega arith in rw small (same k h)

half_at-SameFile :
    (memory m : ℕ → ℕ) (k : ℕ)
    → SameFile memory m
    → k + 2 ≤ file_max
    → half_at m (exec_buffer + k) ≡ half_at memory (exec_buffer + k)
half_at-SameFile memory m k same h =
    let next : exec_buffer + k + 1 ≡ exec_buffer + (k + 1) = omega arith in
    rw next (
      ap₂ (λ a b. a + b * 2 ^ 8) (byte_at-SameFile memory m k same (omega arith))
        (byte_at-SameFile memory m (k + 1) same (omega arith)))

word_at-SameFile :
    (memory m : ℕ → ℕ) (k : ℕ)
    → SameFile memory m
    → k + 4 ≤ file_max
    → word_at m (exec_buffer + k) ≡ word_at memory (exec_buffer + k)
word_at-SameFile memory m k same h =
    let next : exec_buffer + k + 2 ≡ exec_buffer + (k + 2) = omega arith in
    rw next (
      ap₂ (λ a b. a + b * 2 ^ 16) (half_at-SameFile memory m k same (omega arith))
        (half_at-SameFile memory m (k + 2) same (omega arith)))

SameFile-store :
    (memory m : ℕ → ℕ) (a v : ℕ)
    → SameFile memory m
    → a < exec_buffer
    → SameFile memory (store m a v)
unfolding SameFile
SameFile-store memory m a v same low k h = ground (arith, same k h)

byte_at_lem :
    (memory m : ℕ → ℕ) (k : ℕ)
    → SameFile memory m
    → k < file_max
    → byte_at m (exec_buffer + k) ≡ memory (exec_buffer + k)
byte_at_lem memory m k same h =
    let small : (exec_buffer + k) % 2 ^ 32 ≡ exec_buffer + k = omega arith in
    byte_at-SameFile memory m k same h ∙ rw small refl

copy_bytes_lem :
    (n i dest offset : ℕ) (memory m : ℕ → ℕ) (a : ℕ)
    → SameFile memory m
    → dest + (i + n) ≤ exec_buffer
    → offset + (i + n) ≤ file_max
    → copy_bytes n i dest (exec_buffer + offset) m a ≡ (
        if leb (dest + i) a && ltb a (dest + (i + n))
        then memory (exec_buffer + offset + (a - dest))
        else m a)
unfolding copy_bytes SameFile
copy_bytes_lem zero i dest offset memory m a same low fits = ground arith
copy_bytes_lem (suc n) i dest offset memory m a same low fits =
    let place : (dest + i) % 2 ^ 32 ≡ dest + i = omega arith in
    let from : exec_buffer + offset + i ≡ exec_buffer + (offset + i) = omega arith in
    let taken : byte_at m (exec_buffer + offset + i) ≡ memory (exec_buffer + offset + i) =
      rw from (byte_at_lem memory m (offset + i) same (omega arith)) in
    let next = store m (dest + i) (memory (exec_buffer + offset + i)) in
    rw (place, taken)
      (copy_bytes_lem n (i + 1) dest offset memory next a
          (SameFile-store memory m (dest + i) (memory (exec_buffer + offset + i)) same
            (omega arith))
          (omega arith) (omega arith)
        ∙ elim (ℕ_discrete a (dest + i)) [
          | yes e ↦ let first : a - dest ≡ i = omega arith in rw first (ground (arith, e))
          | no ne ↦ ground (arith, ne)
        ])

SameFile-copy_bytes :
    (n dest offset : ℕ) (memory m : ℕ → ℕ)
    → SameFile memory m
    → dest + n ≤ exec_buffer
    → offset + n ≤ file_max
    → SameFile memory (copy_bytes n 0 dest (exec_buffer + offset) m)
unfolding SameFile
SameFile-copy_bytes n dest offset memory m same low fits k h =
    copy_bytes_lem n 0 dest offset memory m (exec_buffer + k) same (omega arith) (omega arith)
    ∙ outside n dest k (memory (exec_buffer + offset + (exec_buffer + k - dest)))
        (m (exec_buffer + k)) low
    ∙ same k h
  where
    outside :
        (n dest k v w : ℕ)
        → dest + n ≤ exec_buffer
        → (if leb (dest + 0) (exec_buffer + k) && ltb (exec_buffer + k) (dest + (0 + n))
            then v
            else w)
          ≡ w
    outside n dest k v w h = ground arith

-- What the header of a segment says is the same in both memories.
record SameHeader (memory m : ℕ → ℕ) (i : ℕ) : Type 0 where
  at : header_at m i ≡ header_at memory i
  kind : p_type m (header_at memory i) ≡ p_type memory (header_at memory i)
  offset : p_offset m (header_at memory i) ≡ p_offset memory (header_at memory i)
  vaddr : p_vaddr m (header_at memory i) ≡ p_vaddr memory (header_at memory i)
  filesz : p_filesz m (header_at memory i) ≡ p_filesz memory (header_at memory i)

word_at-place :
    (memory m : ℕ → ℕ) (a k : ℕ)
    → SameFile memory m
    → a ≡ exec_buffer + k
    → k + 4 ≤ file_max
    → word_at m a ≡ word_at memory a
word_at-place memory m a k same e h = rw e (word_at-SameFile memory m k same h)

SameFile-header :
    (memory m : ℕ → ℕ) (i : ℕ)
    → SameFile memory m
    → e_phoff memory + i * e_phentsize memory + 32 ≤ file_max
    → SameHeader memory m i
SameFile-header memory m i same h =
    let k : ℕ = e_phoff memory + i * e_phentsize memory in
    let small : (exec_buffer + k) % 2 ^ 32 ≡ exec_buffer + k = omega arith in
    let head : ℕ = header_at memory i in
    record {
      at =
          ap₂ (λ x y. (exec_buffer + (x + i * y)) % 2 ^ 32)
            (word_at-SameFile memory m 28 same (omega arith))
            (half_at-SameFile memory m 42 same (omega arith));
      kind = word_at-place memory m head k same small (omega arith);
      offset = word_at-place memory m (head + 4) (k + 4) same (omega (arith, small)) (omega arith);
      vaddr = word_at-place memory m (head + 8) (k + 8) same (omega (arith, small)) (omega arith);
      filesz =
          word_at-place memory m (head + 16) (k + 16) same (omega (arith, small)) (omega arith);
    }

load_segment_lem :
    (i : ℕ) (memory m : ℕ → ℕ) (a : ℕ)
    → SameFile memory m
    → IsInFile memory i
    → (load_segment i m a ≡ (if covers memory i a then segment_byte memory i a else m a))
      × SameFile memory (load_segment i m)
unfolding load_segment
load_segment_lem i memory m a same f =
    let head = header_at memory i in
    let v = SameFile-header memory m i same f.header in
    rw (v.at, v.kind, v.offset, v.vaddr, v.filesz)
      (elim (Bool-cases (p_type memory head == 1)) [
        | inl e ↦
            let n : ℕ = p_filesz memory head in
            let dest : ℕ = p_vaddr memory head in
            let offset : ℕ = p_offset memory head in
            let first : dest + 0 ≡ dest = omega arith in
            let last : dest + (0 + n) ≡ dest + n = omega arith in
            let low = f.target e in
            let fits = f.source e in
            rw e (
              copy_bytes_lem n 0 dest offset memory m a same (omega arith) (omega arith)
                  ∙ rw (first, last) refl,
              SameFile-copy_bytes n dest offset memory m same low fits,
            )
        | inr e ↦ rw e (refl, same)
      ])

load_segments_lem :
    (n i rounds : ℕ) (memory m : ℕ → ℕ)
    → SameFile memory m
    → i + n ≡ e_phnum memory
    → n < rounds
    → ((j : ℕ) → i ≤ j → j < e_phnum memory → IsInFile memory j)
    → (m' : ℕ → ℕ) × (load_segments rounds i m ≡ ok m')
      × ((a : ℕ) → m' a ≡ loaded_byte n i memory a (m a))
unfolding load_segments
load_segments_lem n i zero memory m same count fuel files = absurd (omega arith)
load_segments_lem zero i (suc rounds) memory m same count fuel files =
    let number = half_at-SameFile memory m 44 same (omega arith) in
    let stop = le→ltb_false i (e_phnum m) (omega (arith, number, count)) in
    (m, rw stop refl, λ a. refl)
load_segments_lem (suc n) i (suc rounds) memory m same count fuel files =
    let number = half_at-SameFile memory m 44 same (omega arith) in
    let go = lt→ltb i (e_phnum m) (omega (arith, number, count)) in
    let file = files i (omega arith) (omega (arith, count)) in
    let next = load_segment i m in
    let (m', e, bytes) =
      load_segments_lem n (i + 1) rounds memory next (load_segment_lem i memory m 0 same file).1
        (omega (arith, count)) (omega arith) (λ j low high. files j (omega arith) high) in
    (
      m',
      rw go e,
      λ a.
          bytes a
          ∙ ap (λ old. loaded_byte n (i + 1) memory a old)
              (load_segment_lem i memory m a same file).0,
    )

-- A file in the buffer whose header counts its program headers in 16 bits, whose program headers
-- stand in the 0x80000 bytes that a file may have, and so do the bytes of each segment that is loaded,
-- and each of these goes to addresses below the buffer. Then the loop over the headers ends, and each
-- byte of memory is the file's byte for it in the last of the loaded segments that cover its address,
-- and is as before where none does.
pub load_segments-loaded_byte :
    (memory : ℕ → ℕ)
    → e_phnum memory < 2 ^ 16
    → ((i : ℕ) → i < e_phnum memory → IsInFile memory i)
    → (memory' : ℕ → ℕ) × (load_segments (2 ^ 16) 0 memory ≡ ok memory')
      × ((a : ℕ) → memory' a ≡ loaded_byte (e_phnum memory) 0 memory a (memory a))
unfolding SameFile
load_segments-loaded_byte memory few files =
    load_segments_lem (e_phnum memory) 0 (2 ^ 16) memory memory (λ k h. refl) (omega arith) few
      (λ j low high. files j high)
