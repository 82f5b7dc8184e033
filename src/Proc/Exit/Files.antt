-- ===== src/Proc/Exit/Files.antt =====
-- The descriptors of a process that ends, and of one that shares them.
use create_an_os.Prelude.{
  ℕ, zero, suc, ◌+◌, ◌-◌, ◌%◌, ◌^◌, ◌≤◌, ◌<◌, ◌≡◌, refl, sym, ap, ◌∙◌, arith, List, [], ◌∷◌, Option,
  none, some, true, false, leb, ◌==◌, if◌then◌else◌, ℕ_discrete, length, length-set, set, ok, read,
  write-ok, lt-of_read, read-set_self, read-set_ne, read-some, ok-injective,
}
use create_an_os.Fs.Disk.{Fs, FileDesc, minus_one}
use create_an_os.Fs.File.{sys_do_close, sys_do_read, sys_do_write, with_file}
use create_an_os.Proc.Exit.{close_fds}

-- A descriptor after one of its holders is gone.
abbrev pub released : FileDesc → FileDesc
released desc =
    let count = (desc.rwcount + 2 ^ 32 - 1) % 2 ^ 32 in
    record desc { rwcount = count; inode = if count == 0 then none else desc.inode }

abbrev closed : ℕ → ℕ → FileDesc → Fs → Fs
closed fd k desc fs = record fs {
  fds = set fs.fds fd none;
  file_desc_table = set fs.file_desc_table k (released desc);
}

sys_do_close_lem :
    (fd k : ℕ) (desc : FileDesc) (fs : Fs)
    → fd < 4
    → read fs.fds fd ≡ ok (some k)
    → read fs.file_desc_table k ≡ ok desc
    → sys_do_close fd fs
      ≡ ok (elim desc.inode [ none ↦ minus_one | some n ↦ 0 ], closed fd k desc fs)
unfolding sys_do_close
sys_do_close_lem fd k desc fs h held found =
    let valid : leb 4 fd ≡ false = ground (arith, h) in
    rw
      (
        valid,
        held,
        write-ok fs.fds fd none (lt-of_read fs.fds fd (some k) held),
        found,
        write-ok fs.file_desc_table k (released desc) (lt-of_read fs.file_desc_table k desc found),
      )
      refl

-- The entries of an array of descriptors that are in use lie in a table of `size` entries.
abbrev pub AreFiles : ℕ → List (Option ℕ) → Type 0
AreFiles size [] = Unit {0}
AreFiles size (none ∷ fds) = AreFiles size fds
AreFiles size (some k ∷ fds) = (k < size) × AreFiles size fds

abbrev number : Option ℕ → ℕ
number none = 0
number (some k) = k

AreFiles-read :
    (size : ℕ) (fds : List (Option ℕ)) (i k : ℕ)
    → AreFiles size fds
    → read fds i ≡ ok (some k)
    → k < size
unfolding read
AreFiles-read size [] i k v at = absurd (cc)
AreFiles-read size (none ∷ fds) zero k v at = absurd (cc)
AreFiles-read size (some j ∷ fds) zero k v at =
    let same : j ≡ k = ap number (ok-injective (some j) (some k) at) in omega (arith, v.0)
AreFiles-read size (none ∷ fds) (suc i) k v at = AreFiles-read size fds i k v at
AreFiles-read size (some j ∷ fds) (suc i) k v at = AreFiles-read size fds i k v.1 at

-- A descriptor that is not in use.
not_open :
    (fd k size : ℕ) (bytes : List ℕ) (desc : FileDesc) (fs : Fs)
    → fd < 4
    → read fs.fds fd ≡ ok (some k)
    → read fs.file_desc_table k ≡ ok desc
    → desc.inode ≡ none
    → (sys_do_read fd size fs ≡ ok none) × (sys_do_write fd bytes size fs ≡ ok (minus_one, fs))
unfolding sys_do_read sys_do_write with_file
not_open fd k size bytes desc fs h held found gone =
    let valid : leb 4 fd ≡ false = ground (arith, h) in
    (rw (valid, held, found, gone) refl, rw (valid, held, found, gone) refl)

-- A descriptor whose count is 1 is closed, which succeeds: by another array of descriptors that has
-- it, neither reading nor writing is possible afterwards.
pub sys_do_close-cuts_off :
    (fd k n size : ℕ) (bytes : List ℕ) (desc : FileDesc) (fs : Fs)
    → fd < 4
    → read fs.fds fd ≡ ok (some k)
    → read fs.file_desc_table k ≡ ok desc
    → desc.inode ≡ some n
    → desc.rwcount ≡ 1
    → (fs' : Fs) × (sys_do_close fd fs ≡ ok (0, fs'))
      × (sys_do_read fd size (record fs' { fds = fs.fds }) ≡ ok none)
      × (sys_do_write fd bytes size (record fs' { fds = fs.fds })
          ≡ ok (minus_one, record fs' { fds = fs.fds }))
sys_do_close-cuts_off fd k n size bytes desc fs h held found file once =
    let after : Fs = record (closed fd k desc fs) { fds = fs.fds } in
    let none_left : ((desc.rwcount + 2 ^ 32 - 1) % 2 ^ 32 == 0) ≡ true = ground (arith, once) in
    let at : read after.file_desc_table k ≡ ok (released desc) =
      read-set_self fs.file_desc_table k (released desc)
        (lt-of_read fs.file_desc_table k desc found) in
    let (no_read, no_write) =
      not_open fd k size bytes (released desc) after h held at (rw none_left refl) in
    (
      closed fd k desc fs,
      sys_do_close_lem fd k desc fs h held found ∙ rw file refl,
      no_read,
      no_write,
    )

AreFiles-set :
    (size : ℕ) (fds : List (Option ℕ)) (i : ℕ) → AreFiles size fds → AreFiles size (set fds i none)
AreFiles-set size [] i v = tt
AreFiles-set size (none ∷ fds) zero v = v
AreFiles-set size (some k ∷ fds) zero v = v.1
AreFiles-set size (none ∷ fds) (suc i) v = AreFiles-set size fds i v
AreFiles-set size (some k ∷ fds) (suc i) v = (v.0, AreFiles-set size fds i v.1)

close_fds-skip :
    (left i : ℕ) (fs : Fs)
    → read fs.fds i ≡ ok none
    → close_fds (suc left) i fs ≡ close_fds left (i + 1) fs
unfolding close_fds
close_fds-skip left i fs at = rw at refl

close_fds-step :
    (left i k : ℕ) (desc : FileDesc) (fs : Fs)
    → i < 4
    → read fs.fds i ≡ ok (some k)
    → read fs.file_desc_table k ≡ ok desc
    → close_fds (suc left) i fs ≡ close_fds left (i + 1) (closed i k desc fs)
unfolding close_fds
close_fds-step left i k desc fs h held found =
    rw (held, sys_do_close_lem i k desc fs h held found) refl

-- What closing the descriptors from `i` on leaves.
pub record AreClosed (i n : ℕ) (fs fs' : Fs) : Type 0 where
  pub size : length fs'.fds ≡ length fs.fds
  pub gone : (j : ℕ) → i ≤ j → j < i + n → read fs'.fds j ≡ ok none
  pub kept : (j : ℕ) → j < i → read fs'.fds j ≡ read fs.fds j

extend :
    (left i : ℕ) (fs next fs' : Fs)
    → length next.fds ≡ length fs.fds
    → read next.fds i ≡ ok none
    → ((j : ℕ) → j < i → read next.fds j ≡ read fs.fds j)
    → AreClosed (i + 1) left next fs'
    → AreClosed i (suc left) fs fs'
extend left i fs next fs' same here before c = record {
  size = c.size ∙ same;
  gone = λ j low high. elim (ℕ_discrete i j) [
    | yes e ↦ ap (read fs'.fds) (sym e) ∙ c.kept i (omega arith) ∙ here
    | no ne ↦ c.gone j (omega arith) (omega arith)
  ];
  kept = λ j low. c.kept j (omega arith) ∙ before j low;
}

-- The state behind entry `i`, whatever it holds, and how the loop gets there.
close_first :
    (left i : ℕ) (entry : Option ℕ) (fs : Fs)
    → i < 4
    → length fs.fds ≡ 4
    → AreFiles (length fs.file_desc_table) fs.fds
    → read fs.fds i ≡ ok entry
    → (next : Fs) × (close_fds (suc left) i fs ≡ close_fds left (i + 1) next)
      × (length next.fds ≡ 4)
      × AreFiles (length next.file_desc_table) next.fds
      × (read next.fds i ≡ ok none)
      × ((j : ℕ) → j < i → read next.fds j ≡ read fs.fds j)
close_first left i none fs h size files at =
    (fs, close_fds-skip left i fs at, size, files, at, λ j low. refl)
close_first left i (some k) fs h size files at =
    let entries = length fs.file_desc_table in
    let (desc, found) =
      read-some fs.file_desc_table k (AreFiles-read entries fs.fds i k files at) in
    (
      closed i k desc fs,
      close_fds-step left i k desc fs h at found,
      length-set fs.fds i none ∙ size,
      rw (length-set fs.file_desc_table k (released desc)) (AreFiles-set entries fs.fds i files),
      read-set_self fs.fds i none (omega arith),
      λ j low. read-set_ne fs.fds i j none (λ e. omega arith),
    )

-- The loop ends: every descriptor from `i` on is empty then.
pub close_fds-AreClosed :
    (left i : ℕ) (fs : Fs)
    → i + left ≤ 4
    → length fs.fds ≡ 4
    → AreFiles (length fs.file_desc_table) fs.fds
    → (fs' : Fs) × (close_fds left i fs ≡ ok fs') × AreClosed i left fs fs'
close_fds-AreClosed zero i fs h size files = (
  fs,
  unfold close_fds in refl,
  record { size = refl; gone = λ j low high. absurd (omega arith); kept = λ j low. refl },
)
close_fds-AreClosed (suc left) i fs h size files =
    let (entry, at) = read-some fs.fds i (omega arith) in
    let (next, e, size', files', here, before) =
      close_first left i entry fs (omega arith) size files at in
    let (fs', e', c) = close_fds-AreClosed left (i + 1) next (omega arith) size' files' in
    (fs', e ∙ e', extend left i fs next fs' (omega arith) here before c)
