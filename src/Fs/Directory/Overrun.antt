-- ===== src/Fs/Directory/Overrun.antt =====
-- A base name that is too long for its field.
use create_an_os.Prelude.{
  ℕ, ◌+◌, ◌*◌, ◌≤◌, ◌<◌, ◌≡◌, refl, ap, ◌∙◌, arith, List, none, length, length-take_le, take, set,
  length-set, ok, read, write-ok, read-set_self, read-set_ne,
}
use create_an_os.Fs.File.Copy.{copy_into-copy_from}
use create_an_os.Fs.Directory.{base_at, ext_at, split_plain, split_name}
use create_an_os.Fs.Directory.Names.{IsPart, last_dot-none}
use create_an_os.Fs.Directory.Split.{branch, split_name-branch}

-- A name of twelve characters without a dot does not fit: its terminator lands on the first byte of
-- the number of the next entry, whatever that holds.
pub split_name-overruns :
    (i : ℕ) (name dirs : List ℕ)
    → i + 1 < 32
    → length dirs ≡ 512
    → length name ≡ 12
    → IsPart name
    → (dirs' : List ℕ) × (split_name i name dirs ≡ ok dirs') × (read dirs' ((i + 1) * 16) ≡ ok 0)
unfolding branch split_plain
split_name-overruns i name dirs entry size long part =
    let short : length (take 7 name) ≤ 7 = length-take_le 7 name in
    let (d₁, c) = copy_into-copy_from (base_at i) (take 7 name) dirs (omega arith) in
    let d₂ = set d₁ (base_at i + 7) 0 in
    let d₃ = set d₂ (base_at i + length name) 0 in
    let l₁ = c.size in
    let l₂ = length-set d₁ (base_at i + 7) 0 in
    let l₃ = length-set d₂ (base_at i + length name) 0 in
    (
      set d₃ (ext_at i) 0,
      split_name-branch i name dirs none (last_dot-none name 0 none part)
          ∙ rw
              (
                c.runs,
                write-ok d₁ (base_at i + 7) 0 (omega arith),
                write-ok d₂ (base_at i + length name) 0 (omega arith),
                write-ok d₃ (ext_at i) 0 (omega arith),
              )
              refl,
      ap (read (set d₃ (ext_at i) 0)) (omega arith)
          ∙ read-set_ne d₃ (ext_at i) (base_at i + length name) 0 (omega arith)
          ∙ read-set_self d₂ (base_at i + length name) 0 (omega arith),
    )
