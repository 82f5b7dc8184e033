-- ===== src/Fs/Format/Tables.antt =====
-- How the inode table is filled from the disk.
use create_an_os.Prelude.{
  ℕ, zero, suc, ◌+◌, ◌*◌, ◌≤◌, ◌<◌, ◌≡◌, refl, ◌∙◌, arith, List, ok, read, length, set, write-ok,
  length-set, read-set_ne, read-set_self,
}
use create_an_os.Fs.Disk.{Inode}
use create_an_os.Fs.Format.{inode_of, load_sector, load_inodes}

-- The table with the four inodes of a sector from `i` on.
abbrev filled : List ℕ → ℕ → List Inode → List Inode
filled bytes i table =
    set
      (set (set (set table i (inode_of bytes 0)) (i + 1) (inode_of bytes 128)) (i + 2)
        (inode_of bytes 256))
      (i + 3) (inode_of bytes 384)

length-filled :
    (bytes : List ℕ) (i : ℕ) (table : List Inode) → length (filled bytes i table) ≡ length table
length-filled bytes i table =
    length-set _ (i + 3) _ ∙ length-set _ (i + 2) _ ∙ length-set _ (i + 1) _ ∙ length-set table i _

read-filled :
    (bytes : List ℕ) (i j : ℕ) (table : List Inode)
    → j < i
    → read (filled bytes i table) j ≡ read table j
read-filled bytes i j table h =
    read-set_ne _ (i + 3) j _ (λ e. omega arith)
    ∙ read-set_ne _ (i + 2) j _ (λ e. omega arith)
    ∙ read-set_ne _ (i + 1) j _ (λ e. omega arith)
    ∙ read-set_ne table i j _ (λ e. omega arith)

read-filled_first :
    (bytes : List ℕ) (i : ℕ) (table : List Inode)
    → i < length table
    → read (filled bytes i table) i ≡ ok (inode_of bytes 0)
read-filled_first bytes i table h =
    read-set_ne _ (i + 3) i _ (λ e. omega arith)
    ∙ read-set_ne _ (i + 2) i _ (λ e. omega arith)
    ∙ read-set_ne _ (i + 1) i _ (λ e. omega arith)
    ∙ read-set_self table i _ h

load_sector_lem :
    (bytes : List ℕ) (i : ℕ) (table : List Inode)
    → i + 4 ≤ length table
    → load_sector bytes i table ≡ ok (filled bytes i table)
unfolding load_sector
load_sector_lem bytes i table h =
    let t₁ = set table i (inode_of bytes 0) in
    let t₂ = set t₁ (i + 1) (inode_of bytes 128) in
    let t₃ = set t₂ (i + 2) (inode_of bytes 256) in
    let l₁ = length-set table i (inode_of bytes 0) in
    let l₂ = length-set t₁ (i + 1) (inode_of bytes 128) in
    let l₃ = length-set t₂ (i + 2) (inode_of bytes 256) in
    rw
      (
        write-ok table i (inode_of bytes 0) (omega arith),
        write-ok t₁ (i + 1) (inode_of bytes 128) (omega arith),
        write-ok t₂ (i + 2) (inode_of bytes 256) (omega arith),
        write-ok t₃ (i + 3) (inode_of bytes 384) (omega arith),
      )
      refl

-- A table of the same length whose entries in front of `i` are those of `table`.
pub record Behind (i : ℕ) (table table' : List Inode) : Type 0 where
  pub size : length table' ≡ length table
  pub same : (j : ℕ) → j < i → read table' j ≡ read table j

pub load_inodes_lem :
    (left block i : ℕ) (disk : ℕ → List ℕ) (table : List Inode)
    → i + left * 4 ≤ length table
    → (table' : List Inode) × (load_inodes left block i disk table ≡ ok table')
      × Behind i table table'
unfolding load_inodes
load_inodes_lem zero block i disk table h =
    (table, refl, record { size = refl; same = λ j low. refl })
load_inodes_lem (suc left) block i disk table h =
    let next : List Inode = filled (disk block) i table in
    let same_size = length-filled (disk block) i table in
    let (table', e, b) = load_inodes_lem left (block + 1) (i + 4) disk next (omega arith) in
    (
      table',
      rw (load_sector_lem (disk block) i table (omega arith)) e,
      record {
        size = b.size ∙ same_size;
        same = λ j low. b.same j (omega arith) ∙ read-filled (disk block) i j table low;
      },
    )

-- Entry `i` is the first inode of sector `block`, if there is a sector to load.
pub load_inodes-first :
    (left block i : ℕ) (disk : ℕ → List ℕ) (table : List Inode)
    → i + suc left * 4 ≤ length table
    → (table' : List Inode) × (load_inodes (suc left) block i disk table ≡ ok table')
      × (length table' ≡ length table)
      × (read table' i ≡ ok (inode_of (disk block) 0))
unfolding load_inodes
load_inodes-first left block i disk table h =
    let next : List Inode = filled (disk block) i table in
    let same_size = length-filled (disk block) i table in
    let (table', e, b) = load_inodes_lem left (block + 1) (i + 4) disk next (omega arith) in
    (
      table',
      rw (load_sector_lem (disk block) i table (omega arith)) e,
      b.size ∙ same_size,
      b.same i (omega arith) ∙ read-filled_first (disk block) i table (omega arith),
    )
