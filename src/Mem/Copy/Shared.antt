-- ===== src/Mem/Copy/Shared.antt =====
-- A page table that is shared: each page in it is write-protected and counted once more.
use create_an_os.Prelude.{
  ℕ, zero, suc, ◌+◌, ◌*◌, ◌^◌, ◌≤◌, ◌<◌, ◌≡◌, ◌≢◌, refl, sym, ap, ap₂, ℕ_discrete, ◌∙◌, ◌⊎◌, inl,
  inr, bit_and, false, Bool-cases, arith, List, [], ◌∷◌, ◌==◌, if◌then◌else◌, ok,
}
use create_an_os.Mem.Paging.{CopyMap, add}
use create_an_os.Mem.Paging.Shares.{shares, Absent, Present, IsCounted, Recounted, HasRoom}
use create_an_os.Mem.Paging.Adding.{add-Recounted}
use create_an_os.Mem.Paging.Room.{room, HasRoom-room, Present-or, room-add}
use create_an_os.Mem.Fault.{Space, set_word}
use create_an_os.Mem.Copy.{protect, share_entries}

-- `n` entries of the table at `spte`, from entry `j` on.
abbrev pub entries : ℕ → ℕ → ℕ → (ℕ → ℕ) → List ℕ
entries zero spte j word = []
entries (suc n) spte j word = word (spte + 4 * j) ∷ entries n spte (j + 1) word

abbrev pub page_in : ℕ → ℕ
page_in entry = bit_and (protect entry) 0xfffff000

abbrev pub shared_entry : ℕ → ℕ
shared_entry entry = if bit_and entry 1 == 0 then entry else protect entry

abbrev pub shared_entries : List ℕ → List ℕ
shared_entries [] = []
shared_entries (entry ∷ es) = shared_entry entry ∷ shared_entries es

-- How many entries are present, and how many of them name `page`.
abbrev pub present : List ℕ → ℕ
present [] = 0
present (entry ∷ es) = (if bit_and entry 1 == 0 then 0 else 1) + present es

abbrev pub uses : ℕ → List ℕ → ℕ
uses page [] = 0
uses page (entry ∷ es) =
    (if bit_and entry 1 == 0 then 0 else if page_in entry == page then 1 else 0) + uses page es

-- No entry that is present names page 0.
abbrev pub IsReal : List ℕ → Type 0
IsReal [] = Unit {0}
IsReal (entry ∷ es) = ((bit_and entry 1 ≡ 0) ⊎ (page_in entry ≢ 0)) × IsReal es

pub entries-moved :
    (n a b j : ℕ) (w w' : ℕ → ℕ)
    → ((k : ℕ) → j ≤ k → k < j + n → w' (a + 4 * k) ≡ w (b + 4 * k))
    → entries n a j w' ≡ entries n b j w
entries-moved zero a b j w w' same = refl
entries-moved (suc n) a b j w w' same =
    ap₂ ◌∷◌ (same j (omega arith) (omega arith))
      (entries-moved n a b (j + 1) w w' (λ k low high. same k (omega arith) (omega arith)))

-- What sharing `n` entries from `j` on makes of a state, the entries being those of `w`.
pub record IsShared (n spte j : ℕ) (w : ℕ → ℕ) (s s' : Space) : Type 0 where
  pub table : entries n spte j s'.frames.word ≡ shared_entries (entries n spte j w)
  pub words :
      (a : ℕ) → (a < spte + 4 * j) ⊎ (spte + 4 * (j + n) ≤ a) → s'.frames.word a ≡ s.frames.word a
  pub bitmap : s'.frames.page_bitmap ≡ s.frames.page_bitmap
  pub memory : s'.memory ≡ s.memory
  pub pages : s'.pages ≡ s.pages
  pub counted : IsCounted s'.copies
  pub counts :
      (page : ℕ)
      → page ≢ 0
      → shares page s'.copies ≡ shares page s.copies + uses page (entries n spte j w)
  pub left : room s.copies ≤ room s'.copies + present (entries n spte j w)

-- The map of counts has an entry for each page that is present, and no count wraps.
pub record CanShare (es : List ℕ) (copies : CopyMap) : Type 0 where
  pub counted : IsCounted copies
  pub real : IsReal es
  pub enough : present es ≤ room copies
  pub small : (page : ℕ) → page ≢ 0 → shares page copies + uses page es < 2 ^ 32

-- A state with entry `j` protected.
abbrev protected : ℕ → ℕ → Space → CopyMap → Space
protected spte j s copies = record s {
  frames = set_word (spte + 4 * j) (protect (s.frames.word (spte + 4 * j))) s.frames;
  copies = copies;
}

share_entries-skip :
    (n spte j : ℕ) (s : Space)
    → bit_and (s.frames.word (spte + 4 * j)) 1 ≡ 0
    → share_entries (suc n) spte j s ≡ share_entries n spte (j + 1) s
unfolding share_entries
share_entries-skip n spte j s off = rw off refl

share_entries-step :
    (n spte j : ℕ) (s : Space) (copies : CopyMap)
    → (bit_and (s.frames.word (spte + 4 * j)) 1 == 0) ≡ false
    → add (page_in (s.frames.word (spte + 4 * j))) s.copies ≡ ok copies
    → share_entries (suc n) spte j s ≡ share_entries n spte (j + 1) (protected spte j s copies)
unfolding share_entries
share_entries-step n spte j s copies on e = rw (on, e) refl

abbrev Agree : ℕ → ℕ → ℕ → (ℕ → ℕ) → (ℕ → ℕ) → Type 0
Agree n spte j w word = (k : ℕ) → j ≤ k → k < j + n → word (spte + 4 * k) ≡ w (spte + 4 * k)

module _ (n spte j : ℕ) (w : ℕ → ℕ) (s s' : Space) where
  -- An entry that is not present in front of a step further on.
  skip-IsShared :
      bit_and (w (spte + 4 * j)) 1 ≡ 0
      → s.frames.word (spte + 4 * j) ≡ w (spte + 4 * j)
      → IsShared n spte (j + 1) w s s'
      → IsShared (suc n) spte j w s s'
  skip-IsShared off same r = record {
    table =
        ap₂ ◌∷◌ (r.words (spte + 4 * j) (inl (omega arith)) ∙ same ∙ ground (arith, off)) r.table;
    words = λ a out. r.words a (ground (arith, out));
    bitmap = r.bitmap;
    memory = r.memory;
    pages = r.pages;
    counted = r.counted;
    counts = λ page nz. r.counts page nz ∙ ground (arith, off);
    left = ground (arith, r.left, off);
  }

  -- An entry that is present.
  share-IsShared :
      (copies : CopyMap)
      → (bit_and (w (spte + 4 * j)) 1 == 0) ≡ false
      → s.frames.word (spte + 4 * j) ≡ w (spte + 4 * j)
      → Recounted
          (page_in (w (spte + 4 * j)))
          (shares (page_in (w (spte + 4 * j))) s.copies + 1)
          s.copies
          copies
      → room s.copies ≤ room copies + 1
      → IsShared n spte (j + 1) w (protected spte j s copies) s'
      → IsShared (suc n) spte j w s s'
  share-IsShared copies on same c taken r = record {
    table = ap₂ ◌∷◌ (r.words (spte + 4 * j) (inl (omega arith)) ∙ ground (arith, on, same)) r.table;
    words = λ a out. r.words a (ground (arith, out)) ∙ ground (arith, out);
    bitmap = r.bitmap;
    memory = r.memory;
    pages = r.pages;
    counted = r.counted;
    counts = λ page nz. elim (ℕ_discrete (page_in (w (spte + 4 * j))) page) [
      | yes e ↦ r.counts page nz ∙ ground (arith, on, e, c.own)
      | no ne ↦ r.counts page nz ∙ ground (arith, on, ne, c.others page nz (λ e. ne (sym e)))
    ];
    left = ground (arith, r.left, on, taken);
  }

module _ (n spte j : ℕ) (w : ℕ → ℕ) where
  skip-CanShare :
      (copies : CopyMap)
      → bit_and (w (spte + 4 * j)) 1 ≡ 0
      → CanShare (entries (suc n) spte j w) copies
      → CanShare (entries n spte (j + 1) w) copies
  skip-CanShare copies off v = record {
    counted = v.counted;
    real = v.real.1;
    enough = ground (arith, off, v.enough);
    small = λ page nz. ground (arith, off, v.small page nz);
  }

  share-CanShare :
      (copies copies' : CopyMap)
      → (bit_and (w (spte + 4 * j)) 1 == 0) ≡ false
      → Recounted
          (page_in (w (spte + 4 * j)))
          (shares (page_in (w (spte + 4 * j))) copies + 1)
          copies
          copies'
      → room copies ≤ room copies' + 1
      → CanShare (entries (suc n) spte j w) copies
      → CanShare (entries n spte (j + 1) w) copies'
  share-CanShare copies copies' on c taken v = record {
    counted = c.counted;
    real = v.real.1;
    enough = ground (arith, on, v.enough, taken);
    small = λ page nz. elim (ℕ_discrete (page_in (w (spte + 4 * j))) page) [
      | yes e ↦ ground (arith, on, e, v.small page nz, c.own)
      | no ne ↦ ground (arith, on, ne, v.small page nz, c.others page nz (λ e. ne (sym e)))
    ];
  }

  -- `add` has what it needs.
  can_add :
      (copies : CopyMap)
      → (bit_and (w (spte + 4 * j)) 1 == 0) ≡ false
      → CanShare (entries (suc n) spte j w) copies
      → (page_in (w (spte + 4 * j)) ≢ 0)
        × ((Present (page_in (w (spte + 4 * j))) copies
              × (shares (page_in (w (spte + 4 * j))) copies + 1 < 2 ^ 32))
            ⊎ (Absent (page_in (w (spte + 4 * j))) copies × HasRoom copies))
  can_add copies on v =
      let nz : page_in (w (spte + 4 * j)) ≢ 0 = elim v.real.0 [
        | inl off ↦ absurd (ground (arith, on, off))
        | inr real ↦ real
      ] in
      (
        nz,
        elim (Present-or (page_in (w (spte + 4 * j))) copies) [
          | inl p ↦ inl (p, ground (arith, on, v.small (page_in (w (spte + 4 * j))) nz))
          | inr a ↦ inr (a, HasRoom-room copies (ground (arith, on, v.enough)))
        ],
      )

pub share_entries_lem :
    (n spte j : ℕ) (w : ℕ → ℕ) (s : Space)
    → Agree n spte j w s.frames.word
    → CanShare (entries n spte j w) s.copies
    → (s' : Space) × (share_entries n spte j s ≡ ok s') × IsShared n spte j w s s'
share_entries_lem zero spte j w s same v = (
  s,
  unfold share_entries in refl,
  record {
    table = refl;
    words = λ a out. refl;
    bitmap = refl;
    memory = refl;
    pages = refl;
    counted = v.counted;
    counts = λ page nz. omega arith;
    left = omega arith;
  },
)
share_entries_lem (suc n) spte j w s same v =
    elim (Bool-cases (bit_and (w (spte + 4 * j)) 1 == 0)) [
      | inl off ↦
          let here = same j (omega arith) (omega arith) in
          let off' : bit_and (w (spte + 4 * j)) 1 ≡ 0 = ground (arith, off) in
          let (s', e, r) =
            share_entries_lem n spte (j + 1) w s (λ k low high. same k (omega arith) (omega arith))
              (skip-CanShare n spte j w s.copies off' v) in
          (
            s',
            share_entries-skip n spte j s (ap (λ x. bit_and x 1) here ∙ off') ∙ e,
            skip-IsShared n spte j w s s' off' here r,
          )
      | inr on ↦
          let here = same j (omega arith) (omega arith) in
          let (nz, can) = can_add n spte j w s.copies on v in
          let (copies, e, c) =
            add-Recounted (page_in (w (spte + 4 * j))) s.copies nz v.counted can in
          let taken = room-add (page_in (w (spte + 4 * j))) s.copies copies e in
          let (s', e', r) =
            share_entries_lem n spte (j + 1) w (protected spte j s copies)
              (λ k low high. ground (arith, low) ∙ same k (omega arith) (omega arith))
              (share-CanShare n spte j w s.copies copies on c taken v) in
          (
            s',
            share_entries-step n spte j s copies (ap (λ x. bit_and x 1 == 0) here ∙ on)
                  (ap (λ x. add (page_in x) s.copies) here ∙ e)
                ∙ e',
            share-IsShared n spte j w s s' copies on here c taken r,
          )
    ]
