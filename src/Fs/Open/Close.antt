-- ===== src/Fs/Open/Close.antt =====
-- A file that is opened and closed again, and a process that has no descriptor left.
use create_an_os.Prelude.{
  ℕ, zero, suc, suc, ◌+◌, ◌^◌, ◌<◌, ◌≡◌, ◌≢◌, refl, ap, ◌∙◌, arith, bit_and, List, [], ◌∷◌, Option,
  none, some, true, false, ◌&&◌, leb, ◌==◌, if◌then◌else◌, set, Outcome, ok, hang, read, write-ok,
  lt-of_read, read-set_self, set-read, set-set, length-set, ok-injective, ok-injective,
}
use create_an_os.Fs.Disk.{Fs, FileDesc, Inode, minus_one}
use create_an_os.Fs.Directory.{find_file}
use create_an_os.Fs.File.{sys_do_close}
use create_an_os.Fs.Open.{free_fd, free_desc, open_inode, sys_do_open}

free_fd_lem :
    (i fp : ℕ) (fds : List (Option ℕ))
    → free_fd i fds ≡ ok fp
    → (k : ℕ) × (fp ≡ i + k) × (read fds k ≡ ok none)
unfolding free_fd read
free_fd_lem i fp [] h = absurd (cc)
free_fd_lem i fp (none ∷ fds) h = (0, ground arith, refl)
free_fd_lem i fp (some j ∷ fds) h =
    let (k, e, r) = free_fd_lem (i + 1) fp fds h in (suc k, omega (arith, e), r)

free_fd-read : (fp : ℕ) (fds : List (Option ℕ)) → free_fd 0 fds ≡ ok fp → read fds fp ≡ ok none
free_fd-read fp fds h =
    let (k, e, r) = free_fd_lem 0 fp fds h in let same : fp ≡ k = omega (arith, e) in rw same r

-- Descriptor `fp` is the first of the process that is not in use.
pub record IsFirstFree (fp : ℕ) (fds : List (Option ℕ)) : Type 0 where
  pub free : read fds fp ≡ ok none
  pub before : (j : ℕ) → j < fp → (k : ℕ) × (read fds j ≡ ok (some k))

-- Entry `fdi` is the first of the table that is not in use.
pub record IsFirstUnused (fdi : ℕ) (desc : FileDesc) (table : List FileDesc) : Type 0 where
  pub here : read table fdi ≡ ok desc
  pub unused : desc.inode ≡ none
  pub before :
      (j : ℕ) → j < fdi → (d : FileDesc) × (n : ℕ) × (read table j ≡ ok d) × (d.inode ≡ some n)

free_fd-first :
    (i fp : ℕ) (fds : List (Option ℕ)) → IsFirstFree fp fds → free_fd i fds ≡ ok (i + fp)
unfolding free_fd read
free_fd-first i fp [] v = absurd (let free = v.free in cc)
free_fd-first i zero (none ∷ fds) v = ap ok (omega arith)
free_fd-first i zero (some k ∷ fds) v = absurd (let free = v.free in cc)
free_fd-first i (suc fp) (none ∷ fds) v = absurd (let used = (v.before 0 (omega arith)).1 in cc)
free_fd-first i (suc fp) (some k ∷ fds) v =
    free_fd-first (i + 1) fp fds
      (record { free = v.free; before = λ j low. v.before (suc j) (omega arith) })
    ∙ ap ok (omega arith)

free_desc-first :
    (i fdi : ℕ) (desc : FileDesc) (table : List FileDesc)
    → IsFirstUnused fdi desc table
    → free_desc i table ≡ ok (i + fdi)
unfolding free_desc read
free_desc-first i fdi desc [] v = absurd (let here = v.here in cc)
free_desc-first i zero desc (d ∷ table) v =
    let same : d ≡ desc = ok-injective d desc v.here in
    rw (ap (λ (x : FileDesc). x.inode) same ∙ v.unused) (ap ok (omega arith))
free_desc-first i (suc fdi) desc (d ∷ table) v =
    let (e, n, at, used) = v.before 0 (omega arith) in
    let same : d ≡ e = ok-injective d e at in
    rw (ap (λ (x : FileDesc). x.inode) same ∙ used) (
      free_desc-first (i + 1) fdi desc table (record {
        here = v.here;
        unused = v.unused;
        before = λ j low. v.before (suc j) (omega arith);
      })
      ∙ ap ok (omega arith))

-- A process has no descriptor left.
abbrev pub AllUsed : List (Option ℕ) → Type 0
AllUsed [] = Unit {0}
AllUsed (none ∷ fds) = ⊥
AllUsed (some k ∷ fds) = AllUsed fds

free_fd-hang : (i : ℕ) (fds : List (Option ℕ)) → AllUsed fds → free_fd i fds ≡ hang
unfolding free_fd
free_fd-hang i [] h = refl
free_fd-hang i (none ∷ fds) h = absurd h
free_fd-hang i (some k ∷ fds) h = free_fd-hang (i + 1) fds h

-- A process that has all of its descriptors in use does not come back from opening a file, whatever
-- the name and the flags; but if it has a descriptor that is not in use, then closing that one
-- returns -1 and changes nothing.
pub sys_do_open-hang :
    (name : List ℕ) (flag : ℕ) (fs : Fs)
    → (AllUsed fs.fds → sys_do_open name flag fs ≡ hang)
      × ((fp : ℕ) → free_fd 0 fs.fds ≡ ok fp → fp < 4 → sys_do_close fp fs ≡ ok (minus_one, fs))
unfolding sys_do_open sys_do_close
sys_do_open-hang name flag fs = (
  λ used. rw (free_fd-hang 0 fs.fds used) refl,
  λ fp e h.
      let free = free_fd-read fp fs.fds e in
      let small : leb 4 fp ≡ false = ground arith in
      let inside = lt-of_read fs.fds fp none free in
      rw (small, free, write-ok fs.fds fp none inside, set-read fs.fds fp none free) refl,
)

flags-allow :
    (a b : ℕ) (x y : Outcome (ℕ × Fs))
    → b ≢ 0
    → (if a == 0 && false then x else if b == 0 && true then x else y) ≡ y
flags-allow a b x y h = ground arith

open_inode-existing :
    (name : List ℕ) (flag n : ℕ) (fs : Fs)
    → find_file name fs ≡ ok n
    → n < 2 ^ 31
    → bit_and flag 2 ≢ 0
    → open_inode name flag fs ≡ ok (n, fs)
unfolding open_inode
open_inode-existing name flag n fs found h allowed =
    let small : leb (2 ^ 31) n ≡ false = ground arith in
    rw (found, small) (flags-allow (bit_and flag 1) (bit_and flag 2) _ (ok (n, fs)) allowed)

-- Where reading and writing start after opening.
abbrev pub start : ℕ → Inode → ℕ
start flag inode = if bit_and flag 4 == 0 then 0 else inode.size

module _ (name : List ℕ) (flag n fp fdi left : ℕ) (inode : Inode) (fs : Fs) where
  -- Opening a file that is there, with the flag that allows that, takes the first descriptor that is
  -- not in use; that points to the first entry of the table that is not in use. Closing it returns 0
  -- and leaves everything as it was, but for the position in that entry, which no one uses. The
  -- inode's number is below 2^31, the process has descriptors 0 to 3 and the entry's count is 0.
  pub sys_do_close-sys_do_open :
      find_file name fs ≡ ok n
      → n < 2 ^ 31
      → read fs.inode_table n ≡ ok inode
      → bit_and flag 2 ≢ 0
      → IsFirstFree fp fs.fds
      → fp < 4
      → IsFirstUnused fdi
          (record { inode = none; rwpointer = left; rwcount = 0 })
          fs.file_desc_table
      → (fs' : Fs) × (sys_do_open name flag fs ≡ ok (fp, fs'))
        × (read fs'.fds fp ≡ ok (some fdi))
        × (read fs'.file_desc_table fdi
            ≡ ok (record { inode = some n; rwpointer = start flag inode; rwcount = 1 }))
        × (sys_do_close fp fs'
            ≡ ok (
              0,
              record fs {
                file_desc_table =
                    set fs.file_desc_table fdi
                      (record { inode = none; rwpointer = start flag inode; rwcount = 0 });
              },
            ))
  unfolding sys_do_open sys_do_close
  sys_do_close-sys_do_open found h here allowed first low first_entry =
      let e : free_fd 0 fs.fds ≡ ok fp = free_fd-first 0 fp fs.fds first ∙ ap ok (omega arith) in
      let ed : free_desc 0 fs.file_desc_table ≡ ok fdi =
        free_desc-first 0 fdi _ fs.file_desc_table first_entry ∙ ap ok (omega arith) in
      let free = first_entry.here in
      let opened : FileDesc = record {
        inode = some n;
        rwpointer = start flag inode;
        rwcount = 1;
      } in
      let closed : FileDesc = record { inode = none; rwpointer = start flag inode; rwcount = 0 } in
      let taken = first.free in
      let inside = lt-of_read fs.fds fp none taken in
      let inside_table = lt-of_read fs.file_desc_table fdi _ free in
      let not_negative : leb (2 ^ 31) n ≡ false = ground arith in
      let small : leb 4 fp ≡ false = ground arith in
      let table : List FileDesc = set fs.file_desc_table fdi opened in
      let fds : List (Option ℕ) = set fs.fds fp (some fdi) in
      let fd_read = read-set_self fs.fds fp (some fdi) inside in
      let desc_read = read-set_self fs.file_desc_table fdi opened inside_table in
      let long = length-set fs.fds fp (some fdi) in
      let long_table = length-set fs.file_desc_table fdi opened in
      let back : set fds fp none ≡ fs.fds =
        set-set fs.fds fp (some fdi) none ∙ set-read fs.fds fp none taken in
      (
        record fs { file_desc_table = table; fds = fds },
        rw
            (
              e,
              ed,
              open_inode-existing name flag n fs found h allowed,
              not_negative,
              free,
              here,
              write-ok fs.file_desc_table fdi opened inside_table,
              write-ok fs.fds fp (some fdi) inside,
            )
            refl,
        fd_read,
        desc_read,
        rw
            (
              small,
              fd_read,
              write-ok fds fp none (omega arith),
              desc_read,
              write-ok table fdi closed (omega arith),
              back,
              set-set fs.file_desc_table fdi opened closed,
            )
            refl,
      )
