-- ===== src/Proc/Fork/Slots.antt =====
-- The slot that a fork takes.
use create_an_os.Prelude.{
  ℕ, zero, suc, ◌+◌, ◌≤◌, ◌<◌, ◌≡◌, refl, arith, List, none, some, true, false, ℕ_discrete, length,
  ok, read, read-some,
}
use create_an_os.Proc.Table.{Pcb, is_empty}
use create_an_os.Proc.Fork.{find_empty}

-- Slot `j` is the first that is empty, from slot `i` on.
pub record IsLowestEmpty (i j : ℕ) (procs : List Pcb) : Type 0 where
  pub pcb : Pcb
  pub here : read procs j ≡ ok pcb
  pub free : is_empty pcb.stat ≡ true
  pub before : (e : ℕ) (q : Pcb) → i ≤ e → e < j → read procs e ≡ ok q → is_empty q.stat ≡ false

pub find_empty_lem :
    (left i j : ℕ) (procs : List Pcb)
    → i ≤ j
    → j < i + left
    → i + left ≤ length procs
    → IsLowestEmpty i j procs
    → find_empty left i procs ≡ ok (some j)
unfolding find_empty
find_empty_lem zero i j procs low high size v = absurd (omega arith)
find_empty_lem (suc left) i j procs low high size v = elim (ℕ_discrete i j) [
  | yes e ↦ rw (e, v.here, v.free) refl
  | no ne ↦
      let (pcb, at) = read-some procs i (omega arith) in
      rw (at, v.before i pcb (omega arith) (omega arith) at)
        (find_empty_lem left (i + 1) j procs (omega arith) (omega arith) (omega arith) (record {
          pcb = v.pcb;
          here = v.here;
          free = v.free;
          before = λ e q p r. v.before e q (omega arith) r;
        }))
]

pub find_empty-none :
    (left i : ℕ) (procs : List Pcb)
    → i + left ≤ length procs
    → ((e : ℕ) (pcb : Pcb) → read procs e ≡ ok pcb → is_empty pcb.stat ≡ false)
    → find_empty left i procs ≡ ok none
unfolding find_empty
find_empty-none zero i procs size full = refl
find_empty-none (suc left) i procs size full =
    let (pcb, at) = read-some procs i (omega arith) in
    rw (at, full i pcb at) (find_empty-none left (i + 1) procs (omega arith) full)
