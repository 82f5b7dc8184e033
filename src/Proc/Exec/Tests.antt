-- ===== src/Proc/Exec/Tests.antt =====
-- Arguments and a program file at concrete inputs.
use create_an_os.Prelude.{
  ℕ, ◌+◌, ◌^◌, ◌<◌, ◌≡◌, refl, arith, List, [], ◌∷◌, replicate, ◌==◌, if◌then◌else◌, ltb, leb, ◌&&◌,
  ◌-◌, ok, ◌>>=◌, write,
}
use create_an_os.Fs.Disk.{words_bytes}
use create_an_os.Fs.File.{copy_into}
use create_an_os.Proc.Exec.{
  push_args, put_pointer, align, argument_block, copy_bytes, e_phnum, load_segment, load_segments,
}
use create_an_os.Proc.Exec.Loading.{IsInFile, loaded_byte, load_segments-loaded_byte}

-- "cat" and "a"
abbrev args : List (List ℕ)
args = (b'c' ∷ b'a' ∷ b't' ∷ []) ∷ (b'a' ∷ []) ∷ []

-- Strings of 4 and of 2 bytes below 255, then down to a multiple of 4, and two words.
block_at : argument_block args (replicate 256 0) >>= (λ r. ok r.0) ≡ ok 240
unfolding argument_block push_args put_pointer align copy_into words_bytes write
block_at = refl

-- A file with one program header at 52: four bytes from 0x100 on go to 0x1000.
abbrev file : ℕ → ℕ
file a =
    if a == 0xc0420000 + 28
    then 52
    else if a == 0xc0420000 + 42
    then 32
    else if a == 0xc0420000 + 44
    then 1
    else if a == 0xc0420000 + 52
    then 1
    else if a == 0xc0420000 + 57
    then 1
    else if a == 0xc0420000 + 61
    then 0x10
    else if a == 0xc0420000 + 68
    then 4
    else if leb 0xc0420100 a && ltb a 0xc0420104
    then a - 0xc0420100 + 5
    else 0

third_byte : load_segments 2 0 file >>= (λ m. ok (m 0x1002)) ≡ ok 7
unfolding load_segments load_segment copy_bytes
third_byte = refl

file-IsInFile : (i : ℕ) → i < e_phnum file → IsInFile file i
file-IsInFile i h =
    let only : i ≡ 0 = omega (arith, h) in
    rw only (record { header = omega arith; source = λ e. omega arith; target = λ e. omega arith })

load_segments-loaded_byte_example :
    (memory' : ℕ → ℕ) × (load_segments (2 ^ 16) 0 file ≡ ok memory')
    × ((a : ℕ) → memory' a ≡ loaded_byte 1 0 file a (file a))
load_segments-loaded_byte_example = load_segments-loaded_byte file (omega arith) file-IsInFile
