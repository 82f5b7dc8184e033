-- ===== src/Io/Tty/Drain.antt =====
-- The second loop of `sys_std_read` moves `tail` on without taking it round at the end of the
-- queue.
use create_an_os.Prelude.{
  ℕ, ◌+◌, ◌-◌, ◌%◌, ◌≤◌, ◌≡◌, ◌≢◌, refl, arith, some, leb, if◌then◌else◌, length, set, length-set,
  ok, fault, read-fault, write-ok,
}
use create_an_os.Io.Terminal.{Tty}
use create_an_os.Io.Tty.{input_size, edit_input, copy_line, std_read_line}
use create_an_os.Io.Tty.Input.{IsValid, contents}
use create_an_os.Io.Tty.Line.{take_line, emptied, std_read_line_lem}

-- A terminal whose `tail` is past the end of the queue, with one byte in it.
past_end :
    (max_size : ℕ) (tty : Tty)
    → length tty.input ≤ tty.tail
    → tty.cnt ≡ 1
    → std_read_line max_size tty ≡ fault
unfolding std_read_line copy_line
past_end max_size tty h one = rw (one, read-fault tty.input tty.tail (omega arith))

-- If the bytes behind the line that is read go round the end of the queue, or up to it, the read
-- leaves `tail` past the end: the next byte that is typed is taken, and the next read, of any size,
-- is outside of the queue.
pub std_read_line-escapes :
    (max_size next_size c : ℕ) (tty : Tty)
    → IsValid tty
    → c ≢ 8
    → let line = take_line max_size (contents tty) in
      128 ≤ (tty.tail + length line) % 128 + (tty.cnt - length line)
      → (drained : Tty) × (filled : Tty) × (std_read_line max_size tty ≡ ok (line, drained))
        × (edit_input c drained ≡ ok (some filled))
        × (std_read_line next_size filled ≡ fault)
std_read_line-escapes max_size next_size c tty v ne past =
    let k = length (take_line max_size (contents tty)) in
    let drained : Tty = emptied k tty in
    let filled : Tty = record drained {
      input = set tty.input tty.head c;
      head = if leb input_size (tty.head + 1) then 0 else tty.head + 1;
      cnt = 1;
    } in
    (
      drained,
      filled,
      std_read_line_lem max_size tty v,
      (unfold edit_input in ground (arith, write-ok tty.input tty.head c)),
      past_end next_size filled (omega (arith, length-set tty.input tty.head c)) refl,
    )
