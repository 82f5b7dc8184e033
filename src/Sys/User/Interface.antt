-- ===== src/Sys/User/Interface.antt =====
-- sys/user/interface.c: the system calls as a user program makes them. `regs` are the program's
-- registers in front of `int $0x80`; what the call returns is what eax holds behind it. An address
-- is a number.
use create_an_os.Prelude.{ℕ}
use create_an_os.Sys.Frame.{Frame}

-- `open`
unfoldable pub open_file : ℕ → ℕ → Frame → Frame
open_file name flag regs = record regs { eax = 1; ebx = name; ecx = flag }

unfoldable pub close : ℕ → Frame → Frame
close fd regs = record regs { eax = 2; ebx = fd }

unfoldable pub write : ℕ → ℕ → ℕ → Frame → Frame
write fd bytes size regs = record regs { eax = 3; ebx = fd; ecx = bytes; edx = size }

unfoldable pub read : ℕ → ℕ → ℕ → Frame → Frame
read fd dest size regs = record regs { eax = 4; ebx = fd; ecx = dest; edx = size }

unfoldable pub unlink : ℕ → Frame → Frame
unlink name regs = record regs { eax = 5; ebx = name }

unfoldable pub std_read : ℕ → ℕ → Frame → Frame
std_read dest max_size regs = record regs { eax = 6; ebx = dest; ecx = max_size }

unfoldable pub std_write : ℕ → Frame → Frame
std_write bytes regs = record regs { eax = 7; ebx = bytes }

unfoldable pub fork : Frame → Frame
fork regs = record regs { eax = 8 }

unfoldable pub exit : Frame → Frame
exit regs = record regs { eax = 9 }

unfoldable pub wait : Frame → Frame
wait regs = record regs { eax = 10 }

unfoldable pub exec : ℕ → ℕ → ℕ → Frame → Frame
exec file argc argv regs = record regs { eax = 11; ebx = file; ecx = argc; edx = argv }

unfoldable pub getsize : ℕ → Frame → Frame
getsize file regs = record regs { eax = 12; ebx = file }

unfoldable pub listdir : ℕ → Frame → Frame
listdir bytes regs = record regs { eax = 13; ebx = bytes }
