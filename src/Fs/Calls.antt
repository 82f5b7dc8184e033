-- ===== src/Fs/Calls.antt =====
-- fs/fs.c: the system calls over files take their arguments from the registers of the caller's frame.
-- `string_at` and `bytes_at` are what the caller's memory holds from an address on.
use create_an_os.Prelude.{ℕ, List, Option, Outcome}
use create_an_os.Sys.Frame.{Frame}
use create_an_os.Fs.Disk.{Fs}
use create_an_os.Fs.File.{sys_do_close, sys_do_read, sys_do_write}
use create_an_os.Fs.Directory.{sys_do_unlink, sys_do_getsize}
use create_an_os.Fs.Open.{sys_do_open}

module _ (string_at bytes_at : ℕ → List ℕ) (param : Frame) (fs : Fs) where
  unfoldable pub sys_open : Outcome (ℕ × Fs)
  sys_open = sys_do_open (string_at param.ebx) param.ecx fs

  unfoldable pub sys_close : Outcome (ℕ × Fs)
  sys_close = sys_do_close param.ebx fs

  unfoldable pub sys_write : Outcome (ℕ × Fs)
  sys_write = sys_do_write param.ebx (bytes_at param.ecx) param.edx fs

  -- What goes to `dest` is what the call gives.
  unfoldable pub sys_read : Outcome (Option (List ℕ))
  sys_read = sys_do_read param.ebx param.edx fs

  unfoldable pub sys_unlink : Outcome (ℕ × Fs)
  sys_unlink = sys_do_unlink (string_at param.ebx) fs

  unfoldable pub sys_getsize : Outcome ℕ
  sys_getsize = sys_do_getsize (string_at param.ebx) fs
