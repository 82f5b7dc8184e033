-- ===== src/Sys/Frame.antt =====
-- sys/int.h, `struct interrupt_stack_frame`: the registers of an interrupted process, as the
-- kernel's handlers and system calls find them.
use create_an_os.Prelude.{ℕ, ◌*◌}

pub record Frame : Type 0 where
  pub gs : ℕ
  pub fs : ℕ
  pub es : ℕ
  pub ds : ℕ
  pub edi : ℕ
  pub esi : ℕ
  pub ebp : ℕ
  pub esp_saved : ℕ
  pub ebx : ℕ
  pub edx : ℕ
  pub ecx : ℕ
  pub eax : ℕ
  pub num : ℕ
  pub err_code : ℕ
  pub eip : ℕ
  pub cs : ℕ
  pub eflags : ℕ
  pub esp : ℕ
  pub ss : ℕ

-- `sizeof(isr_param_t)`: nineteen words.
abbrev pub frame_size : ℕ
frame_size = 19 * 4

abbrev pub zero_frame : Frame
zero_frame = record {
  gs = 0;
  fs = 0;
  es = 0;
  ds = 0;
  edi = 0;
  esi = 0;
  ebp = 0;
  esp_saved = 0;
  ebx = 0;
  edx = 0;
  ecx = 0;
  eax = 0;
  num = 0;
  err_code = 0;
  eip = 0;
  cs = 0;
  eflags = 0;
  esp = 0;
  ss = 0;
}
