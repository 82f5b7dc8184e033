-- ===== src/Sys/Selectors.antt =====
-- common/common.h: the segment selectors. The lowest two bits are a privilege level, the index into
-- the descriptor table stands above bit 2.
use create_an_os.Prelude.{ℕ, bit_or}

abbrev pub selector_kernel_code : ℕ
selector_kernel_code = bit_or 0x8 0b000

abbrev pub selector_kernel_data : ℕ
selector_kernel_data = bit_or 0x10 0b000

abbrev pub selector_user_code : ℕ
selector_user_code = bit_or 0x18 0b011

abbrev pub selector_user_data : ℕ
selector_user_data = bit_or 0x20 0b011

abbrev pub selector_tss : ℕ
selector_tss = bit_or 0x28 0b000
