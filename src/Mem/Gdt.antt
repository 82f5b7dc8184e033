-- ===== src/Mem/Gdt.antt =====
-- mem/gdt.c: segment descriptors and the task state. The addresses of the tables are given by the
-- linker and are parameters; what `lgdt` and `ltr` load are fields. The segment registers, which
-- `reload_gdt` loads with the kernel's data selector, are not modelled.
pub mod Segments
mod Tests
use create_an_os.Prelude.{
  ℕ, zero, suc, ◌-◌, ◌*◌, ◌/◌, ◌%◌, ◌^◌, bit_and, bit_or, List, replicate, Outcome, ok, ◌>>=◌,
  write,
}
use create_an_os.Sys.Selectors.{selector_kernel_data, selector_tss}

pub record GdtEntry : Type 0 where
  pub limit_low : ℕ
  pub base_low : ℕ
  pub base_middle : ℕ
  pub attributes : ℕ
  pub base_high : ℕ

pub record GdtPtr : Type 0 where
  pub limit : ℕ
  pub base : ℕ

-- `struct TSS`: `registers` are the words between `cr3` and `trap`.
pub record Tss : Type 0 where
  pub link : ℕ
  pub esp0 : ℕ
  pub ss0 : ℕ
  pub esp1 : ℕ
  pub ss1 : ℕ
  pub esp2 : ℕ
  pub ss2 : ℕ
  pub cr3 : ℕ
  pub registers : List ℕ
  pub trap : ℕ
  pub iomap_base : ℕ

-- `sizeof(tss)`: eight words, seventeen registers and two halves of a word.
abbrev pub tss_size : ℕ
tss_size = 26 * 4

-- The tables, and the registers of the processor that name them.
pub record Segmentation : Type 0 where
  pub gdt : List GdtEntry
  pub gdt_ptr : GdtPtr
  pub tss : Tss
  pub task_register : ℕ

abbrev pub zero_entry : GdtEntry
zero_entry = record { limit_low = 0; base_low = 0; base_middle = 0; attributes = 0; base_high = 0 }

abbrev pub zero_tss : Tss
zero_tss = record {
  link = 0;
  esp0 = 0;
  ss0 = 0;
  esp1 = 0;
  ss1 = 0;
  esp2 = 0;
  ss2 = 0;
  cr3 = 0;
  registers = replicate 17 0;
  trap = 0;
  iomap_base = 0;
}

-- The fields are of 8 and 16 bits.
unfoldable pub entry_for : ℕ → ℕ → ℕ → GdtEntry
entry_for base limit attributes = record {
  limit_low = bit_and limit 0xffff;
  base_low = bit_and base 0xffff;
  base_middle = bit_and (base / 2 ^ 16) 0xff;
  attributes = bit_or attributes (limit / 2 ^ 16 * 2 ^ 8) % 2 ^ 16;
  base_high = base / 2 ^ 24 % 2 ^ 8;
}

unfoldable pub set_gdt_entry : ℕ → ℕ → ℕ → ℕ → List GdtEntry → Outcome (List GdtEntry)
set_gdt_entry num base limit attributes gdt = write gdt num (entry_for base limit attributes)

unfoldable pub init_tss : ℕ → Segmentation → Outcome Segmentation
init_tss tss_addr s = do
  gdt ← set_gdt_entry 5 tss_addr (tss_size - 1) 0b0100000010001001 s.gdt
  ok (record s {
    gdt = gdt;
    tss = record zero_tss { ss0 = selector_kernel_data; iomap_base = 0xffff };
    task_register = selector_tss;
  })

unfoldable pub reload_gdt : ℕ → ℕ → Segmentation → Outcome Segmentation
reload_gdt gdt_addr tss_addr s = do
  gdt ← set_gdt_entry 0 0 0 0 (replicate 8 zero_entry)
  gdt ← set_gdt_entry 1 0 0xfffff 0b1100000010011000 gdt
  gdt ← set_gdt_entry 2 0 0xfffff 0b1100000010010010 gdt
  gdt ← set_gdt_entry 3 0 0xbffff 0b1100000011111000 gdt
  gdt ← set_gdt_entry 4 0 0xbffff 0b1100000011110010 gdt
  init_tss tss_addr
      (record s { gdt = gdt; gdt_ptr = record { limit = 8 * 8 - 1; base = gdt_addr } })

unfoldable pub set_tss : ℕ → Segmentation → Segmentation
set_tss esp0 s = record s { tss = record s.tss { esp0 = esp0 } }
