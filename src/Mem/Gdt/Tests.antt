-- ===== src/Mem/Gdt/Tests.antt =====
-- Descriptors at concrete addresses.
use create_an_os.Prelude.{ℕ, ◌≡◌, ◌≢◌, refl, arith, List, replicate, ok, read}
use create_an_os.Mem.Gdt.{
  GdtEntry, Segmentation, zero_entry, zero_tss, entry_for, set_gdt_entry, set_tss,
}
use create_an_os.Mem.Gdt.Segments.{segment_of, set_gdt_entry-segment_of}

abbrev fresh : Segmentation
fresh = record {
  gdt = replicate 8 zero_entry;
  gdt_ptr = record { limit = 0; base = 0 };
  tss = zero_tss;
  task_register = 0;
}

user_data_entry : (entry_for 0 0xbffff 0xc0f2).attributes ≡ 0xcbf2
unfolding entry_for
user_data_entry = refl

stack_set : (set_tss 0xc0501000 fresh).tss.esp0 ≡ 0xc0501000
unfolding set_tss
stack_set = refl

set_gdt_entry-segment_of_example :
    (gdt' : List GdtEntry) × (entry : GdtEntry) × (set_gdt_entry 5 0xc0412345 103 0x4089 fresh.gdt
      ≡ ok gdt')
    × (read gdt' 5 ≡ ok entry)
    × (segment_of entry ≡ record { base = 0xc0412345; limit = 103; flags = 0x4089 })
    × ((j : ℕ) → 5 ≢ j → read gdt' j ≡ read fresh.gdt j)
set_gdt_entry-segment_of_example =
    set_gdt_entry-segment_of 5 0xc0412345 103 0x4089 fresh.gdt (omega arith) (omega arith)
      (omega arith) (omega arith) (omega arith)
