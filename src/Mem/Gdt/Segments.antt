-- ===== src/Mem/Gdt/Segments.antt =====
-- A descriptor as the processor reads it: base, limit and flags come back from their pieces.
use create_an_os.Prelude.{
  ℕ, ◌+◌, ◌-◌, ◌*◌, ◌/◌, ◌%◌, ◌^◌, ◌<◌, ◌≡◌, ◌≢◌, refl, ap, ◌∙◌, bit_or, arith, List, [], ◌∷◌,
  length, set, ok, read, write, write-ok, read-set_self, read-set_ne,
}
use create_an_os.Prelude.Bits.{bit_and_mask, bit_or-shifted, bit_or-above}
use create_an_os.Mem.Gdt.{
  GdtEntry, Segmentation, tss_size, zero_entry, zero_tss, entry_for, set_gdt_entry, init_tss,
  reload_gdt,
}
use create_an_os.Sys.Selectors.{
  selector_kernel_code, selector_kernel_data, selector_user_code, selector_user_data, selector_tss,
}

-- `flags` are the attributes without the four bits of the limit among them.
pub record Segment : Type 0 where
  pub base : ℕ
  pub limit : ℕ
  pub flags : ℕ

abbrev pub segment_of : GdtEntry → Segment
segment_of entry = record {
  base = entry.base_low + entry.base_middle * 2 ^ 16 + entry.base_high * 2 ^ 24;
  limit = entry.limit_low + entry.attributes / 2 ^ 8 % 2 ^ 4 * 2 ^ 16;
  flags = entry.attributes / 2 ^ 12 * 2 ^ 12 + entry.attributes % 2 ^ 8;
}

-- The high bits of a limit fit between those of the attributes.
attributes_lem :
    (attributes high : ℕ)
    → attributes / 2 ^ 8 % 2 ^ 4 ≡ 0
    → high < 2 ^ 4
    → bit_or attributes (high * 2 ^ 8) ≡ attributes + high * 2 ^ 8
attributes_lem attributes high gap h =
    let split : attributes ≡ attributes / 2 ^ 12 * 2 ^ 4 * 2 ^ 8 + attributes % 2 ^ 8 =
      omega arith in
    ap (λ a. bit_or a (high * 2 ^ 8)) split
    ∙ bit_or-above 8 (attributes / 2 ^ 12 * 2 ^ 4) high (attributes % 2 ^ 8) (omega arith)
    ∙ omega (arith, bit_or-shifted 4 (attributes / 2 ^ 12) high h)

Segment-ext :
    {b b' l l' f f' : ℕ}
    → b ≡ b'
    → l ≡ l'
    → f ≡ f'
    → Path Segment
        (record { base = b; limit = l; flags = f })
        (record { base = b'; limit = l'; flags = f' })
Segment-ext eb el ef = λ i. record { base = eb i; limit = el i; flags = ef i }

-- Taking a descriptor apart again gives what it was made from.
segment_of-entry_for :
    (base limit attributes : ℕ)
    → base < 2 ^ 32
    → limit < 2 ^ 20
    → attributes < 2 ^ 16
    → attributes / 2 ^ 8 % 2 ^ 4 ≡ 0
    → segment_of (entry_for base limit attributes)
      ≡ record { base = base; limit = limit; flags = attributes }
unfolding entry_for
segment_of-entry_for base limit attributes b l a gap =
    let joined : (attributes + limit / 2 ^ 16 * 2 ^ 8) % 2 ^ 16
        ≡ attributes + limit / 2 ^ 16 * 2 ^ 8 =
      omega arith in
    rw
      (
        bit_and_mask 16 limit,
        bit_and_mask 16 base,
        bit_and_mask 8 (base / 2 ^ 16),
        attributes_lem attributes (limit / 2 ^ 16) gap (omega arith),
        joined,
      )
      (Segment-ext (omega arith) (omega arith) (omega arith))

-- A descriptor of a base of 32 bits, a limit of 20 and attributes that leave the place of the
-- limit's high bits clear is written to its entry, from which the processor reads the same base,
-- limit and attributes; no other entry changes.
pub set_gdt_entry-segment_of :
    (num base limit attributes : ℕ) (gdt : List GdtEntry)
    → num < length gdt
    → base < 2 ^ 32
    → limit < 2 ^ 20
    → attributes < 2 ^ 16
    → attributes / 2 ^ 8 % 2 ^ 4 ≡ 0
    → (gdt' : List GdtEntry) × (entry : GdtEntry) × (set_gdt_entry num base limit attributes gdt
        ≡ ok gdt')
      × (read gdt' num ≡ ok entry)
      × (segment_of entry ≡ record { base = base; limit = limit; flags = attributes })
      × ((j : ℕ) → num ≢ j → read gdt' j ≡ read gdt j)
unfolding set_gdt_entry
set_gdt_entry-segment_of num base limit attributes gdt inside b l a gap = (
  set gdt num (entry_for base limit attributes),
  entry_for base limit attributes,
  write-ok gdt num (entry_for base limit attributes) inside,
  read-set_self gdt num (entry_for base limit attributes) inside,
  segment_of-entry_for base limit attributes b l a gap,
  λ j ne. read-set_ne gdt num j (entry_for base limit attributes) ne,
)

-- The privilege level of a descriptor.
abbrev pub privilege : GdtEntry → ℕ
privilege entry = entry.attributes / 2 ^ 5 % 4

-- A selector leads to a descriptor of a segment, on the selector's own privilege level.
pub record Selects (s : Segmentation) (selector : ℕ) (segment : Segment) : Type 0 where
  pub entry : GdtEntry
  pub found : read s.gdt (selector / 8) ≡ ok entry
  pub decoded : segment_of entry ≡ segment
  pub level : privilege entry ≡ selector % 4

-- The segments that the kernel runs on. Limits count pages, but for the task state's.
pub record IsFlat (tss_addr : ℕ) (s : Segmentation) : Type 0 where
  pub kernel_code :
      Selects s selector_kernel_code (record { base = 0; limit = 0xfffff; flags = 0xc098 })
  pub kernel_data :
      Selects s selector_kernel_data (record { base = 0; limit = 0xfffff; flags = 0xc092 })
  pub user_code :
      Selects s selector_user_code (record { base = 0; limit = 0xbffff; flags = 0xc0f8 })
  pub user_data :
      Selects s selector_user_data (record { base = 0; limit = 0xbffff; flags = 0xc0f2 })
  pub task :
      Selects s selector_tss (record { base = tss_addr; limit = tss_size - 1; flags = 0x4089 })
  pub stack_segment : s.tss.ss0 ≡ selector_kernel_data
  pub loaded : s.task_register ≡ selector_tss

-- What setting up leaves behind.
abbrev reloaded : ℕ → ℕ → Segmentation
reloaded gdt_addr tss_addr = record {
  gdt =
      entry_for 0 0 0
      ∷ entry_for 0 0xfffff 0b1100000010011000
      ∷ entry_for 0 0xfffff 0b1100000010010010
      ∷ entry_for 0 0xbffff 0b1100000011111000
      ∷ entry_for 0 0xbffff 0b1100000011110010
      ∷ entry_for tss_addr (tss_size - 1) 0b0100000010001001
      ∷ zero_entry
      ∷ zero_entry
      ∷ [];
  gdt_ptr = record { limit = 8 * 8 - 1; base = gdt_addr };
  tss = record zero_tss { ss0 = selector_kernel_data; iomap_base = 0xffff };
  task_register = selector_tss;
}

-- Wherever the task state lies in the 32-bit address space, setting up the descriptor table
-- returns; each of the kernel's selectors then leads to its segment, on its own privilege level:
-- flat code and data for the kernel, code and data below 0xc0000000 for user programs, and the
-- task state at its address, with the kernel's stack segment in it.
pub reload_gdt-IsFlat :
    (gdt_addr tss_addr : ℕ) (s : Segmentation)
    → tss_addr < 2 ^ 32
    → (s' : Segmentation) × (reload_gdt gdt_addr tss_addr s ≡ ok s') × IsFlat tss_addr s'
unfolding reload_gdt init_tss set_gdt_entry entry_for read write
reload_gdt-IsFlat gdt_addr tss_addr s h = (
  reloaded gdt_addr tss_addr,
  refl,
  record {
    kernel_code = record {
      entry = entry_for 0 0xfffff 0xc098;
      found = refl;
      decoded = refl;
      level = refl;
    };
    kernel_data = record {
      entry = entry_for 0 0xfffff 0xc092;
      found = refl;
      decoded = refl;
      level = refl;
    };
    user_code = record {
      entry = entry_for 0 0xbffff 0xc0f8;
      found = refl;
      decoded = refl;
      level = refl;
    };
    user_data = record {
      entry = entry_for 0 0xbffff 0xc0f2;
      found = refl;
      decoded = refl;
      level = refl;
    };
    task = record {
      entry = entry_for tss_addr (tss_size - 1) 0x4089;
      found = refl;
      decoded =
          segment_of-entry_for tss_addr (tss_size - 1) 0x4089 h (omega arith) (omega arith)
            (omega arith);
      level = refl;
    };
    stack_segment = refl;
    loaded = refl;
  },
)
