-- ===== src/Fs/Ata/Command.antt =====
-- The sector that a command names, and the data of a transfer.
use create_an_os.Prelude.{
  ℕ, ◌+◌, ◌*◌, ◌/◌, ◌%◌, ◌^◌, ◌<◌, ◌≡◌, refl, ap₂, arith, bit_and, bit_or, List, [], ◌∷◌, ◌==◌,
  if◌then◌else◌,
}
use create_an_os.Prelude.Bits.{bit_and_mask, bit_or-shifted}
use create_an_os.Fs.Ata.{ata_command, words_to_bytes, bytes_to_words}

-- What a port was written last, 0 if it was not.
abbrev pub port : ℕ → List (ℕ × ℕ) → ℕ → ℕ
port p [] old = old
port p ((q, value) ∷ writes) old = port p writes (if q == p then value else old)

-- The 28 bits of the address, as the drive takes them from its registers.
abbrev pub addressed : List (ℕ × ℕ) → ℕ
addressed writes =
    port 0x1f3 writes 0
    + port 0x1f4 writes 0 * 2 ^ 8
    + port 0x1f5 writes 0 * 2 ^ 16
    + port 0x1f6 writes 0 % 2 ^ 4 * 2 ^ 24

-- A command for sector `lba` names that sector by its lowest 28 bits, in the mode that counts
-- sectors, and asks for one sector.
pub addressed-ata_command :
    (lba command : ℕ)
    → (addressed (ata_command lba command) ≡ lba % 2 ^ 28)
      × (port 0x1f6 (ata_command lba command) 0 / 2 ^ 4 ≡ 0xe)
      × (port 0x1f2 (ata_command lba command) 0 ≡ 1)
      × (port 0x1f7 (ata_command lba command) 0 ≡ command)
unfolding ata_command
addressed-ata_command lba command =
    let drive : bit_or 0xe0 (bit_and (lba / 2 ^ 24) 0xf) ≡ 0xe0 + lba / 2 ^ 24 % 2 ^ 4 =
      rw (bit_and_mask 4 (lba / 2 ^ 24))
        (bit_or-shifted 4 0xe (lba / 2 ^ 24 % 2 ^ 4) (omega arith)) in
    rw drive (omega arith, omega arith, refl, refl)

-- Pairs of bytes.
abbrev pub ArePairs : List ℕ → Type 0
ArePairs [] = Unit {0}
ArePairs (a ∷ []) = ⊥
ArePairs (a ∷ b ∷ bytes) = (a < 2 ^ 8) × (b < 2 ^ 8) × ArePairs bytes

-- The words that are written to the drive for a sector of bytes come back as these bytes.
pub words_to_bytes-bytes_to_words :
    (bytes : List ℕ) → ArePairs bytes → words_to_bytes (bytes_to_words bytes) ≡ bytes
unfolding words_to_bytes bytes_to_words
words_to_bytes-bytes_to_words [] v = refl
words_to_bytes-bytes_to_words (a ∷ []) v = absurd v
words_to_bytes-bytes_to_words (a ∷ b ∷ bytes) v =
    ap₂ ◌∷◌ (omega (arith, v.0, v.1))
      (ap₂ ◌∷◌ (omega (arith, v.0, v.1)) (words_to_bytes-bytes_to_words bytes v.2))
