-- ===== src/Fs/Ata.antt =====
-- fs/fs.c: the ports of the ATA disk. A command is the bytes that are written to the ports, in order;
-- what the drive answers, its status bytes and its data, are arguments: 16-bit words, of which `insw`
-- makes bytes. `hang` is a drive that stays busy.
pub mod Command
use create_an_os.Prelude.{
  ℕ, ◌+◌, ◌*◌, ◌/◌, ◌%◌, ◌^◌, bit_and, bit_or, List, [], ◌∷◌, ◌==◌, if◌then◌else◌, Outcome, ok,
  hang, ◌>>=◌, read,
}

-- The writes of `read_sector` (command 0x20) and of `write_sector` (0x30).
unfoldable pub ata_command : ℕ → ℕ → List (ℕ × ℕ)
ata_command lba command =
    (0x1f6, bit_or 0xe0 (bit_and (lba / 2 ^ 24) 0xf))
    ∷ (0x1f2, 1)
    ∷ (0x1f3, lba % 2 ^ 8)
    ∷ (0x1f4, lba / 2 ^ 8 % 2 ^ 8)
    ∷ (0x1f5, lba / 2 ^ 16 % 2 ^ 8)
    ∷ (0x1f7, command)
    ∷ []

-- `while(inb(0x1F7) & 0x80);` with the status bytes that the drive has; the rest of them comes back.
unfoldable pub wait_ready : List ℕ → Outcome (List ℕ)
wait_ready [] = hang
wait_ready (status ∷ statuses) =
    let again = wait_ready statuses in if bit_and status 0x80 == 0 then ok statuses else again

-- `insw` and `outsw`: a word holds two bytes, the lower one first.
unfoldable pub words_to_bytes : List ℕ → List ℕ
words_to_bytes [] = []
words_to_bytes (w ∷ words) = (w % 2 ^ 8) ∷ (w / 2 ^ 8 % 2 ^ 8) ∷ words_to_bytes words

unfoldable pub bytes_to_words : List ℕ → List ℕ
bytes_to_words (a ∷ b ∷ bytes) = (a + b * 2 ^ 8) ∷ bytes_to_words bytes
bytes_to_words _ = []

-- What the drive has for a command: a sector's words, or its description.
unfoldable pub read_sector : List ℕ → List ℕ → Outcome (List ℕ)
read_sector statuses words = wait_ready statuses >>= λ _. ok (words_to_bytes words)

-- `get_sectors`: one more status byte is looked at; a drive that answers 0 is not there.
unfoldable pub get_sectors : List ℕ → List ℕ → Outcome ℕ
get_sectors statuses words = wait_ready statuses >>= λ rest. read rest 0 >>= λ status.
    let counted : Outcome ℕ =
      read words 60 >>= λ low. read words 61 >>= λ high. ok (bit_or low (high * 2 ^ 16)) in
    if status == 0 then hang else counted
