-- ===== src/Program/Dir/Tests.antt =====
-- The size of a file of 10240 bytes.
use create_an_os.Prelude.{ℕ, ◌-◌, ◌<◌, ◌≡◌, arith, List, ◌++◌, length, replicate, ok}
use create_an_os.Program.Dir.{unit_text, size_text}
use create_an_os.Program.Dir.Decimal.{IsDecimal, size_text-value}

size_text-value_example :
    (digits : List ℕ) × (size_text 10240
      ≡ ok (replicate (18 - length digits) b' ' ++ (digits ++ unit_text)))
    × (0 < length digits)
    × IsDecimal 18 10240 digits
size_text-value_example = size_text-value 10240 (omega arith) (omega arith)
