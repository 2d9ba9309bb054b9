-- ===== src/Tests/Logging.antt =====
-- A log of at most eight bytes with two backups.
use rfmpd.Base.{
  Bytes, arith, false, length, none, refl, some, suc, take, true, zero, ℕ, ◌++◌, ◌<◌, ◌≡◌, ◌≤◌,
}
use rfmpd.Text.{text}
use rfmpd.Log.{Files, Moves, content_of, RotatingWriter, is_full, ready, write}
use rfmpd.Log.Rotation.{InOrder, held}
use rfmpd.Log.Writing.{IsLoss, write-held}
use rfmpd.Log.Limits.{IsWithin, write-IsWithin}

abbrev logs : Files
logs zero = some (text "seventh")
logs (suc zero) = some (text "sixth")
logs (suc (suc zero)) = some (text "fifth")
logs (suc (suc (suc j))) = none

abbrev writer : RotatingWriter
writer = record { max_size = 8; backup_count = 2; opened = true; size = 7; files = logs }

writer-IsWithin : IsWithin writer
writer-IsWithin = record { small = small; few = few; sized = λ h. refl }
  where
    small : (j : ℕ) → length (content_of (logs j)) ≤ 8
    small zero = omega arith
    small (suc zero) = omega arith
    small (suc (suc zero)) = omega arith
    small (suc (suc (suc j))) = omega arith

    few : (j : ℕ) → 2 < j → logs j ≡ none
    few zero h = absurd (omega arith)
    few (suc zero) h = absurd (omega arith)
    few (suc (suc zero)) h = absurd (omega arith)
    few (suc (suc (suc j))) h = refl

-- The log itself has to stay.
abbrev older : Moves
older zero = false
older (suc i) = true

older-InOrder : InOrder older 2
older-InOrder i h e = refl

-- Every backup has to stay.
abbrev newest : Moves
newest zero = true
newest (suc i) = false

write-held_example :
    (lost : Bytes) × (lost ++ held (write older true 6 (text "eighth") writer).0
      ≡ held writer ++ take (write older true 6 (text "eighth") writer).1 (text "eighth"))
    × IsLoss lost (is_full (text "eighth") (ready true writer)) writer
write-held_example = write-held older true 6 (text "eighth") writer older-InOrder

write-IsWithin_example : IsWithin (write newest true 6 (text "eighth") writer).0
write-IsWithin_example =
    write-IsWithin newest true 6 (text "eighth") writer refl (omega arith) (omega arith)
      writer-IsWithin
