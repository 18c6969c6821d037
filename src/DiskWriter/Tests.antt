-- ===== src/DiskWriter/Tests.antt =====
-- Witnesses of the writing of a file, on an operating system that does what it is asked.
use local_drive.Base.{ℕ, ◌≡◌, refl, true, none, List, [], ◌∷◌, ◌++◌, length, drop, arith}
use local_drive.DiskWriter.{Disk, written, out_of_fuel, write_to_disk}
use local_drive.DiskWriter.Loop.{write_to_disk-written, write_to_disk_stuck}

abbrev working : Disk
working = record { mkdir_ok = true; open_ok = true; stat_ok = true; partial = λ k. none }

abbrev content : List ℕ
content = 72 ∷ 101 ∷ 121 ∷ []

-- The file is longer than its new content.
abbrev old : List ℕ
old = 1 ∷ 2 ∷ 3 ∷ 4 ∷ 5 ∷ []

write_to_disk-written_example :
    write_to_disk working 2 content 4 old ≡ (written, content ++ drop (length content) old)
write_to_disk-written_example =
    write_to_disk-written working 2 content old 4 refl refl refl (λ k. refl) (omega arith)
      (omega arith) (omega arith)

write_to_disk_stuck_example : write_to_disk working 0 content 100 old ≡ (out_of_fuel, old)
write_to_disk_stuck_example =
    write_to_disk_stuck working content old 100 refl refl (λ k. refl) (omega arith)
