-- ===== src/DiskWriter.antt =====
-- WriteToDisk and Exists of src/diskreadwriter/diskreadwriter.go. The chunk size is taken not to be negative,
-- and the sizes stay far below the range of int.
pub mod Slices
pub mod Loop
mod Tests
use local_drive.Base.{
  ℕ, zero, suc, ◌+◌, ◌-◌, ◌<◌, Bool, true, false, Option, none, some, List, [], ◌∷◌, ◌++◌, length,
  take, drop, ltb, min, if◌then◌else◌,
}

pub data Outcome : Type 0 where
  written empty_data folders_failed open_failed write_failed stat_failed : Outcome
  -- a slice out of range; the fuel of the model ran out
  panicked out_of_fuel : Outcome

-- How the operating system answers. `partial k` is the k-th Write: `none` where it writes all that it
-- is given, otherwise an error after so many bytes.
pub record Disk : Type 0 where
  pub mkdir_ok : Bool
  pub open_ok : Bool
  pub stat_ok : Bool
  pub partial : ℕ → Option ℕ

-- What os.Stat gives for a path: an error, or the file's information, which may be nil.
pub data Stat : Type 0 where
  stat_error no_info info : Stat

-- Exists, with whether it returns the error.
unfoldable pub exists : Stat → Bool × Bool
exists stat_error = (false, true)
exists no_info = (false, false)
exists info = (true, false)

-- The bytes of a file after a write at an offset within it.
unfoldable pub write_at : List ℕ → ℕ → List ℕ → List ℕ
write_at file offset bytes = take offset file ++ (bytes ++ drop (offset + length bytes) file)

-- list[low:high]
unfoldable pub slice : List ℕ → ℕ → ℕ → List ℕ
slice list low high = take (high - low) (drop low list)

module _ (disk : Disk) (chunk_size : ℕ) (content : List ℕ) where
  -- `for currSize < dataLen`, in the k-th round, with the file as it stands.
  unfoldable pub write_loop : ℕ → ℕ → ℕ → ℕ → List ℕ → Outcome × List ℕ
  write_loop zero k curr_size chunk file = (out_of_fuel, file)
  write_loop (suc fuel) k curr_size chunk file =
      let high = if ltb (length content) chunk then length content else chunk in
      let bytes = slice content curr_size high in
      let rest =
        write_loop fuel (k + 1) (curr_size + length bytes) (high + chunk_size)
          (write_at file curr_size bytes) in
      let wrote : Outcome × List ℕ = elim (disk.partial k) [
        | none ↦ rest
        | some n ↦ (write_failed, write_at file curr_size (take n bytes))
      ] in
      if ltb curr_size (length content)
      then if ltb high curr_size then (panicked, file) else wrote
      else (written, file)

  checked : Outcome × List ℕ → Outcome × List ℕ
  checked (written, file) = (if disk.stat_ok then written else stat_failed, file)
  checked (o, file) = (o, file)

  -- Without O_TRUNC the file is opened as it stands; a file that is not there is made empty.
  unfoldable pub write_to_disk : ℕ → List ℕ → Outcome × List ℕ
  unfolding checked
  write_to_disk fuel old =
      if ltb 0 (length content)
      then if disk.mkdir_ok
        then if disk.open_ok
          then checked (write_loop fuel 0 0 (min (length content) chunk_size) old)
          else (open_failed, old)
        else (folders_failed, old)
      else (empty_data, old)
