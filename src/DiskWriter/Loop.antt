-- ===== src/DiskWriter/Loop.antt =====
-- What the loop writes, and when it ends.
use local_drive.Base.{
  ℕ, zero, suc, ◌+◌, ◌-◌, ◌≤◌, ◌<◌, ◌≡◌, refl, ◌∙◌, true, none, List, ◌++◌, length, length-take,
  length-drop, take_all, take, drop, ltb, ltb→lt, ltb-false, lt→ltb, le→ltb, min, append_assoc,
  if◌then◌else◌, arith, Bool-cases, inl, inr,
}
use local_drive.DiskWriter.Slices.{drop-drop, take-take-drop, take_append, drop_append}
use local_drive.DiskWriter.{Disk, written, out_of_fuel, write_at, slice, write_loop, write_to_disk}

-- The file after the first `c` bytes of `content` were written over `old`.
abbrev mixed : List ℕ → List ℕ → ℕ → List ℕ
mixed content old c = take c content ++ drop c old

-- One more piece of the content, written where the last one ended.
write_at-mixed :
    (content old : List ℕ) (c high : ℕ)
    → c ≤ high
    → high ≤ length content
    → write_at (mixed content old c) c (slice content c high) ≡ mixed content old high
unfolding write_at slice
write_at-mixed content old c high h k =
    let n = length (slice content c high) in
    rw
      (
        take_append c (take c content) (drop c old) (length-take c content (omega arith)),
        drop_append c n (c + n) (take c content) (drop c old) (length-take c content (omega arith))
            refl,
        drop-drop c n high old (omega (arith, ln)),
        ← append_assoc (take c content) (take (high - c) (drop c content)) (drop high old),
        take-take-drop c (high - c) high content (omega arith),
      )
      refl
  where
    ln : length (slice content c high) ≡ high - c
    ln =
        unfold slice in
        length-take (high - c) (drop c content) (omega (arith, length-drop c content))

length-slice :
    (content : List ℕ) (c high : ℕ)
    → high ≤ length content
    → length (slice content c high) ≡ high - c
unfolding slice
length-slice content c high h =
    length-take (high - c) (drop c content) (omega (arith, length-drop c content))

-- The end of the next piece.
abbrev clipped : List ℕ → ℕ → ℕ
clipped content chunk = if ltb (length content) chunk then length content else chunk

module _ (disk : Disk) (size : ℕ) (content old : List ℕ)
    (all_written : (k : ℕ) → disk.partial k ≡ none) where
  -- One round below the end of the content.
  write_loop-step :
      (fuel k c chunk : ℕ)
      → c < length content
      → c ≤ chunk
      → write_loop disk size content (suc fuel) k c chunk (mixed content old c)
        ≡ write_loop disk size content fuel
            (k + 1)
            (clipped content chunk)
            (clipped content chunk + size)
            (mixed content old (clipped content chunk))
  unfolding write_loop
  write_loop-step fuel k c chunk h b =
      let high = clipped content chunk in
      rw
        (
          lt→ltb c (length content) h,
          le→ltb high c (ground arith),
          all_written k,
          write_at-mixed content old c high (ground arith) (ground arith),
          length-slice content c high (ground arith),
          sum high (ground arith),
        )
        refl
    where
      sum : (high : ℕ) → c ≤ high → c + (high - c) ≡ high
      sum high le = omega arith

  write_loop_end :
      (fuel k chunk : ℕ)
      → write_loop disk size content
          (suc fuel)
          k
          (length content)
          chunk
          (mixed content old (length content))
        ≡ (written, mixed content old (length content))
  unfolding write_loop
  write_loop_end fuel k chunk = rw (le→ltb (length content) (length content) (omega arith)) refl

  write_loop-written :
      (fuel k c chunk : ℕ)
      → length content - c < fuel
      → c ≤ length content
      → (c < length content → c < chunk)
      → 0 < size
      → write_loop disk size content fuel k c chunk (mixed content old c)
        ≡ (written, mixed content old (length content))
  write_loop-written zero k c chunk f h b p = absurd (omega arith)
  write_loop-written (suc fuel) k c chunk f h b p = elim (Bool-cases (ltb c (length content))) [
    | inl more ↦
        let lt = ltb→lt c (length content) more in
        let high = clipped content chunk in
        write_loop-step fuel k c chunk lt (omega (arith, b lt))
        ∙ write_loop-written fuel (k + 1) high (high + size) (ground (arith, b lt)) (ground arith)
            (λ _. omega arith) p
    | inr done ↦
        let all : c ≡ length content = omega (arith, ltb-false c (length content) done) in
        rw all (write_loop_end fuel k chunk)
  ]

-- With a positive chunk size and an operating system that does what it is asked, content that is
-- not empty is written, given more fuel than it has bytes: the file then holds the content and,
-- behind it, what it held there before.
pub write_to_disk-written :
    (disk : Disk) (size : ℕ) (content old : List ℕ) (fuel : ℕ)
    → disk.mkdir_ok ≡ true
    → disk.open_ok ≡ true
    → disk.stat_ok ≡ true
    → ((k : ℕ) → disk.partial k ≡ none)
    → 0 < size
    → 0 < length content
    → length content < fuel
    → write_to_disk disk size content fuel old ≡ (written, content ++ drop (length content) old)
unfolding write_to_disk write_loop
write_to_disk-written disk size content old fuel m o s w p n f =
    rw
      (
        lt→ltb 0 (length content) n,
        m,
        o,
        write_loop-written disk size content old w fuel 0 0 (min (length content) size)
            (omega arith) (omega arith) (λ _. omega arith) p,
        s,
        take_all (length content) content (omega arith),
      )
      refl

write_loop_stuck :
    (disk : Disk) (content old : List ℕ) (fuel k : ℕ)
    → ((k : ℕ) → disk.partial k ≡ none)
    → 0 < length content
    → write_loop disk 0 content fuel k 0 0 old ≡ (out_of_fuel, old)
unfolding write_loop write_at slice
write_loop_stuck disk content old zero k w h = refl
write_loop_stuck disk content old (suc fuel) k w h =
    rw (lt→ltb 0 (length content) h, w k, le→ltb (length content) 0 (omega arith))
      (write_loop_stuck disk content old fuel (k + 1) w h)

-- With a chunk size of 0, content that is not empty is never written: whatever the fuel, it runs
-- out in the loop and the file is as it was.
pub write_to_disk_stuck :
    (disk : Disk) (content old : List ℕ) (fuel : ℕ)
    → disk.mkdir_ok ≡ true
    → disk.open_ok ≡ true
    → ((k : ℕ) → disk.partial k ≡ none)
    → 0 < length content
    → write_to_disk disk 0 content fuel old ≡ (out_of_fuel, old)
unfolding write_to_disk write_loop
write_to_disk_stuck disk content old fuel m o w n = simp (
  lt→ltb 0 (length content) n,
  m,
  o,
  min-zero (length content),
  write_loop_stuck disk content old fuel 0 w n,
)
  where
    min-zero : (n : ℕ) → min n 0 ≡ 0
    min-zero n = omega arith
