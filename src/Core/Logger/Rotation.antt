-- ===== src/Core/Logger/Rotation.antt =====
-- logger.cpp: what a rotation keeps, and how long the file gets.
use dbmesh.Prelude.{
  ℕ, ◌+◌, ◌≤◌, ◌<◌, ◌≡◌, refl, arith, Bool, true, ◌&&◌, List, [], ◌∷◌, ◌++◌, Bytes, ltb, length,
  length-append, ◌∙◌, and-true, ltb→lt,
}
use dbmesh.Core.Logger.{Sink, rotate, write}

-- Every line that is written, one after the other.
unfoldable pub write_all : Sink → List Bytes → Sink
write_all s [] = s
write_all s (line ∷ lines) = write_all (write s line) lines

abbrev pub all_shorter : ℕ → List Bytes → Bool
all_shorter bound [] = true
all_shorter bound (line ∷ lines) = ltb (length line) bound && all_shorter bound lines

-- The stream stands at the file's end, and the file is this long at most.
abbrev pub Bounded : ℕ → Sink → Type 0
Bounded bound s = (s.tellp ≡ length s.file) × (length s.file ≤ s.max_bytes + bound)

pub write-Bounded :
    (bound : ℕ) (s : Sink) (line : Bytes)
    → length line < bound
    → Bounded bound s
    → Bounded bound (write s line) × ((write s line).max_bytes ≡ s.max_bytes)
unfolding write rotate
write-Bounded bound s line short h =
    ground (arith, h.0, length-append s.file (line ++ b'\n' ∷ []), length-append line (b'\n' ∷ []))

-- As long as the lines have fewer than `bound` bytes, a log that starts with an empty file never gets
-- longer than the limit by more than `bound` bytes, however many lines are written.
pub write_all-Bounded :
    (bound : ℕ) (s : Sink) (lines : List Bytes)
    → all_shorter bound lines ≡ true
    → Bounded bound s
    → Bounded bound (write_all s lines) × ((write_all s lines).max_bytes ≡ s.max_bytes)
unfolding write_all
write_all-Bounded bound s [] h b = (b, refl)
write_all-Bounded bound s (line ∷ lines) h b =
    let (short, rest) = and-true (ltb (length line) bound) (all_shorter bound lines) h in
    let one = write-Bounded bound s line (ltb→lt _ _ short) b in
    let ih = write_all-Bounded bound (write s line) lines rest one.0 in (ih.0, ih.1 ∙ one.1)
