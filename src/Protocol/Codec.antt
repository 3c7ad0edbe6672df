-- ===== src/Protocol/Codec.antt =====
-- protocol/mysql/include/dbmesh/protocol/mysql/codec.h. A writer is given by the bytes that it
-- appends; a reader takes the bytes from `*pos` on and returns its value with those left. `v >> 8`
-- is a division, `v & 0xFF` a remainder, and `|` of shifted bytes is their sum.
pub mod RoundTrip
use dbmesh.Prelude.{
  ℕ, suc, zero, ◌+◌, ◌-◌, ◌*◌, ◌/◌, ◌%◌, ◌^◌, Bool, true, false, List, [], ◌∷◌, ◌++◌, Option, none,
  some, Bytes, if◌then◌else◌, ltb, ◌==◌, length, take, drop,
}

-- `n` bytes, the lowest first.
unfoldable pub le_bytes : ℕ → ℕ → Bytes
le_bytes zero v = []
le_bytes (suc n) v = v % 256 ∷ le_bytes n (v / 256)

unfoldable pub of_le : Bytes → ℕ
of_le [] = 0
of_le (b ∷ bs) = b + 256 * of_le bs

abbrev pub write_u8 : ℕ → Bytes
write_u8 v = v % 256 ∷ []

abbrev pub write_u16_le : ℕ → Bytes
write_u16_le = le_bytes 2

abbrev pub write_u24_le : ℕ → Bytes
write_u24_le = le_bytes 3

abbrev pub write_u32_le : ℕ → Bytes
write_u32_le = le_bytes 4

abbrev pub write_null_str : Bytes → Bytes
write_null_str s = s ++ 0 ∷ []

unfoldable pub write_lenenc_int : ℕ → Bytes
write_lenenc_int v =
    if ltb v 251
    then v % 256 ∷ []
    else if ltb v 65536
    then 0xFC ∷ write_u16_le v
    else if ltb v 16777216
    then 0xFD ∷ write_u24_le v
    else 0xFE ∷ le_bytes 8 v

unfoldable pub write_lenenc_str : Bytes → Bytes
unfolding write_lenenc_int
write_lenenc_str s = write_lenenc_int (length s) ++ s

-- The caller has checked that the bytes are there.
abbrev pub read_u16_le : Bytes → ℕ
read_u16_le p = of_le (take 2 p)

abbrev pub read_u24_le : Bytes → ℕ
read_u24_le p = of_le (take 3 p)

abbrev pub read_u32_le : Bytes → ℕ
read_u32_le p = of_le (take 4 p)

-- `n` more bytes of an integer; 0 if they are not there.
abbrev pub read_sized : ℕ → Bytes → ℕ × Bytes
read_sized n p = if ltb (length p) n then (0, p) else (of_le (take n p), drop n p)

unfoldable pub read_lenenc_int : Bytes → ℕ × Bytes
read_lenenc_int [] = (0, [])
read_lenenc_int (first ∷ p) =
    if ltb first 0xFB
    then (first, p)
    else if first == 0xFC
    then read_sized 2 p
    else if first == 0xFD
    then read_sized 3 p
    else read_sized 8 p

unfoldable pub read_null_str : Bytes → Bytes × Bytes
read_null_str [] = ([], [])
read_null_str (c ∷ p) =
    let more = read_null_str p in if c == 0 then ([], p) else (c ∷ more.0, more.1)

-- `read_lenenc_str`: the string with what is left, the empty string when the test refuses, the
-- `std::length_error` of the string's constructor, or bytes from past the end of the packet.
pub data StrRead : Type 0 where
  read : Bytes → Bytes → StrRead
  refused : Bytes → StrRead
  length_error past_end : StrRead

-- `*pos + len > size` is computed in 64 bits.
abbrev pub exceeds : ℕ → ℕ → ℕ → Bool
exceeds pos len size = ltb size ((pos + len) % 2 ^ 64)

-- `max_size` is that of `std::string`: its constructor throws for a greater length.
str_read : ℕ → ℕ → ℕ → Bytes → StrRead
str_read max_size size len p =
    if exceeds (size - length p) len size
    then refused p
    else if ltb max_size len
    then length_error
    else if ltb (length p) len
    then past_end
    else read (take len p) (drop len p)

unfoldable pub read_lenenc_str : ℕ → ℕ → Bytes → StrRead
unfolding str_read
read_lenenc_str max_size size p = let n = read_lenenc_int p in str_read max_size size n.0 n.1
