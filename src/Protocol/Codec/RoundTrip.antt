-- ===== src/Protocol/Codec/RoundTrip.antt =====
-- codec.h: reading what was written.
use native.Mathlib.Nat.{pow-suc}
use dbmesh.Prelude.{
  ℕ, suc, zero, ◌+◌, ◌*◌, ◌/◌, ◌^◌, ◌≤◌, ◌<◌, ◌≡◌, refl, arith, false, [], ◌∷◌, ◌++◌, Bytes, ltb,
  leb, if◌then◌else◌, ltb→lt, Bool-cases, inl, inr, ◌==◌, length, take, drop, length-append,
  take-append, drop-append, ap, sym, ◌∙◌,
}
use dbmesh.Protocol.Codec.{
  le_bytes, of_le, write_lenenc_int, read_sized, read_lenenc_int, read_null_str, str_read,
  read_lenenc_str, read, refused, length_error,
}

pub length-le_bytes : (n v : ℕ) → length (le_bytes n v) ≡ n
unfolding le_bytes
length-le_bytes zero v = refl
length-le_bytes (suc n) v = ap suc (length-le_bytes n (v / 256))

div_bound : (v p : ℕ) → v < p * 256 → v / 256 < p
div_bound v p h = omega arith

pub of_le-le_bytes : (n v : ℕ) → v < 256 ^ n → of_le (le_bytes n v) ≡ v
unfolding of_le le_bytes
of_le-le_bytes zero v h = omega arith
of_le-le_bytes (suc n) v h =
    omega (arith, of_le-le_bytes n (v / 256) (div_bound v (256 ^ n) (omega (arith, pow-suc 256 n))))

module _ (n v : ℕ) (rest : Bytes) where
  pub take-le_bytes : take n (le_bytes n v ++ rest) ≡ le_bytes n v
  take-le_bytes =
      ap (λ k. take k (le_bytes n v ++ rest)) (sym (length-le_bytes n v))
      ∙ take-append (le_bytes n v) rest

  pub drop-le_bytes : drop n (le_bytes n v ++ rest) ≡ rest
  drop-le_bytes =
      ap (λ k. drop k (le_bytes n v ++ rest)) (omega (arith, length-le_bytes n v))
      ∙ drop-append (le_bytes n v) rest 0

  pub read_sized-le_bytes : v < 256 ^ n → read_sized n (le_bytes n v ++ rest) ≡ (v, rest)
  read_sized-le_bytes h = ground (
    arith,
    length-append (le_bytes n v) rest,
    length-le_bytes n v,
    take-le_bytes,
    drop-le_bytes,
    of_le-le_bytes n v h,
  )

-- A length-encoded integer of 64 bits is read back, whatever follows it.
pub read-write_lenenc_int :
    (v : ℕ) (rest : Bytes) → v < 2 ^ 64 → read_lenenc_int (write_lenenc_int v ++ rest) ≡ (v, rest)
unfolding read_lenenc_int write_lenenc_int
read-write_lenenc_int v rest h = elim (Bool-cases (ltb v 251)) [
  | inl one ↦ rw one (ground arith)
  | inr more ↦ elim (Bool-cases (ltb v 65536)) [
    | inl two ↦ rw (more, two) (read_sized-le_bytes 2 v rest (ltb→lt _ _ two))
    | inr big ↦ elim (Bool-cases (ltb v 16777216)) [
      | inl three ↦ rw (more, big, three) (read_sized-le_bytes 3 v rest (ltb→lt _ _ three))
      | inr huge ↦ rw (more, big, huge) (read_sized-le_bytes 8 v rest h)
    ]
  ]
]

-- A length in its longest form, anywhere in a packet below 4 GiB: when position and length do not
-- wrap at 2 ^ 64, `read_lenenc_str` gives the string if the packet has all of it, and refuses
-- otherwise; when they wrap, the test lets the length pass and the string's constructor throws. In
-- no case does it read past the end. A `std::string` may have 4 GiB, and has fewer than 2 ^ 63 bytes.
pub read_lenenc_str-length_error :
    (max_size len : ℕ) (before rest : Bytes)
    → 2 ^ 32 ≤ max_size
    → max_size < 2 ^ 63
    → len < 2 ^ 64
    → length before + 9 + length rest < 2 ^ 32
    → read_lenenc_str max_size
        (length (before ++ 0xFE ∷ (le_bytes 8 len ++ rest)))
        (0xFE ∷ (le_bytes 8 len ++ rest))
      ≡ (if leb (2 ^ 64) (length before + 9 + len)
          then length_error
          else if leb len (length rest)
          then read (take len rest) (drop len rest)
          else refused rest)
unfolding read_lenenc_str read_lenenc_int str_read
read_lenenc_str-length_error max_size len before rest big fits h small =
    rw (read_sized-le_bytes 8 len rest h) (
      ground (
        arith,
        length-append before (0xFE ∷ (le_bytes 8 len ++ rest)),
        length-append (le_bytes 8 len) rest,
        length-le_bytes 8 len,
      ))

-- No byte of the string ends it early.
abbrev pub NoNull : Bytes → Type 0
NoNull [] = Unit
NoNull (c ∷ cs) = ((c == 0) ≡ false) × NoNull cs

pub read_null_str-append : (s rest : Bytes) → NoNull s → read_null_str (s ++ 0 ∷ rest) ≡ (s, rest)
unfolding read_null_str
read_null_str-append [] rest h = refl
read_null_str-append (c ∷ cs) rest h = rw (h.0, read_null_str-append cs rest h.1)
