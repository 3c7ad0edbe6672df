-- ===== src/Protocol/Framer/RoundTrip.antt =====
-- packet_framer.cpp: decoding what was encoded.
use mathlib.Core.List.{append_assoc}
use native.Mathlib.Nat.{mod-eq_of_lt}
use dbmesh.Prelude.{
  ℕ, suc, zero, ◌+◌, ◌/◌, ◌%◌, ◌^◌, ◌≤◌, ◌<◌, ◌≡◌, refl, arith, ◌∷◌, ◌++◌, Bytes, length, take,
  drop, get_or, length-append, take-append, ap, ◌∙◌,
}
use dbmesh.Core.Types.{ok}
use dbmesh.Protocol.Codec.{le_bytes, of_le}
use dbmesh.Protocol.Codec.RoundTrip.{length-le_bytes, of_le-le_bytes, take-le_bytes}
use dbmesh.Protocol.Framer.{encode, decode}

get_or-le_bytes : (n v b : ℕ) (rest : Bytes) → get_or (le_bytes n v ++ b ∷ rest) n 0 ≡ b
unfolding le_bytes
get_or-le_bytes zero v b rest = refl
get_or-le_bytes (suc n) v b rest = get_or-le_bytes n (v / 256) b rest

-- Three bytes hold a number modulo 2 ^ 24.
le_bytes_cut : (v : ℕ) → le_bytes 3 v ≡ le_bytes 3 (v % 2 ^ 24)
unfolding le_bytes
le_bytes_cut v = ground arith

take_all-append : (xs ys : Bytes) (n : ℕ) → n ≡ length xs → take n (xs ++ ys) ≡ xs
take_all-append xs ys n e = ap (λ k. take k (xs ++ ys)) e ∙ take-append xs ys

drop-le_bytes_cons : (n v b : ℕ) (rest : Bytes) → drop (suc n) (le_bytes n v ++ b ∷ rest) ≡ rest
unfolding le_bytes
drop-le_bytes_cons zero v b rest = refl
drop-le_bytes_cons (suc n) v b rest = drop-le_bytes_cons n (v / 256) b rest

frame_size : (v b : ℕ) (t : Bytes) → length (le_bytes 3 v ++ b ∷ t) ≡ length t + 4
frame_size v b t = omega (arith, length-append (le_bytes 3 v) (b ∷ t), length-le_bytes 3 v)

frame_length : (v : ℕ) (t : Bytes) → v < 2 ^ 24 → of_le (take 3 (le_bytes 3 v ++ t)) ≡ v
frame_length v t h = rw (take-le_bytes 3 v t) (of_le-le_bytes 3 v h)

decode_frame :
    (v b : ℕ) (t : Bytes)
    → v < 2 ^ 24
    → v ≤ length t
    → decode (le_bytes 3 v ++ b ∷ t)
      ≡ ok (record { packet_length = v; sequence = b; payload = take v t })
unfolding decode
decode_frame v b t h k =
    rw
      (
        frame_size v b t,
        frame_length v (b ∷ t) h,
        get_or-le_bytes 3 v b t,
        drop-le_bytes_cons 3 v b t,
      )
      (ground arith)

-- For a payload below 4 GiB and a sequence number of one byte, `encode` cuts the length to three
-- bytes: decoding its frame, whatever follows it in the buffer, gives the sequence number and as
-- many bytes of the payload, and of what follows it, as its size modulo 16 MiB. Below 16 MiB this
-- is the payload.
pub decode-encode :
    (payload rest : Bytes) (seq : ℕ)
    → length payload < 2 ^ 32
    → seq < 256
    → (decode (encode payload seq ++ rest)
        ≡ ok (record {
          packet_length = length payload % 2 ^ 24;
          sequence = seq;
          payload = take (length payload % 2 ^ 24) (payload ++ rest);
        }))
      × (length payload < 2 ^ 24 → take (length payload % 2 ^ 24) (payload ++ rest) ≡ payload)
unfolding encode
decode-encode payload rest seq h k = (
  rw (append_assoc, mod-eq_of_lt h, mod-eq_of_lt k, le_bytes_cut (length payload))
      (decode_frame (length payload % 2 ^ 24) seq (payload ++ rest) (omega arith)
        (omega (arith, length-append payload rest))),
  λ small. take_all-append payload rest _ (omega arith),
)
