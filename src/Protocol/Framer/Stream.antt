-- ===== src/Protocol/Framer/Stream.antt =====
-- packet_framer.cpp: a packet of one chunk, over a stream of bytes.
use Prim.Native.Nat.{min}
use dbmesh.Prelude.{
  ℕ, suc, ◌+◌, ◌-◌, ◌%◌, ◌^◌, ◌<◌, ◌≡◌, refl, arith, true, false, [], ◌∷◌, ◌++◌, Bytes, Option,
  none, some, if◌then◌else◌, ltb, ◌==◌, length, length-append, take, take-append, drop, get_or, ap,
}
use dbmesh.Core.Types.{ok}
use dbmesh.Protocol.Codec.{le_bytes, read_u24_le}
use dbmesh.Protocol.Codec.RoundTrip.{of_le-le_bytes}
use dbmesh.Protocol.Framer.{
  Written, max_packet_size, goes_on, next_seq, write_loop, write_packet, chunk_payload, read_chunks,
  read_packet,
}

-- A socket on which these bytes come: `async_read` of `n` bytes takes them from the front.
abbrev pub stream : ℕ → Bytes → Option (Bytes × Bytes)
stream n s = if ltb (length s) n then none else some (take n s, drop n s)

drop_all : (xs ys : Bytes) → drop (length xs) (xs ++ ys) ≡ ys
drop_all [] ys = refl
drop_all (x ∷ xs) ys = drop_all xs ys

take_self : (xs : Bytes) → take (length xs) xs ≡ xs
take_self [] = refl
take_self (x ∷ xs) = ap (◌∷◌ x) (take_self xs)

stops : (n : ℕ) → n < max_packet_size → goes_on (0 + n) n ≡ false
stops n h = ground arith

abbrev pub frame : Bytes → ℕ → Bytes
frame payload seq = le_bytes 3 (length payload) ++ (seq ∷ payload)

write_packet-frame :
    (fuel : ℕ) (payload : Bytes) (seq : ℕ)
    → length payload < max_packet_size
    → write_packet (λ n. false) (suc fuel) payload seq
      ≡ some (record { wire = frame payload seq; outcome = ok (next_seq seq) })
unfolding write_packet write_loop
write_packet-frame fuel payload seq h =
    let one : min (length payload - 0) max_packet_size ≡ length payload = omega arith in
    rw (write_loop, one, write_loop, stops (length payload) h, one, take_self payload) refl

has_header : (n : ℕ) → ltb (suc (suc (suc (suc n)))) 4 ≡ false
has_header n = ground arith

stream_payload :
    (payload rest : Bytes)
    → chunk_payload stream (length payload) (payload ++ rest) ≡ some (payload, rest)
stream_payload [] rest = refl
stream_payload (b ∷ bs) rest =
    let enough : ltb (length ((b ∷ bs) ++ rest)) (length (b ∷ bs)) ≡ false =
      ground (arith, length-append bs rest) in
    let some_left : ltb 0 (length (b ∷ bs)) ≡ true = ground arith in
    rw (some_left, enough, take-append (b ∷ bs) rest, drop_all (b ∷ bs) rest) refl

header : ℕ → ℕ → Bytes
header n seq = le_bytes 3 n ++ seq ∷ []

stream-header :
    (payload rest : Bytes) (seq : ℕ)
    → stream 4 (frame payload seq ++ rest) ≡ some (header (length payload) seq, payload ++ rest)
unfolding le_bytes header
stream-header payload rest seq = rw (has_header (length (payload ++ rest))) refl

header-sequence : (n seq : ℕ) → get_or (header n seq) 3 0 ≡ seq
unfolding le_bytes header
header-sequence n seq = refl

header_length : (n seq : ℕ) → n < max_packet_size → read_u24_le (header n seq) ≡ n
unfolding le_bytes header
header_length n seq h = of_le-le_bytes 3 n (omega arith)

not_too_large : (n : ℕ) → n < max_packet_size → ltb max_packet_size n ≡ false
not_too_large n h = ground arith

not_full : (n : ℕ) → n < max_packet_size → (n == max_packet_size) ≡ false
not_full n h = ground arith

read_chunks-last :
    (fuel n seq : ℕ) (payload rest : Bytes)
    → length payload ≡ n
    → n < max_packet_size
    → read_chunks stream (suc fuel) n seq payload rest
      ≡ some (ok (record { packet_length = n; sequence = seq; payload = payload }), rest)
unfolding read_chunks
read_chunks-last fuel n seq payload rest e h =
    let whole : length payload % 2 ^ 32 ≡ n = omega arith in
    rw (not_full n h, read_chunks, whole) refl

read_packet-frame :
    (fuel : ℕ) (payload rest : Bytes) (seq : ℕ)
    → length payload < max_packet_size
    → read_packet stream (suc fuel) (frame payload seq ++ rest)
      ≡ some
          (ok (record { packet_length = length payload; sequence = seq; payload = payload }), rest)
unfolding read_packet
read_packet-frame fuel payload rest seq h =
    let n = length payload in
    rw
      (
        stream-header payload rest seq,
        read_packet,
        header_length n seq h,
        not_too_large n h,
        read_packet,
        header_length n seq h,
        stream_payload payload rest,
        read_packet,
        header_length n seq h,
        header-sequence n seq,
      )
      (read_chunks-last fuel n seq payload rest refl h)

-- A packet below the greatest length goes over the wire in one chunk: on a socket that takes it
-- `write_packet` ends after one round with the next sequence number, and on a socket where these
-- bytes come, whatever follows them, `read_packet` gives the payload and the sequence number and
-- leaves what follows.
pub read-write_packet :
    (fuel fuel' : ℕ) (payload rest : Bytes) (seq : ℕ)
    → length payload < max_packet_size
    → (w : Written) × (write_packet (λ n. false) (suc fuel) payload seq ≡ some w)
      × (w.outcome ≡ ok (next_seq seq))
      × (read_packet stream (suc fuel') (w.wire ++ rest)
          ≡ some (
            ok (record { packet_length = length payload; sequence = seq; payload = payload }),
            rest,
          ))
read-write_packet fuel fuel' payload rest seq h = (
  record { wire = frame payload seq; outcome = ok (next_seq seq) },
  write_packet-frame fuel payload seq h,
  refl,
  read_packet-frame fuel' payload rest seq h,
)
