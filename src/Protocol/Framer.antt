-- ===== src/Protocol/Framer.antt =====
-- protocol/mysql/src/packet_framer.cpp and packet_framer.h. The socket is a parameter: `recv n`
-- gives `n` bytes or fails (`asio::async_read` of a whole buffer), and `fails i` says whether the
-- write number `i` fails (`asio::async_write`). `none` is a loop that has used up its fuel.
pub mod RoundTrip
pub mod Diverges
pub mod Stream
use Prim.Native.Nat.{min}
use dbmesh.Prelude.{
  ℕ, suc, zero, ◌+◌, ◌-◌, ◌%◌, ◌^◌, Bool, true, false, ◌&&◌, ◌||◌, List, [], ◌∷◌, ◌++◌, Option,
  none, some, Bytes, if◌then◌else◌, ltb, ◌==◌, length, take, drop, get_or,
}
use dbmesh.Core.Types.{Result, ok, err}
use dbmesh.Protocol.Codec.{le_bytes, of_le, write_u24_le, read_u24_le}

-- `enum class IoError`.
pub data IoError : Type 0 where
  read_failed write_failed packet_too_large connection_closed : IoError

-- `MySqlPacket`.
pub record Packet : Type 0 where
  pub packet_length : ℕ
  pub sequence : ℕ
  pub payload : Bytes

-- `MAX_PACKET_SIZE`.
abbrev pub max_packet_size : ℕ
max_packet_size = 0xFFFFFF

-- The header and the payload; the length is cut to 32 bits and then to three bytes.
unfoldable pub encode : Bytes → ℕ → Bytes
encode payload seq = write_u24_le (length payload % 2 ^ 32) ++ (seq % 256 ∷ payload)

-- `size` is the number of bytes at `data`.
unfoldable pub decode : Bytes → Result Packet IoError
decode data' =
    let len = read_u24_le data' in
    if ltb (length data') 4
    then err read_failed
    else if ltb (length data') (4 + len)
    then err read_failed
    else ok (record {
      packet_length = len;
      sequence = get_or data' 3 0;
      payload = take len (drop 4 data');
    })

module _ {S : Type 0} (recv : ℕ → S → Option (Bytes × S)) where
  -- The loop over the chunks that follow a chunk of the greatest length; `acc` is the payload.
  abbrev chunk_payload : ℕ → S → Option (Bytes × S)
  chunk_payload n s = if ltb 0 n then recv n s else some ([], s)

  unfoldable pub read_chunks : ℕ → ℕ → ℕ → Bytes → S → Option (Result Packet IoError × S)
  read_chunks zero len seq acc s = none
  read_chunks (suc fuel) len seq acc s = elim (len == max_packet_size) [
    | false ↦
        some (ok (record { packet_length = length acc % 2 ^ 32; sequence = seq; payload = acc }), s)
    | true ↦ elim (recv 4 s) [
      | none ↦ some (err read_failed, s)
      | some (hdr, s') ↦ elim (chunk_payload (read_u24_le hdr) s') [
        | none ↦ some (err read_failed, s')
        | some (more, s'') ↦ read_chunks fuel (read_u24_le hdr) (get_or hdr 3 0) (acc ++ more) s''
      ]
    ]
  ]

  -- The first header, its payload, and then the loop.
  unfoldable pub read_packet : ℕ → S → Option (Result Packet IoError × S)
  unfolding read_chunks
  read_packet fuel s = elim (recv 4 s) [
    | none ↦ some (err read_failed, s)
    | some (hdr, s') ↦ elim (ltb max_packet_size (read_u24_le hdr)) [
      | true ↦ some (err packet_too_large, s')
      | false ↦ elim (chunk_payload (read_u24_le hdr) s') [
        | none ↦ some (err read_failed, s')
        | some (bytes, s'') ↦ read_chunks fuel (read_u24_le hdr) (get_or hdr 3 0) bytes s''
      ]
    ]
  ]

-- What `write_packet` has written, and its result with the next sequence number.
pub record Written : Type 0 where
  pub wire : Bytes
  pub outcome : Result ℕ IoError

abbrev pub after_write : Bytes → Option Written → Option Written
after_write frame none = none
after_write frame (some w) = some (record w { wire = frame ++ w.wire })

-- The test of the `do … while`, after `offset += chunk`.
abbrev pub goes_on : ℕ → ℕ → Bool
goes_on offset size = ltb offset size || (ltb 0 size && size % max_packet_size == 0)

-- `seq++` on a `uint8_t`.
abbrev pub next_seq : ℕ → ℕ
next_seq seq = (seq + 1) % 256

unfoldable pub write_loop : (ℕ → Bool) → ℕ → ℕ → Bytes → ℕ → ℕ → Option Written
write_loop fails zero i payload offset seq = none
write_loop fails (suc fuel) i payload offset seq =
    let chunk = min (length payload - offset) max_packet_size in
    let frame = write_u24_le chunk ++ (seq ∷ take chunk (drop offset payload)) in
    elim (fails i) [
      | true ↦ some (record { wire = []; outcome = err write_failed })
      | false ↦ elim (goes_on (offset + chunk) (length payload)) [
        | false ↦ some (record { wire = frame; outcome = ok (next_seq seq) })
        | true ↦
            after_write frame
              (write_loop fails fuel (i + 1) payload (offset + chunk) (next_seq seq))
      ]
    ]

unfoldable pub write_packet : (ℕ → Bool) → ℕ → Bytes → ℕ → Option Written
unfolding write_loop
write_packet fails fuel payload seq = write_loop fails fuel 0 payload 0 seq
