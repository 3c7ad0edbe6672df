-- ===== src/Protocol/Framer/Diverges.antt =====
-- packet_framer.cpp, `write_packet`: a payload that fills its last chunk.
use Prim.Native.Nat.{min}
use dbmesh.Prelude.{
  ℕ, suc, zero, ◌+◌, ◌-◌, ◌%◌, ◌<◌, ◌≡◌, refl, arith, Bool, true, false, none, Bytes, length,
}
use dbmesh.Protocol.Framer.{max_packet_size, goes_on, write_loop, write_packet, next_seq}

goes_on_full :
    (offset size : ℕ) → 0 < size → size % max_packet_size ≡ 0 → goes_on offset size ≡ true
goes_on_full offset size h m = ground arith

write_loop_full :
    (fails : ℕ → Bool) (fuel i : ℕ) (payload : Bytes) (offset seq : ℕ)
    → ((n : ℕ) → fails n ≡ false)
    → 0 < length payload
    → length payload % max_packet_size ≡ 0
    → write_loop fails fuel i payload offset seq ≡ none
unfolding write_loop
write_loop_full fails zero i payload offset seq f h m = refl
write_loop_full fails (suc fuel) i payload offset seq f h m =
    let chunk = min (length payload - offset) max_packet_size in
    rw (
      write_loop,
      f i,
      goes_on_full (offset + chunk) (length payload) h m,
      write_loop_full fails fuel (i + 1) payload (offset + chunk) (next_seq seq) f h m,
    )

-- On a socket that takes every write, `write_packet` never returns for a payload that is not empty
-- and whose size is a multiple of `MAX_PACKET_SIZE`: no number of rounds is enough.
pub write_packet_diverges :
    (fails : ℕ → Bool) (fuel : ℕ) (payload : Bytes) (seq : ℕ)
    → ((n : ℕ) → fails n ≡ false)
    → 0 < length payload
    → length payload % max_packet_size ≡ 0
    → write_packet fails fuel payload seq ≡ none
unfolding write_packet
write_packet_diverges fails fuel payload seq = write_loop_full fails fuel 0 payload 0 seq
