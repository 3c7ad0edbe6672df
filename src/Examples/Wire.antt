-- ===== src/Examples/Wire.antt =====
-- Integers, strings, packets and passwords on the wire.
use dbmesh.Prelude.{
  some, ℕ, ◌-◌, ◌%◌, ◌^◌, ◌<◌, true, false, [], ◌∷◌, ◌++◌, none, Bytes, codes, length, take,
  replicate, length-replicate, ap, ◌≡◌, refl, arith,
}
use dbmesh.Core.Types.{ok}
use dbmesh.Protocol.Codec.{
  le_bytes, of_le, write_lenenc_int, read_lenenc_int, read_lenenc_str, length_error,
}
use dbmesh.Protocol.Codec.RoundTrip.{read-write_lenenc_int, read_lenenc_str-length_error}
use dbmesh.Protocol.Framer.{
  Written, read_packet, next_seq, encode, decode, write_packet, max_packet_size,
}
use dbmesh.Protocol.Framer.RoundTrip.{decode-encode}
use dbmesh.Protocol.Framer.Stream.{stream, read-write_packet}
use dbmesh.Protocol.Framer.Diverges.{write_packet_diverges}
use dbmesh.Protocol.Handshake.Response.{decode_response-encode_response}
use dbmesh.Protocol.Handshake.{
  HandshakeResponse41, native_password, encode_response, decode_response, verify_native_password,
  scramble_native_password,
}
use dbmesh.Protocol.Handshake.Password.{Digest, verify-scramble, verify-scramble_empty}
use dbmesh.Protocol.Handshake.Overflow.{decode_response_bad_range}

read-write_lenenc_int_example : read_lenenc_int (write_lenenc_int 70000 ++ 1 ∷ []) ≡ (70000, 1 ∷ [])
read-write_lenenc_int_example = read-write_lenenc_int 70000 (1 ∷ []) (omega arith)

lenenc_test : write_lenenc_int 70000 ≡ 0xFD ∷ 0x70 ∷ 0x11 ∷ 0x01 ∷ []
unfolding write_lenenc_int le_bytes
lenenc_test = refl

abbrev huge : ℕ
huge = 2 ^ 64 - 9

read_lenenc_str-length_error_example :
    read_lenenc_str
      (2 ^ 62)
      (length ([] ++ 0xFE ∷ (le_bytes 8 huge ++ [])))
      (0xFE ∷ (le_bytes 8 huge ++ []))
    ≡ length_error
read_lenenc_str-length_error_example =
    read_lenenc_str-length_error (2 ^ 62) huge [] [] (omega arith) (omega arith) (omega arith)
      (omega arith)

decode-encode_example :
    (decode (encode (codes "ping") 3 ++ codes "x")
      ≡ ok (record {
        packet_length = 4 % 2 ^ 24;
        sequence = 3;
        payload = take (4 % 2 ^ 24) (codes "ping" ++ codes "x");
      }))
    × (4 < 2 ^ 24 → take (4 % 2 ^ 24) (codes "ping" ++ codes "x") ≡ codes "ping")
decode-encode_example = decode-encode (codes "ping") (codes "x") 3 (omega arith) (omega arith)

-- Shut: sixteen million zeros are not to be computed.
filled : ℕ → Bytes
filled n = replicate n 0

length-filled : (n : ℕ) → length (filled n) ≡ n
unfolding filled
length-filled n = length-replicate n 0

write_packet_diverges_example : write_packet (λ n. false) 100 (filled max_packet_size) 0 ≡ none
write_packet_diverges_example =
    write_packet_diverges (λ n. false) 100 (filled max_packet_size) 0 (λ n. refl)
      (omega (arith, length-filled max_packet_size))
      (ap (λ n. n % max_packet_size) (length-filled max_packet_size))

abbrev digest : Bytes → Bytes
digest s = length s % 256 ∷ replicate 19 7

digest-Digest : Digest digest
digest-Digest s = (refl, ground arith)

verify-scramble_test :
    verify_native_password digest
      (codes "secret")
      (codes "salt")
      (scramble_native_password digest (codes "secret") (codes "salt"))
    ≡ true
verify-scramble_test = verify-scramble digest (codes "secret") (codes "salt") digest-Digest refl

verify-scramble_empty_test :
    verify_native_password digest []
      (codes "salt")
      (scramble_native_password digest [] (codes "salt"))
    ≡ false
verify-scramble_empty_test = verify-scramble_empty digest (codes "salt")

abbrev head : Bytes
head = 0 ∷ 0 ∷ 0x20 ∷ 0 ∷ replicate 28 0

decode_response_bad_range_example :
    decode_response (head ++ (codes "u" ++ 0 ∷ (0xFE ∷ (le_bytes 8 (2 ^ 64 - 20) ++ [])))) ≡ none
unfolding of_le le_bytes
decode_response_bad_range_example =
    decode_response_bad_range head (codes "u") [] (2 ^ 64 - 20) refl (refl, tt) refl (omega arith)
      (omega arith) (omega arith)

abbrev response : HandshakeResponse41
response = record {
  r_flags = 0x88008;
  max_packet = max_packet_size;
  charset = 45;
  username = codes "u";
  auth_response = 1 ∷ 2 ∷ [];
  database = codes "d";
  auth_plugin = [];
}

decode_response-encode_response_example :
    decode_response (encode_response response)
    ≡ some (ok (record response { database = codes "d"; auth_plugin = native_password }))
unfolding encode_response le_bytes
decode_response-encode_response_example =
    decode_response-encode_response response (omega arith) (omega arith) (omega arith) (refl, tt)
      (refl, tt) tt refl refl (omega arith) (omega arith)

read-write_packet_example :
    (w : Written) × (write_packet (λ n. false) 1 (codes "ping") 255 ≡ some w)
    × (w.outcome ≡ ok (next_seq 255))
    × (read_packet stream 1 (w.wire ++ codes "x")
        ≡ some
            (ok (record { packet_length = 4; sequence = 255; payload = codes "ping" }), codes "x"))
read-write_packet_example = read-write_packet 0 0 (codes "ping") (codes "x") 255 (omega arith)
