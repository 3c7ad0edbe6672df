-- ===== src/Examples/Connecting.antt =====
-- A backend that greets the proxy and lets it in.
use dbmesh.Prelude.{
  ℕ, ◌≡◌, ◌%◌, ◌<◌, ◌^◌, refl, arith, Bool, true, false, [], ◌∷◌, some, Bytes, codes, length,
  replicate,
}
use dbmesh.Core.Types.{ok}
use dbmesh.Core.Config.{BackendConfig, default_backend}
use dbmesh.Protocol.Constants.{server_flags}
use dbmesh.Protocol.Codec.{le_bytes}
use dbmesh.Protocol.Framer.{next_seq}
use dbmesh.Protocol.Handshake.{
  HandshakeV10, encode_v10, decode_v10, encode_response, native_hashes, xor_bytes, native_password,
  verify_native_password, scramble_native_password,
}
use dbmesh.Protocol.Handshake.Password.{Digest}
use dbmesh.Protocol.Handshake.Response.{plugin_or_native-NoNull}
use dbmesh.Protocol.Handshake.Greeting.{Fits, decode_v10-encode_v10}
use dbmesh.Protocol.Connector.{response_to, connect, validate}
use dbmesh.Protocol.Connector.Accepted.{
  packet, switch_payload, Identified, response, connect-accepted,
}

abbrev digest : Bytes → Bytes
digest s = length s % 256 ∷ replicate 19 7

digest-Digest : Digest digest
digest-Digest s = (refl, ground arith)

abbrev greeting : HandshakeV10
greeting = record {
  server_version = codes "8.0";
  connection_id = 77;
  auth_data = replicate 20 9;
  capability_flags = server_flags;
  character_set = 45;
  status_flags = 2;
  auth_plugin_name = native_password;
}

greeting-Fits : Fits greeting
greeting-Fits = record {
  id_fits = omega arith;
  flags_fit = omega arith;
  charset_fits = omega arith;
  status_fits = omega arith;
  salt_length = refl;
  version_no_null = (refl, (refl, (refl, tt)));
  plugin_no_null = plugin_or_native-NoNull [] tt;
  secure = refl;
  plugin = refl;
}

decode_v10-encode_v10_example : decode_v10 (encode_v10 greeting) ≡ ok greeting
decode_v10-encode_v10_example = decode_v10-encode_v10 greeting greeting-Fits

abbrev backend : BackendConfig
backend = record default_backend { user = codes "u"; password = codes "secret" }

abbrev quiet : ℕ → Bool
quiet i = false

short_response : length (response digest backend greeting) < 2 ^ 32
unfolding encode_response response_to le_bytes scramble_native_password native_hashes xor_bytes
short_response = omega arith

connect-accepted_example :
    let salt = replicate {A = ℕ} 20 3 in
    let token = scramble_native_password digest (codes "secret") salt in
    let hello = packet 0 (encode_v10 greeting) in
    Identified digest backend greeting (response digest backend greeting)
    × (connect digest backend quiet true true (hello ∷ packet 2 (0 ∷ []) ∷ [])
        ≡ record { sent = (next_seq 0, response digest backend greeting) ∷ []; outcome = ok 77 })
    × (connect digest backend quiet true true
          (hello ∷ packet 2 (switch_payload native_password salt) ∷ packet 0 (0 ∷ []) ∷ [])
        ≡ record {
          sent = (next_seq 0, response digest backend greeting) ∷ (next_seq 2, token) ∷ [];
          outcome = ok 77;
        })
    × (verify_native_password digest (codes "secret") salt token ≡ true)
connect-accepted_example =
    connect-accepted digest backend greeting quiet 0 2 native_password (replicate 20 3) [] []
      digest-Digest greeting-Fits refl (refl, tt) short_response refl refl
      (plugin_or_native-NoNull [] tt) refl

validate_test : validate true false (some (packet 1 (0 ∷ []))) ≡ (some (14 ∷ []), true)
unfolding validate
validate_test = refl
