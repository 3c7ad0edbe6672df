-- ===== src/Protocol/Connector/Accepted.antt =====
-- backend_connector.cpp against the server side of handshake.cpp.
use mathlib.Core.List.{append-nil}
use dbmesh.Prelude.{
  ℕ, ◌^◌, ◌<◌, ◌≡◌, refl, arith, Bool, true, false, List, [], ◌∷◌, ◌++◌, Bytes, some, length, take,
  take-append, is_empty, ap, sym, ◌∙◌,
}
use dbmesh.Core.Types.{ok}
use dbmesh.Core.Config.{BackendConfig}
use dbmesh.Protocol.Codec.RoundTrip.{NoNull}
use dbmesh.Protocol.Framer.{Packet, next_seq}
use dbmesh.Protocol.Handshake.{
  HandshakeV10, HandshakeResponse41, encode_v10, encode_response, decode_response,
  verify_native_password, scramble_native_password, native_hashes,
}
use dbmesh.Protocol.Handshake.Greeting.{Fits, decode_v10-encode_v10}
use dbmesh.Protocol.Handshake.Response.{decode_response-encode_response, plugin_or_native-NoNull}
use dbmesh.Protocol.Handshake.Password.{Digest, verify-scramble, length-xor_bytes}
use dbmesh.Protocol.Connector.{
  parse_switch_salt, behind_null, response_to, read_auth_result, greeted, connect,
}

abbrev pub packet : ℕ → Bytes → Packet
packet seq payload = record { packet_length = length payload; sequence = seq; payload = payload }

-- An AuthSwitchRequest.
abbrev pub switch_payload : Bytes → Bytes → Bytes
switch_payload name salt = 0xFE ∷ (name ++ 0 ∷ (salt ++ 0 ∷ []))

behind_null-name : (name rest : Bytes) → NoNull name → behind_null (name ++ 0 ∷ rest) ≡ rest
behind_null-name [] rest n = refl
behind_null-name (c ∷ name) rest n = rw (n.0, behind_null-name name rest n.1) refl

parse_switch_salt-payload :
    (name salt : Bytes)
    → NoNull name
    → length salt ≡ 20
    → parse_switch_salt (switch_payload name salt) ≡ salt
unfolding parse_switch_salt
parse_switch_salt-payload name salt n h =
    let got : take 20 (salt ++ 0 ∷ []) ≡ salt =
      ap (λ k. take k (salt ++ 0 ∷ [])) {x = 20} (sym h) ∙ take-append salt (0 ∷ []) in
    rw (behind_null-name name (salt ++ 0 ∷ []) n, got, h) (append-nil salt)

length-scramble :
    (sha1 : Bytes → Bytes) (pwd salt : Bytes)
    → Digest sha1
    → is_empty pwd ≡ false
    → length (scramble_native_password sha1 pwd salt) ≡ 20
unfolding scramble_native_password native_hashes
length-scramble sha1 pwd salt d h = rw h (length-xor_bytes _ _ ((d _).0 ∙ sym (d _).0) ∙ (d pwd).0)

module _ (sha1 : Bytes → Bytes) (backend : BackendConfig) (h : HandshakeV10) where
  -- What the response makes a server read.
  abbrev pub Identified : Bytes → Type 0
  Identified payload =
      (r : HandshakeResponse41) × (decode_response payload ≡ some (ok r))
      × (r.username ≡ backend.user)
      × (verify_native_password sha1 backend.password h.auth_data r.auth_response ≡ true)

  response_to-Identified :
      Digest sha1
      → is_empty backend.password ≡ false
      → NoNull backend.user
      → length (encode_response (response_to sha1 backend h)) < 2 ^ 32
      → Identified (encode_response (response_to sha1 backend h))
  unfolding response_to
  response_to-Identified d pwd user small =
      let short = length-scramble sha1 backend.password h.auth_data d pwd in
      (
        _,
        decode_response-encode_response (response_to sha1 backend h) (omega arith) (omega arith)
            (omega arith) user tt (plugin_or_native-NoNull [] tt) refl refl (omega (arith, short))
            small,
        refl,
        verify-scramble sha1 backend.password h.auth_data d pwd,
      )

  -- The packets that the proxy writes to a backend with this greeting, which it gave the number `n`.
  abbrev pub response : Bytes
  response = encode_response (response_to sha1 backend h)

  connect-greeted :
      (fails : ℕ → Bool) (n : ℕ) (ps : List Packet)
      → Fits h
      → fails 0 ≡ false
      → connect sha1 backend fails true true (packet n (encode_v10 h) ∷ ps)
        ≡ read_auth_result sha1 backend fails h.connection_id ps ((next_seq n, response) ∷ [])
  unfolding connect greeted
  connect-greeted fails n ps fits w = rw (decode_v10-encode_v10 h fits, greeted, w) refl

  -- A backend whose greeting fits its fields, that knows the proxy's user and password, which is
  -- not empty, and answers with an OK, is connected to: the proxy's response is read by it as the
  -- user's, its authentication data is accepted for the password, and the connection has the
  -- backend's thread. If the backend asks for another salt first, the data that the proxy then sends
  -- is accepted for that salt. The user has no null byte, no write fails, SHA1 gives twenty bytes,
  -- and the response is below 4 GiB.
  pub connect-accepted :
      (fails : ℕ → Bool) (n m : ℕ) (name salt rest rest' : Bytes)
      → Digest sha1
      → Fits h
      → is_empty backend.password ≡ false
      → NoNull backend.user
      → length response < 2 ^ 32
      → fails 0 ≡ false
      → fails 1 ≡ false
      → NoNull name
      → length salt ≡ 20
      → let token = scramble_native_password sha1 backend.password salt in
        let greeting = packet n (encode_v10 h) in
        Identified response
        × (connect sha1 backend fails true true (greeting ∷ packet m (0 ∷ rest) ∷ [])
            ≡ record { sent = (next_seq n, response) ∷ []; outcome = ok h.connection_id })
        × (connect sha1 backend fails true true
              (greeting ∷ packet m (switch_payload name salt) ∷ packet 0 (0 ∷ rest') ∷ [])
            ≡ record {
              sent = (next_seq n, response) ∷ (next_seq m, token) ∷ [];
              outcome = ok h.connection_id;
            })
        × (verify_native_password sha1 backend.password salt token ≡ true)
  unfolding read_auth_result
  connect-accepted fails n m name salt rest rest' d fits pwd user small w w' nn l = (
    response_to-Identified d pwd user small,
    connect-greeted fails n _ fits w,
    connect-greeted fails n _ fits w ∙ rw (w', parse_switch_salt-payload name salt nn l) refl,
    verify-scramble sha1 backend.password salt d pwd,
  )
