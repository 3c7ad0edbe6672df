-- ===== src/Protocol/Connector.antt =====
-- protocol/mysql/src/backend_connector.cpp and mysql_backend_connection.cpp: the proxy as a client of a
-- backend. What the network does is an argument: whether the name is resolved and the host reached,
-- which writes fail, and the packets that are read before reading fails.
pub mod Accepted
use Prim.Native.Nat.{bit_and}
use dbmesh.Prelude.{
  ℕ, ◌+◌, ◌-◌, ◌%◌, ◌^◌, Bool, true, false, List, [], ◌∷◌, ◌++◌, Option, none, some, Bytes,
  if◌then◌else◌, ◌==◌, take, drop, length, replicate,
}
use dbmesh.Core.Types.{Result, ok, err}
use dbmesh.Core.Config.{BackendConfig}
use dbmesh.Pool.{PoolError, connect_failed}
use dbmesh.Protocol.Constants.{
  flags, long_password, protocol_41, cap_secure_connection, cap_plugin_auth, transactions,
  cap_connect_with_db, utf8mb4, cmd_ping,
}
use dbmesh.Protocol.Framer.{Packet, max_packet_size, next_seq}
use dbmesh.Protocol.Handshake.{
  HandshakeV10, HandshakeResponse41, DecodeError, decode_v10, encode_response,
  scramble_native_password, native_password,
}

-- `kClientFlags`.
abbrev pub k_client_flags : ℕ
k_client_flags = flags (
    long_password ∷ protocol_41 ∷ cap_secure_connection ∷ cap_plugin_auth ∷ transactions
    ∷ cap_connect_with_db ∷ [])

-- `flags & ~mask` on 32 bits.
abbrev without : ℕ → ℕ → ℕ
without fs mask = bit_and fs (2 ^ 32 - 1 - mask)

abbrev behind_null : Bytes → Bytes
behind_null [] = []
behind_null (b ∷ bs) = let rest = behind_null bs in if b == 0 then bs else rest

-- `parse_switch_salt`: twenty bytes behind the plugin's name, or zeros where they end.
unfoldable pub parse_switch_salt : Bytes → Bytes
parse_switch_salt payload =
    let salt = take 20 (behind_null (drop 1 payload)) in salt ++ replicate (20 - length salt) 0

-- What was written, each payload with its sequence number, and the outcome: the backend's thread.
pub record Connected : Type 0 where
  pub sent : List (ℕ × Bytes)
  pub outcome : Result ℕ PoolError

abbrev pub failed : List (ℕ × Bytes) → Connected
failed sent = record { sent = sent; outcome = err connect_failed }

-- `write_packet` number `i`, and what comes behind it; a write that fails ends the attempt.
abbrev pub written :
    (ℕ → Bool) → ℕ → List (ℕ × Bytes) → ℕ → Bytes → (List (ℕ × Bytes) → Connected) → Connected
written fails i sent seq payload next =
    if fails i then failed sent else next (sent ++ (seq, payload) ∷ [])

-- Whether a payload begins with this byte.
abbrev pub begins : ℕ → Bytes → Bool
begins b [] = false
begins b (c ∷ cs) = c == b

-- A packet that must be an OK.
abbrev pub expect_ok : ℕ → List Packet → List (ℕ × Bytes) → Connected
expect_ok thread [] sent = failed sent
expect_ok thread (p ∷ ps) sent =
    if begins 0 p.payload then record { sent = sent; outcome = ok thread } else failed sent

module _ (sha1 : Bytes → Bytes) (backend : BackendConfig) where
  -- Step 3: the response to a greeting.
  unfoldable pub response_to : HandshakeV10 → HandshakeResponse41
  response_to server = record {
    r_flags = without k_client_flags cap_connect_with_db;
    max_packet = max_packet_size;
    charset = utf8mb4;
    username = backend.user;
    auth_response = scramble_native_password sha1 backend.password server.auth_data;
    database = [];
    auth_plugin = native_password;
  }

module _ (sha1 : Bytes → Bytes) (backend : BackendConfig) (fails : ℕ → Bool) where
  -- Step 4: the result of the authentication, after an AuthSwitchRequest with a new salt.
  unfoldable pub read_auth_result : ℕ → List Packet → List (ℕ × Bytes) → Connected
  unfolding parse_switch_salt
  read_auth_result thread [] sent = failed sent
  read_auth_result thread (p ∷ ps) sent =
      if begins 0xFE p.payload
      then written fails 1 sent (next_seq p.sequence)
          (scramble_native_password sha1 backend.password (parse_switch_salt p.payload))
          (expect_ok thread ps)
      else expect_ok thread (p ∷ ps) sent

  -- Steps 2 to 4, behind the greeting's decoding.
  unfoldable pub greeted : ℕ → List Packet → Result HandshakeV10 DecodeError → Connected
  unfolding read_auth_result response_to
  greeted seq ps (err e) = failed []
  greeted seq ps (ok server) =
      written fails 0 [] seq (encode_response (response_to sha1 backend server))
        (read_auth_result server.connection_id ps)

  abbrev pub conversation : List Packet → Connected
  conversation [] = failed []
  conversation (p ∷ ps) = greeted (next_seq p.sequence) ps (decode_v10 p.payload)

  -- `BackendConnector::connect`.
  unfoldable pub connect : Bool → Bool → List Packet → Connected
  unfolding greeted
  connect resolved reached packets =
      if resolved then (if reached then conversation packets else failed []) else failed []

-- `MySqlBackendConnection::validate`: a COM_PING whose answer is an OK. The payload that it writes,
-- if it writes, and its result.
unfoldable pub validate : Bool → Bool → Option Packet → Option Bytes × Bool
validate is_open write_fails reply =
    if is_open
    then (
      some (cmd_ping ∷ []),
      if write_fails then false else elim reply [ none ↦ false | some p ↦ begins 0 p.payload ],
    )
    else (none, false)
