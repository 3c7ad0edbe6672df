-- ===== src/Frontend/Commands/Entered.antt =====
-- mysql_connection.cpp: how a client gets in.
use Prim.Native.Nat.{bit_and}
use dbmesh.Prelude.{◌^◌, ◌<◌, ◌≡◌, true, false, [], some, if◌then◌else◌, length, ap}
use dbmesh.Protocol.Codec.RoundTrip.{NoNull}
use dbmesh.Protocol.Constants.{server_flags}
use dbmesh.Protocol.Handshake.{
  has_flag, plugin_auth_lenenc, connect_with_db, secure_connection, HandshakeResponse41,
  encode_response,
}
use dbmesh.Protocol.Handshake.Response.{decode_response-encode_response}
use dbmesh.Frontend.Commands.{ok_packet, accepted, of_response, login}

-- A client's response that fits its fields gets the client in with an OK, whatever its
-- authentication data is: the session begins outside transactions, with autocommit, and with the
-- client's database if its flags announce one. The strings have no null byte, the flags ask for the
-- authentication data behind one byte of length, and the packet is below 4 GiB.
pub login-encode_response :
    (r : HandshakeResponse41)
    → r.r_flags < 2 ^ 32
    → r.max_packet < 2 ^ 32
    → r.charset < 256
    → NoNull r.username
    → NoNull r.database
    → NoNull r.auth_plugin
    → has_flag r.r_flags plugin_auth_lenenc ≡ false
    → has_flag r.r_flags secure_connection ≡ true
    → length r.auth_response < 256
    → length (encode_response r) < 2 ^ 32
    → login (some (encode_response r))
      ≡ accepted
          (record {
            client_caps = bit_and r.r_flags server_flags;
            username = r.username;
            session = record {
              current_db = if has_flag r.r_flags connect_with_db then r.database else [];
              in_transaction = false;
              autocommit = true;
              seq = 2;
            };
          })
          ok_packet
unfolding login
login-encode_response r ff mm cs nu nd np plain secure short small =
    ap of_response (decode_response-encode_response r ff mm cs nu nd np plain secure short small)
