-- ===== src/Frontend/Commands.antt =====
-- mysql_connection.cpp: login (`do_run`), the command loop and the dispatch of commands. A packet sent
-- is given by its payload; what the socket does to it is the matter of the framer.
pub mod Transaction
pub mod Entered
use Prim.Native.Nat.{bit_and}
use dbmesh.Prelude.{
  ℕ, suc, zero, ◌+◌, ◌/◌, ◌%◌, ◌^◌, Bool, true, false, List, [], ◌∷◌, ◌++◌, Option, none, some,
  Bytes, codes, if◌then◌else◌, ltb, drop, is_empty, ◌==◌, ◌||◌, length,
}
use dbmesh.Core.Types.{Result, ok, err}
use dbmesh.Protocol.Packets.{make_ok, make_err, make_eof}
use dbmesh.Protocol.Framer.{Packet, next_seq}
use dbmesh.Protocol.Constants.{
  server_flags, cmd_quit, cmd_init_db, cmd_query, cmd_field_list, cmd_statistics, cmd_ping,
  cmd_stmt_prepare, cmd_stmt_execute, cmd_stmt_close, cmd_stmt_reset, cmd_set_option, utf8mb4,
  access_denied, unknown_com_error, autocommit_status,
}
use dbmesh.Protocol.Handshake.{
  HandshakeV10, HandshakeResponse41, DecodeError, native_password, without_nulls, decode_response,
}
use dbmesh.Frontend.{Session, Handled, answered, forwarded, throws, handle_com_query}

-- `std::to_string` of a number of at most 64 bits: it has at most twenty digits.
abbrev to_digits : ℕ → ℕ → Bytes → Bytes
to_digits zero n acc = acc
to_digits (suc more) n acc =
    let rest = to_digits more (n / 10) ((b'0' + n % 10) ∷ acc) in
    if ltb n 10 then (b'0' + n) ∷ acc else rest

abbrev pub to_string : ℕ → Bytes
to_string n = to_digits 20 n []

-- `send_ok` and `send_err`: the payloads.
abbrev pub ok_packet : Bytes
ok_packet = make_ok 0 0 autocommit_status 0

-- What a command does: it ends the session, it is answered with this payload, it is routed (with
-- the text), or an exception ends the session.
pub data Outcome : Type 0 where
  quits : Outcome
  replies : Session → Bytes → Outcome
  routes : Session → Bytes → Outcome
  dies : Outcome

-- `handle_com_init_db`.
abbrev pub handle_com_init_db : Session → Bytes → Outcome
handle_com_init_db s payload =
    replies (if ltb 1 (length payload) then record s { current_db = drop 1 payload } else s)
      ok_packet

abbrev pub of_query : Bytes → Handled → Outcome
of_query payload (answered s) = replies s ok_packet
of_query payload (forwarded s) = routes s (drop 1 payload)
of_query payload throws = dies

abbrev pub is_stmt : ℕ → Bool
is_stmt command =
    command == cmd_stmt_prepare
    || command == cmd_stmt_execute
    || command == cmd_stmt_close
    || command == cmd_stmt_reset

-- The `switch`; the command is the payload's first byte.
unfoldable pub dispatch : ℕ → Session → ℕ → Bytes → Outcome
dispatch connection_id s command payload =
    if command == cmd_quit
    then quits
    else if command == cmd_ping
    then replies s ok_packet
    else if command == cmd_init_db
    then handle_com_init_db s payload
    else if command == cmd_query
    then of_query payload (handle_com_query s payload)
    else if command == cmd_field_list
    then replies s (make_eof 0 autocommit_status)
    else if command == cmd_statistics
    then replies s (codes "DBMesh connection_id=" ++ to_string connection_id)
    else if command == cmd_set_option
    then replies s ok_packet
    else if is_stmt command
    then replies s (
        make_err unknown_com_error (codes "08S01")
          (codes "Binary protocol not yet supported (Milestone 1.19)"))
    else replies s
        (make_err unknown_com_error (codes "08S01") (codes "Unknown command " ++ to_string command))

-- `handle_command`, and before it the round of `command_loop`: an empty payload ends the session.
unfoldable pub handle_command : ℕ → Session → Packet → Outcome
unfolding dispatch
handle_command connection_id s pkt = elim pkt.payload [
  | [] ↦ quits
  | b ∷ rest ↦ dispatch connection_id (record s { seq = next_seq pkt.sequence }) b (b ∷ rest)
]

-- `command_loop`, over the packets that are read until reading fails: what each does.
unfoldable pub command_loop : ℕ → Session → List Packet → List Outcome
unfolding handle_command
command_loop connection_id s [] = []
command_loop connection_id s (pkt ∷ pkts) = elim (handle_command connection_id s pkt) [
  | quits ↦ quits ∷ []
  | dies ↦ dies ∷ []
  | replies s' reply ↦ replies s' reply ∷ command_loop connection_id s' pkts
  | routes s' sql ↦ routes s' sql ∷ command_loop connection_id s' pkts
]

-- `do_run` up to the command loop. The greeting:
abbrev pub base_version : Bytes
base_version = codes "8.0.30-dbmesh"

unfoldable pub greeting : Bytes → ℕ → Bytes → HandshakeV10
unfolding without_nulls
greeting node_name connection_id random = record {
  server_version =
      if is_empty node_name then base_version else base_version ++ codes "-" ++ node_name;
  connection_id = connection_id;
  auth_data = without_nulls random;
  capability_flags = server_flags;
  character_set = utf8mb4;
  status_flags = autocommit_status;
  auth_plugin_name = native_password;
}

-- What is kept of a login.
pub record Login : Type 0 where
  pub client_caps : ℕ
  pub username : Bytes
  pub session : Session

-- How the login ends: reading the response fails or throws, it is refused with a payload, or it is
-- accepted with one, whatever the password was.
pub data Entry : Type 0 where
  lost : Entry
  refused : Bytes → Entry
  accepted : Login → Bytes → Entry

abbrev pub of_response : Option (Result HandshakeResponse41 DecodeError) → Entry
of_response none = lost
of_response (some (err e)) =
    refused (make_err access_denied (codes "28000") (codes "Protocol error"))
of_response (some (ok r)) =
    accepted
      (record {
        client_caps = bit_and r.r_flags server_flags;
        username = r.username;
        session = record {
          current_db = r.database;
          in_transaction = false;
          autocommit = true;
          seq = 2;
        };
      })
      ok_packet

-- The payload of the packet that answers the greeting, if one was read.
unfoldable pub login : Option Bytes → Entry
login none = lost
login (some payload) = of_response (decode_response payload)
