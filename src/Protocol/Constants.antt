-- ===== src/Protocol/Constants.antt =====
-- protocol/mysql/include/dbmesh/protocol/mysql/constants.h: the numbers of the protocol that the session and the connector
-- use.
use Prim.Native.Nat.{bit_or}
use dbmesh.Prelude.{ℕ, List, [], ◌∷◌}

abbrev pub long_password : ℕ
long_password = 0x00000001

abbrev pub found_rows : ℕ
found_rows = 0x00000002

abbrev pub long_flag : ℕ
long_flag = 0x00000004

abbrev pub cap_connect_with_db : ℕ
cap_connect_with_db = 0x00000008

abbrev pub protocol_41 : ℕ
protocol_41 = 0x00000200

abbrev pub transactions : ℕ
transactions = 0x00002000

abbrev pub cap_secure_connection : ℕ
cap_secure_connection = 0x00008000

abbrev pub multi_statements : ℕ
multi_statements = 0x00010000

abbrev pub multi_results : ℕ
multi_results = 0x00020000

abbrev pub ps_multi_results : ℕ
ps_multi_results = 0x00040000

abbrev pub cap_plugin_auth : ℕ
cap_plugin_auth = 0x00080000

-- Flags joined with `|`.
abbrev pub flags : List ℕ → ℕ
flags [] = 0
flags (f ∷ fs) = bit_or f (flags fs)

-- What the proxy advertises to clients.
abbrev pub server_flags : ℕ
server_flags = flags (
    long_password ∷ found_rows ∷ long_flag ∷ cap_connect_with_db ∷ protocol_41 ∷ transactions
    ∷ cap_secure_connection ∷ multi_statements ∷ multi_results ∷ ps_multi_results ∷ cap_plugin_auth
    ∷ [])

abbrev pub cmd_quit : ℕ
cmd_quit = 0x01

abbrev pub cmd_init_db : ℕ
cmd_init_db = 0x02

abbrev pub cmd_query : ℕ
cmd_query = 0x03

abbrev pub cmd_field_list : ℕ
cmd_field_list = 0x04

abbrev pub cmd_statistics : ℕ
cmd_statistics = 0x09

abbrev pub cmd_ping : ℕ
cmd_ping = 0x0E

abbrev pub cmd_stmt_prepare : ℕ
cmd_stmt_prepare = 0x16

abbrev pub cmd_stmt_execute : ℕ
cmd_stmt_execute = 0x17

abbrev pub cmd_stmt_close : ℕ
cmd_stmt_close = 0x19

abbrev pub cmd_stmt_reset : ℕ
cmd_stmt_reset = 0x1A

abbrev pub cmd_set_option : ℕ
cmd_set_option = 0x1B

abbrev pub utf8mb4 : ℕ
utf8mb4 = 0x2D

abbrev pub con_count_error : ℕ
con_count_error = 1040

abbrev pub access_denied : ℕ
access_denied = 1045

abbrev pub unknown_com_error : ℕ
unknown_com_error = 1047

abbrev pub autocommit_status : ℕ
autocommit_status = 0x0002
