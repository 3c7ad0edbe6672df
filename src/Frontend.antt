-- ===== src/Frontend.antt =====
-- protocol/mysql/src/mysql_connection.cpp: the commands of a client session.
pub mod Autocommit
pub mod ResultSet
pub mod Commands
pub mod Route
pub mod Acceptor
use dbmesh.Prelude.{
  ℕ, suc, zero, ◌+◌, ◌-◌, ◌%◌, ◌^◌, Bool, true, false, not, ◌&&◌, ◌||◌, List, [], ◌∷◌, ◌++◌, Option,
  none, some, Bytes, codes, if◌then◌else◌, ltb, leb, ◌==◌, length, take, drop, is_empty, is_space,
  upper, reverse,
}
use dbmesh.Routing.Types.{
  RoutingError, no_schema_config, no_backend_available, backend_disconnected, firewall_blocked,
  rate_limited, pool_queue_full,
}
use dbmesh.Protocol.Codec.{write_u8, write_u16_le, write_lenenc_int}
use dbmesh.Routing.Classifier.{drop_spaces, trim}

-- The fields of `MySqlConnection` that commands change.
pub record Session : Type 0 where
  pub current_db : Bytes
  pub in_transaction : Bool
  pub autocommit : Bool
  pub seq : ℕ

-- The loop of `normalise_prefix`.
unfoldable pub normalise_loop : Bytes → Bool → Bytes → Bytes
normalise_loop out in_space [] = out
normalise_loop out in_space (c ∷ cs) =
    let blank =
      normalise_loop (if not in_space && not (is_empty out) then out ++ b' ' ∷ [] else out) true
        cs in
    let word = normalise_loop (out ++ upper c ∷ []) false cs in
    if leb 16 (length out) then out else if is_space c then blank else word

unfoldable pub normalise_prefix : Bytes → Bytes
unfolding normalise_loop
normalise_prefix = normalise_loop [] true

-- `s.rfind(p, 0) == 0`.
unfoldable pub starts_with : Bytes → Bytes → Bool
starts_with s [] = true
starts_with [] (p ∷ ps) = false
starts_with (c ∷ cs) (p ∷ ps) = c == p && starts_with cs ps

-- `s.find(p) != npos`.
unfoldable pub contains_text : Bytes → Bytes → Bool
unfolding starts_with
contains_text [] p = starts_with [] p
contains_text (c ∷ cs) p = starts_with (c ∷ cs) p || contains_text cs p

-- What a query does to the session, and whether it is answered here.
pub data Handled : Type 0 where
  -- `send_ok`.
  answered : Session → Handled
  -- `route_and_forward`.
  forwarded : Session → Handled
  -- `substr` throws `std::out_of_range`.
  throws : Handled

abbrev pub autocommit_after : Bytes → Bool → Bool
autocommit_after prefix old =
    if contains_text prefix (codes "AUTOCOMMIT")
    then not (contains_text prefix (codes "AUTOCOMMIT=0"))
      && not (contains_text prefix (codes "AUTOCOMMIT = 0"))
    else old

-- `find_first_not_of(" \t", …)` from here on: what is left, empty at the end.
abbrev pub skip_blanks : Bytes → Bytes
skip_blanks [] = []
skip_blanks (c ∷ cs) = let rest = skip_blanks cs in if c == b' ' || c == b'\t' then rest else c ∷ cs

-- The database of a `USE`: from the first byte behind index 3 that is no blank, without the space
-- at its end.
unfoldable pub use_db : Session → Bytes → Handled
use_db s [] = throws
use_db s (c ∷ cs) = answered (record s { current_db = reverse (drop_spaces (reverse (c ∷ cs))) })

unfoldable pub handle_com_query : Session → Bytes → Handled
unfolding starts_with contains_text use_db
handle_com_query s payload =
    let sql = drop 1 payload in
    let prefix = normalise_prefix sql in
    if starts_with prefix (codes "SET ")
    then answered (record s { autocommit = autocommit_after prefix s.autocommit })
    else if starts_with prefix (codes "USE ")
    then use_db s (skip_blanks (drop 3 sql))
    else if starts_with prefix (codes "BEGIN") || starts_with prefix (codes "START TRANS")
    then answered (record s { in_transaction = true })
    else if starts_with prefix (codes "COMMIT") || starts_with prefix (codes "ROLLBACK")
    then answered (record s { in_transaction = false })
    else forwarded s

-- `routing_error_to_mysql`.
abbrev pub routing_error_to_mysql : RoutingError → ℕ
routing_error_to_mysql no_backend_available = 1040
routing_error_to_mysql pool_queue_full = 1040
routing_error_to_mysql firewall_blocked = 1148
routing_error_to_mysql _ = 1105

-- `is_eof_packet`.
unfoldable pub is_eof_packet : Bytes → Bool
is_eof_packet [] = false
is_eof_packet (b ∷ p) = b == 0xFE && ltb (length (b ∷ p)) 9

-- The first packet of a response that is alone: OK, ERR or LOCAL INFILE.
unfoldable pub is_single : Bytes → Bool
is_single [] = true
is_single (b ∷ p) = b == 0 || b == 0xFF || b == 0xFB

-- One of the two loops of `proxy_result`, over the packets that the backend sends until it fails:
-- those forwarded, and what is left behind the EOF packet if there was one.
unfoldable pub until_eof : List Bytes → List Bytes × Option (List Bytes)
unfolding is_eof_packet
until_eof [] = ([], none)
until_eof (p ∷ ps) =
    let rest = until_eof ps in if is_eof_packet p then (p ∷ [], some ps) else (p ∷ rest.0, rest.1)

-- `proxy_result`: the packets sent to the client, and what is left, if the result was complete.
unfoldable pub proxy_rows : List Bytes × Option (List Bytes) → List Bytes × Option (List Bytes)
proxy_rows (sent, none) = (sent, none)
proxy_rows (sent, some ps) = let rows = until_eof ps in (sent ++ rows.0, rows.1)

unfoldable pub proxy_result : List Bytes → List Bytes × Option (List Bytes)
unfolding until_eof proxy_rows is_single
proxy_result [] = ([], none)
proxy_result (first ∷ ps) =
    let rest = proxy_rows (until_eof ps) in
    if is_single first then (first ∷ [], some ps) else (first ∷ rest.0, rest.1)
