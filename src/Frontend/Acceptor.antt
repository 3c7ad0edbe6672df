-- ===== src/Frontend/Acceptor.antt =====
-- protocol/mysql/src/mysql_frontend.cpp: the acceptor. Only its own coroutine touches the counters,
-- and it does not suspend between two accepts.
pub mod Admission
use dbmesh.Prelude.{
  ℕ, ◌+◌, ◌-◌, ◌/◌, ◌%◌, ◌^◌, Bool, true, false, List, [], ◌∷◌, ◌++◌, Bytes, codes, if◌then◌else◌,
  leb, length,
}
use dbmesh.Protocol.Packets.{make_err}
use dbmesh.Protocol.Constants.{con_count_error}

-- `reject_connection`: what is written before the socket is closed.
unfoldable pub reject_packet : Bytes
reject_packet =
    let payload = make_err con_count_error (codes "08004") (codes "Too many connections") in
    let len = length payload % 2 ^ 32 in
    len % 256 ∷ len / 2 ^ 8 % 256 ∷ len / 2 ^ 16 % 256 ∷ 0 ∷ payload

-- What `async_accept` gives.
pub data Accept : Type 0 where
  operation_aborted accept_failed accepted : Accept

-- The counters; the numbers of the connections started, and how many sockets were rejected.
pub record Acceptor : Type 0 where
  pub next_conn_id : ℕ
  pub active_conns : ℕ
  pub spawned : List ℕ
  pub rejected : ℕ

unfoldable pub init_acceptor : Acceptor
init_acceptor = record { next_conn_id = 1; active_conns = 0; spawned = []; rejected = 0 }

-- A socket: `active_conns_` goes up, the session is spawned, and it goes down again.
unfoldable pub admit : ℕ → Acceptor → Acceptor
admit max_conns a =
    let up = (a.active_conns + 1) % 2 ^ 32 in
    if leb max_conns a.active_conns then record a { rejected = a.rejected + 1 } else record {
      next_conn_id = (a.next_conn_id + 1) % 2 ^ 32;
      active_conns = (up + 2 ^ 32 - 1) % 2 ^ 32;
      spawned = a.spawned ++ a.next_conn_id ∷ [];
      rejected = a.rejected;
    }

-- `accept_loop`, over what the accepts give.
unfoldable pub accept_loop : ℕ → List Accept → Acceptor → Acceptor
unfolding admit
accept_loop max_conns [] a = a
accept_loop max_conns (operation_aborted ∷ rest) a = a
accept_loop max_conns (accept_failed ∷ rest) a = accept_loop max_conns rest a
accept_loop max_conns (accepted ∷ rest) a = accept_loop max_conns rest (admit max_conns a)
