-- ===== src/Frontend/Commands/Transaction.antt =====
-- mysql_connection.cpp: what a transaction means for the queries of a session.
use dbmesh.Prelude.{
  ℕ, ◌≡◌, refl, arith, Bool, true, false, not, ◌&&◌, ◌||◌, List, [], ◌∷◌, ◌++◌, Bytes, codes, drop,
  if◌then◌else◌, ◌==◌, ◌∙◌, zero, suc, get_elem?, some, ap, sym,
}
use dbmesh.Core.Types.{ok, primary, QueryType}
use dbmesh.Core.Config.{SchemaConfig, RoutingConfig}
use dbmesh.Routing.Types.{SessionView, RoutePlan, select_role}
use dbmesh.Routing.Extractor.{extract_or}
use dbmesh.Routing.Schemas.{lookup_schema}
use dbmesh.Routing.Backends.{BackendEntry}
use dbmesh.Routing.Policies.{Context}
use dbmesh.Routing.Policies.Picks.{Uniform}
use dbmesh.Routing.Selector.Sound.{InGroup, Fits}
use dbmesh.Routing.Engine.{plan, planned_role}
use dbmesh.Routing.Engine.Safety.{plan-primary}
use dbmesh.Protocol.Framer.{Packet, next_seq}
use dbmesh.Protocol.Packets.{make_eof, make_err}
use dbmesh.Protocol.Constants.{
  cmd_query, cmd_quit, cmd_ping, cmd_init_db, cmd_field_list, cmd_statistics, cmd_set_option,
  autocommit_status, unknown_com_error,
}
use dbmesh.Frontend.{
  Session, Handled, answered, forwarded, starts_with, normalise_prefix, use_db, handle_com_query,
}
use dbmesh.Frontend.Route.{Mesh, view_of}
use dbmesh.Frontend.Commands.{
  is_stmt, ok_packet, to_string, Outcome, quits, replies, routes, dies, of_query, dispatch,
  handle_com_init_db, handle_command, command_loop,
}

-- Whether a text ends a transaction.
abbrev pub is_end : Bytes → Bool
is_end sql =
    let prefix = normalise_prefix sql in
    starts_with prefix (codes "COMMIT") || starts_with prefix (codes "ROLLBACK")

-- Whether a packet is a query that does.
abbrev pub ends : Packet → Bool
ends pkt = elim pkt.payload [ [] ↦ false | b ∷ sql ↦ b == cmd_query && is_end sql ]

abbrev pub none_ends : List Packet → Bool
none_ends [] = true
none_ends (p ∷ ps) = not (ends p) && none_ends ps

-- The sessions with which queries are routed are in a transaction.
abbrev AllInside : List Outcome → Type 0
AllInside [] = Unit
AllInside (routes s sql ∷ os) = (s.in_transaction ≡ true) × AllInside os
AllInside (_ ∷ os) = AllInside os

AllInside-at :
    (os : List Outcome) (i : ℕ) {s : Session} {sql : Bytes}
    → AllInside os
    → get_elem? os i ≡ some (routes s sql)
    → s.in_transaction ≡ true
AllInside-at [] i h e = cc
AllInside-at (routes s' b ∷ os) zero {s} h e =
    let same : s' ≡ s = cc in ap (λ (x : Session). x.in_transaction) (sym same) ∙ h.0
AllInside-at (routes s' b ∷ os) (suc i) h e = AllInside-at os i h.1 e
AllInside-at (quits ∷ os) zero h e = cc
AllInside-at (quits ∷ os) (suc i) h e = AllInside-at os i h e
AllInside-at (dies ∷ os) zero h e = cc
AllInside-at (dies ∷ os) (suc i) h e = AllInside-at os i h e
AllInside-at (replies s' b ∷ os) zero h e = cc
AllInside-at (replies s' b ∷ os) (suc i) h e = AllInside-at os i h e

-- The session of an outcome is in a transaction.
abbrev Inside : Outcome → Type 0
Inside (replies s b) = s.in_transaction ≡ true
Inside (routes s sql) = s.in_transaction ≡ true
Inside _ = Unit

planned_role-inside :
    (type : QueryType) (session : SessionView) (config : SchemaConfig) (routing : RoutingConfig)
    → session.in_transaction ≡ true
    → planned_role type session config routing ≡ primary
unfolding planned_role select_role
planned_role-inside type session config routing h = ground (arith, h)

use_db-Inside :
    (s : Session) (payload db : Bytes)
    → s.in_transaction ≡ true
    → Inside (of_query payload (use_db s db))
unfolding use_db
use_db-Inside s payload [] h = tt
use_db-Inside s payload (c ∷ cs) h = h

if-Inside :
    (payload : Bytes) (b : Bool) (x y : Handled)
    → (b ≡ true → Inside (of_query payload x))
    → (b ≡ false → Inside (of_query payload y))
    → Inside (of_query payload (if b then x else y))
if-Inside payload true x y h k = h refl
if-Inside payload false x y h k = k refl

end-Inside :
    (s : Session) (payload : Bytes) (b : Bool)
    → s.in_transaction ≡ true
    → b ≡ false
    → Inside (
        of_query payload
          (if b then answered (record s { in_transaction = false }) else forwarded s))
end-Inside s payload true h e = cc
end-Inside s payload false h e = h

query-Inside :
    (s : Session) (payload : Bytes)
    → s.in_transaction ≡ true
    → is_end (drop 1 payload) ≡ false
    → Inside (of_query payload (handle_com_query s payload))
unfolding handle_com_query
query-Inside s payload h e =
    let prefix = normalise_prefix (drop 1 payload) in
    if-Inside payload (starts_with prefix (codes "SET ")) _ _ (λ t. h)
      (λ f.
        if-Inside payload (starts_with prefix (codes "USE ")) _ _ (λ t. use_db-Inside s payload _ h)
          (λ f.
            if-Inside payload
              (starts_with prefix (codes "BEGIN") || starts_with prefix (codes "START TRANS")) _ _
              (λ t. refl) (λ f. end-Inside s payload (is_end (drop 1 payload)) h e)))

if-Outcome :
    (b : Bool) (x y : Outcome)
    → (b ≡ true → Inside x)
    → (b ≡ false → Inside y)
    → Inside (if b then x else y)
if-Outcome true x y h k = h refl
if-Outcome false x y h k = k refl

init_db-Inside :
    (s : Session) (payload : Bytes)
    → s.in_transaction ≡ true
    → Inside (handle_com_init_db s payload)
init_db-Inside s payload h = ground arith

second_false : (a b : Bool) → a ≡ true → (a && b) ≡ false → b ≡ false
second_false true b h e = e
second_false false b h e = cc

-- The commands behind `COM_QUERY` in the `switch` answer and leave the session as it is.
rest-Inside :
    (id : ℕ) (s : Session) (command : ℕ) (payload : Bytes)
    → s.in_transaction ≡ true
    → Inside (
        if command == cmd_field_list
        then replies s (make_eof 0 autocommit_status)
        else if command == cmd_statistics
        then replies s (codes "DBMesh connection_id=" ++ to_string id)
        else if command == cmd_set_option
        then replies s ok_packet
        else if is_stmt command
        then replies s (
            make_err unknown_com_error
              (codes "08S01")
              (codes "Binary protocol not yet supported (Milestone 1.19)"))
        else replies s (
            make_err unknown_com_error
              (codes "08S01")
              (codes "Unknown command " ++ to_string command)))
rest-Inside id s command payload h =
    if-Outcome (command == cmd_field_list) _ _ (λ t. h)
      (λ f.
        if-Outcome (command == cmd_statistics) _ _ (λ t. h)
          (λ f.
            if-Outcome (command == cmd_set_option) _ _ (λ t. h)
              (λ f. if-Outcome (is_stmt command) _ _ (λ t. h) (λ f. h))))

dispatch-Inside :
    (id : ℕ) (s : Session) (command : ℕ) (payload : Bytes)
    → s.in_transaction ≡ true
    → (command == cmd_query && is_end (drop 1 payload)) ≡ false
    → Inside (dispatch id s command payload)
unfolding dispatch
dispatch-Inside id s command payload h e =
    if-Outcome (command == cmd_quit) _ _ (λ t. tt)
      (λ f.
        if-Outcome (command == cmd_ping) _ _ (λ t. h)
          (λ f.
            if-Outcome (command == cmd_init_db) _ _ (λ t. init_db-Inside s payload h)
              (λ f.
                if-Outcome (command == cmd_query) _ _
                  (λ t. query-Inside s payload h (second_false _ _ t e))
                  (λ f. rest-Inside id s command payload h))))

handle_command-Inside :
    (id : ℕ) (s : Session) (pkt : Packet)
    → s.in_transaction ≡ true
    → ends pkt ≡ false
    → Inside (handle_command id s pkt)
unfolding handle_command
handle_command-Inside id s pkt h e = split pkt.payload refl
  where
    split : (payload : Bytes) → pkt.payload ≡ payload → Inside (handle_command id s pkt)
    split [] q = rw (q, handle_command) tt
    split (b ∷ rest) q =
        rw (q, handle_command)
          (dispatch-Inside id (record s { seq = next_seq pkt.sequence }) b (b ∷ rest) h (rw q at e))

on-AllInside :
    (id : ℕ) (s : Session) (pkt : Packet) (pkts : List Packet)
    → Inside (handle_command id s pkt)
    → ((s' : Session) → s'.in_transaction ≡ true → AllInside (command_loop id s' pkts))
    → AllInside (command_loop id s (pkt ∷ pkts))
unfolding command_loop
on-AllInside id s pkt pkts h rest = split (handle_command id s pkt) refl h
  where
    split :
        (o : Outcome)
        → handle_command id s pkt ≡ o
        → Inside o
        → AllInside (command_loop id s (pkt ∷ pkts))
    split quits q i = rw (q, command_loop) tt
    split dies q i = rw (q, command_loop) tt
    split (replies s' b) q i = rw (q, command_loop) (rest s' i)
    split (routes s' sql) q i = rw (q, command_loop) (i, rest s' i)

command_loop-AllInside :
    (id : ℕ) (s : Session) (pkts : List Packet)
    → s.in_transaction ≡ true
    → none_ends pkts ≡ true
    → AllInside (command_loop id s pkts)
unfolding command_loop
command_loop-AllInside id s [] h n = tt
command_loop-AllInside id s (pkt ∷ pkts) h n =
    on-AllInside id s pkt pkts (handle_command-Inside id s pkt h (ground (arith, n)))
      (λ s' h'. command_loop-AllInside id s' pkts h' (ground (arith, n)))

-- In a session that is in a transaction, each query that is routed before a `COMMIT` or `ROLLBACK`,
-- whatever other commands stand between, goes to a primary: if it is planned, on whatever mesh there
-- is by then, the plan's role is the primary, and its backend is an entry of the schema's group that
-- has the primary's role and is usable for it. The draws keep their bounds.
pub command_loop-transaction :
    (id : ℕ) (s : Session) (pkts : List Packet) (i : ℕ) (s' : Session) (sql : Bytes)
    (uniform : ℕ → ℕ → ℕ) (m : Mesh) (ctx : Context) (p : RoutePlan)
    → s.in_transaction ≡ true
    → none_ends pkts ≡ true
    → get_elem? (command_loop id s pkts) i ≡ some (routes s' sql)
    → Uniform uniform
    → (plan uniform m.schemas m.backends m.routing sql (view_of s') ctx m.counters).0 ≡ ok p
    → (p.plan_role ≡ primary)
      × ((config : SchemaConfig) × (e : BackendEntry) × (lookup_schema m.schemas
              (extract_or sql s'.current_db)
            ≡ some config)
          × (e.id ≡ p.plan_backend)
          × InGroup m.backends config.backend_group e
          × Fits m.routing primary e)
command_loop-transaction id s pkts i s' sql uniform m ctx p h n at law made =
    let inside =
      AllInside-at (command_loop id s pkts) i (command_loop-AllInside id s pkts h n) at in
    plan-primary uniform m.backends m.routing (view_of s') ctx m.counters m.schemas sql law made
      refl (λ type config. planned_role-inside type (view_of s') config m.routing inside)
