-- ===== src/Examples/Sessions.antt =====
-- Sessions on a freshly started mesh, and sockets that are accepted.
use dbmesh.Prelude.{
  ◌≡◌, refl, arith, true, false, List, [], ◌∷◌, Option, none, some, codes, replicate, length,
  get_elem?, lookup, emplace, assign, bytes_eq,
}
use dbmesh.Core.Types.{ok, primary, q_select}
use dbmesh.Core.Config.{SchemaConfig}
use dbmesh.Routing.Types.{RoutePlan, select_role}
use dbmesh.Routing.Schemas.{lookup_schema, load_map, find_schema, empty_registry}
use dbmesh.Routing.Schemas as S
use dbmesh.Routing.Backends.{BackendEntry}
use dbmesh.Routing.Backends as B
use dbmesh.Routing.Classifier.{classify, split_statements, strip_comments, drop_spaces}
use dbmesh.Routing.Extractor.{
  extract_or, extract, extract_run, extract_loop, extract_round, keyword_at, word_at, after_keyword,
  read_qualified_schema, read_ident, read_bare, read_quoted,
}
use dbmesh.Routing.Policies.{choose, policy_select}
use dbmesh.Routing.Selector.{select, candidates, settle, filter, deref, usable_for_role}
use dbmesh.Routing.Selector.Sound.{InGroup, Fits}
use dbmesh.Routing.Engine.{plan, plan_with, plan_selected, planned_role}
use dbmesh.Pool.Manager.{no_pools}
use dbmesh.Routing.Backends.{ById}
use dbmesh.Routing.Policies.{no_counts}
use dbmesh.Protocol.Framer.{Packet}
use dbmesh.Application.{create_pools, start_subsystems}
use dbmesh.Application.Fresh.{create_pools-Calm, no_pools-Calm}
use dbmesh.Frontend.{Session, starts_with, normalise_prefix, normalise_loop, handle_com_query}
use dbmesh.Frontend.Commands.{command_loop}
use dbmesh.Frontend.Commands.Transaction.{none_ends, command_loop-transaction}
use dbmesh.Frontend.Route.{Mesh, Phase, view_of, no_context}
use dbmesh.Frontend.Route.Returned.{Over, route_alone-Over}
use dbmesh.Frontend.Route.Alone.{Sockets, route_alone}
use dbmesh.Frontend.Acceptor.{Accept, accept_loop, init_acceptor, reject_packet}
use dbmesh.Frontend.Acceptor.Admission.{conn_ids, accept_loop_unbounded}
use dbmesh.Protocol.Connector.Accepted.{packet}
use dbmesh.Protocol.Framer.{encode}
use dbmesh.Protocol.Packets.{make_err, make_ok}
use dbmesh.Protocol.Codec.{le_bytes, write_lenenc_int}
use dbmesh.Frontend.Commands.Entered.{login-encode_response}
use dbmesh.Frontend.Commands.{login, accepted, ok_packet, routes, handle_command, dispatch}
use dbmesh.Protocol.Handshake.{HandshakeResponse41, encode_response}
use dbmesh.Examples.Starting.{cfg, lowest, lowest-Uniform, a_read}

abbrev same : ById → ById
same m = m

abbrev mesh : Mesh
mesh =
    let s = start_subsystems same cfg in
    record {
      schemas = s.schema_registry;
      backends = s.backend_registry;
      routing = cfg.routing;
      counters = no_counts;
      pools = create_pools no_pools cfg.backends;
    }

abbrev session : Session
session = record { current_db = codes "shop"; in_transaction = true; autocommit = true; seq = 0 }

-- The backend sends an OK and breaks off; the client's socket takes it.
abbrev sockets : Sockets
sockets = record {
  backend_fails = λ i. false;
  client_fails = λ j i. false;
  packets = packet 1 ok_packet ∷ [];
  silent = false;
  is_open = true;
}

abbrev lone : Option (Mesh × Phase)
lone = route_alone lowest mesh session a_read 5 none 100 sockets

route_alone-Over_example : (r : Mesh × Phase) × (lone ≡ some r) × Over mesh r.0 r.1
unfolding make_ok le_bytes write_lenenc_int
route_alone-Over_example =
    route_alone-Over lowest mesh session a_read 5 none 100 sockets
      (create_pools-Calm no_pools cfg.backends no_pools-Calm) (omega arith, refl)
      ((omega arith, refl), tt) refl

abbrev packets : List Packet
packets =
    packet 0 (3 ∷ codes "SELECT 1 FROM shop.t")
    ∷ packet 0 (14 ∷ [])
    ∷ packet 0 (3 ∷ codes "UPDATE t SET a = 1")
    ∷ []

none_of_them_ends : none_ends packets ≡ true
unfolding normalise_prefix normalise_loop starts_with
none_of_them_ends = refl

-- The session after the first packet, and the plan of its query.
abbrev inside : Session
inside = record session { seq = 1 }

abbrev to_primary : RoutePlan
to_primary = record {
  query_type = q_select;
  schema = codes "shop";
  plan_backend = codes "p";
  plan_role = primary;
}

first_is_routed :
    get_elem? (command_loop 7 session packets) 0
    ≡ some (routes inside (codes "SELECT 1 FROM shop.t"))
unfolding command_loop handle_command dispatch handle_com_query normalise_prefix normalise_loop
    starts_with
first_is_routed = refl

planned_inside :
    (plan lowest mesh.schemas mesh.backends mesh.routing
      (codes "SELECT 1 FROM shop.t")
      (view_of inside)
      no_context
      mesh.counters).0
    ≡ ok to_primary
unfolding plan plan_with plan_selected planned_role select_role lookup_schema find_schema S.load
    load_map lookup emplace assign bytes_eq extract_or extract extract_run extract_loop
    extract_round keyword_at word_at after_keyword read_qualified_schema read_ident drop_spaces
    read_bare read_quoted classify split_statements strip_comments B.load B.load_entries B.build
    B.index_groups B.get_group B.get_group_by_role B.with_role B.init empty_registry select settle
    candidates filter deref usable_for_role policy_select choose start_subsystems create_pools
planned_inside = refl

command_loop-transaction_example :
    (primary ≡ primary)
    × ((config : SchemaConfig) × (e : BackendEntry) × (lookup_schema mesh.schemas
            (extract_or (codes "SELECT 1 FROM shop.t") inside.current_db)
          ≡ some config)
        × (e.id ≡ codes "p")
        × InGroup mesh.backends config.backend_group e
        × Fits mesh.routing primary e)
command_loop-transaction_example =
    command_loop-transaction 7 session packets 0 inside (codes "SELECT 1 FROM shop.t") lowest mesh
      no_context to_primary refl none_of_them_ends first_is_routed lowest-Uniform planned_inside

accept_loop_unbounded_example :
    let b = accept_loop 2 (replicate 5 Accept.accepted) init_acceptor in
    (b.spawned ≡ conn_ids 1 5) × (length b.spawned ≡ 5) × (b.rejected ≡ 0)
accept_loop_unbounded_example = accept_loop_unbounded 2 5 (omega arith)

-- The packet that a rejected socket gets is the frame of its payload.
reject_test :
    reject_packet ≡ encode (make_err 1040 (codes "08004") (codes "Too many connections")) 0
unfolding reject_packet encode make_err le_bytes
reject_test = refl

abbrev response : HandshakeResponse41
response = record {
  r_flags = 0x88008;
  max_packet = 1000;
  charset = 45;
  username = codes "u";
  auth_response = 1 ∷ 2 ∷ [];
  database = codes "shop";
  auth_plugin = [];
}

-- A client whose authentication data is no hash at all gets in.
login_test :
    login (some (encode_response response))
    ≡ accepted
        (record {
          client_caps = 0x88008;
          username = codes "u";
          session = record {
            current_db = codes "shop";
            in_transaction = false;
            autocommit = true;
            seq = 2;
          };
        })
        ok_packet
unfolding encode_response le_bytes
login_test =
    login-encode_response response (omega arith) (omega arith) (omega arith) (refl, tt)
      (refl, (refl, (refl, (refl, tt)))) tt refl refl (omega arith) (omega arith)
