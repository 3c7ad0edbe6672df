-- ===== src/Lib.antt =====
-- DBMesh, a proxy between MySQL clients and a mesh of backends: a model of the program and what holds
-- of it.
--
-- The program. The application (core/src/application.cpp) loads a configuration (core/src/config.cpp),
-- fills the registries of schemas and backends and a pool per backend (pool/src/pool_manager.cpp) from
-- it, and starts the acceptor (protocol/mysql/src/mysql_frontend.cpp). A client's session
-- (protocol/mysql/src/mysql_connection.cpp) reads packets off a socket (packet_framer.cpp, codec.h),
-- shakes hands (handshake.cpp), answers session statements itself and
-- gives every other query to the routing engine (routing/src/routing_engine.cpp). The engine
-- classifies the text (query_classifier.cpp), extracts its schema (schema_extractor.cpp), looks the
-- schema up (schema_registry.cpp), decides on a role (read_write_router.cpp), and has a backend
-- selected (backend_selector.cpp) among the entries of the backend registry (backend_registry.cpp)
-- by a policy (routing_policies.cpp). The session then takes a connection to that backend from its
-- pool (pool/src/connection_pool.cpp), which the connector (backend_connector.cpp) makes, forwards the
-- query and streams the result back. All parts log (core/src/logger.cpp).
--
-- The files.
--   Prelude             tests on numbers, lists over native numbers, C character classes, byte
--                       strings, association lists with the laws of lookup.
--   Core/Types          core/include/dbmesh/core/{types,result}.h.
--   Core/Config         core/include/dbmesh/core/config.h: a record and its default values for each
--                       struct, in Mesh, Services and Edge.
--   Core/Yaml           what config.cpp uses of yaml-cpp, as a record of operations, and config.cpp's
--                       conversions.
--   Core/Parse          config.cpp, `parse_config` and the sections that it reads.
--   Core/Validate       config.cpp, `ConfigLoader::validate`.
--   Core/Load           config.cpp, `ConfigLoader::load` and `ConfigReloader::reload`.
--   Core/Logger         logger.cpp: levels, the file that rotates, the queue of the writer thread.
--   Core/Logger/Lines   logger.cpp: `format_json`, `format_text`, `write_entry`.
--   Routing/Types       routing/include/dbmesh/routing/{errors,session_view,read_write_router,
--                       routing_engine}.h and `ReadWriteRouter::select_role`.
--   Routing/Classifier  query_classifier.cpp. The loops over an index are recursions over the bytes:
--                       a round is told the next byte and says whether it is skipped.
--   Routing/Extractor   schema_extractor.cpp. The scan jumps, so it has fuel: one round per byte
--                       and one more.
--   Routing/Schemas     schema_registry.cpp; the snapshot is a value.
--   Routing/Backends    backend_registry.cpp and backend_entry.h; a pointer to an entry is an index
--                       into the entries made so far, so snapshots share the entries.
--   Routing/Policies    routing_policies.cpp: the objects' counters are a record that is passed on.
--   Routing/Selector    backend_selector.cpp (`filter`, `select`).
--   Routing/Engine      routing_engine.cpp (`plan`).
--   Protocol/Codec      codec.h: writers give bytes, readers give a value and the bytes left.
--   Protocol/Framer     packet_framer.cpp (`encode`, `decode`, `read_packet`, `write_packet`).
--   Protocol/Handshake  handshake.cpp: both packets, both directions, and mysql_native_password.
--   Protocol/Constants  constants.h, as far as it is used.
--   Protocol/Connector  backend_connector.cpp (`connect`) and mysql_backend_connection.cpp
--                       (`validate`): the packets that come in are a list.
--   Protocol/Packets    packets.h: OK, ERR, EOF and the packets of a result set.
--   Pool                connection_pool.cpp: each stretch of a coroutine between two suspensions is
--                       one function, since all of them run on one strand.
--   Pool/Clients        any number of clients of a pool, which take turns at its stretches.
--   Pool/Manager        pool_manager.cpp, and `ConnectionPool::warm`.
--   Frontend            mysql_connection.cpp: `handle_com_query` and `proxy_result`.
--   Frontend/Commands   mysql_connection.cpp: the login, `command_loop` and `handle_command`.
--   Frontend/Route      mysql_connection.cpp: `route_and_forward`, a function for each stretch between
--                       two suspensions, on the mesh that the sessions share.
--   Frontend/Route/Alone the stretches of one query, with nothing between them.
--   Frontend/Acceptor   mysql_frontend.cpp: `accept_loop` and its counters.
--   Application         application.cpp: `start_subsystems`, signals and reloads.
--   Examples            the models at concrete inputs.
-- A child such as Routing/Engine/Safety holds proofs about its parent.
--
-- Numbers. A `uint32_t` or `size_t` is a natural number; counters and sums that can wrap do so with
-- `% 2 ^ w`. A weight is the pattern of an `int`, a double that of its 64 bits. A byte string is a list
-- of numbers.
--
-- Fuel. `extract_loop` has one round more than the text has bytes, which a theorem shows to be
-- enough. The writer of the log is given as many steps as there are entries and three more, which a
-- theorem shows to be enough. `write_loop` and `read_chunks` take the rounds as an argument, and give
-- `none` when these are used up: for a payload that `write_packet` ends on, one round more than it has
-- bytes is enough for `write_loop`.
--
-- Parameters. yaml-cpp (the record `Yaml`), what the file system holds, the order in which an unordered
-- map is walked (`walk`), the generator of random numbers (`uniform`, within the bounds that
-- std::uniform_int_distribution documents), SHA1 (twenty bytes), the greatest size of a `std::string`,
-- the socket (`recv`, `fails`, or the packets that come in, and whether it breaks or is silent behind
-- them), resolving a name, the clock and the text of a time, the factory's answers and the state of a
-- connection's socket. A file that is removed, renamed or opened for appending does what
-- std::filesystem and std::ofstream document.
--
-- Not modelled. The text of a time in the log (`format_ts` of logger.cpp); the PID file, the event
-- loop and the order of the shutdown (application.cpp, main.cpp); opening and binding the acceptor
-- (mysql_frontend.cpp); socket options. All of these are calls of the
-- operating system and of libraries without a decision of the program's own. The command-line client
-- (cli/src/main.cpp) is a placeholder.
pub mod Prelude
pub mod Core
pub mod Routing
pub mod Protocol
pub mod Pool
pub mod Frontend
pub mod Application
mod Examples
