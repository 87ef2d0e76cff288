-- ===== src/Lib.antt =====
-- tansa: serverless discovery of services in a LAN over IPv6.
--
-- A server announces its service to a multicast address and to the neighbors of the host, and then
-- answers requests. A scanner sends a request the same way, and gathers what servers submit to its
-- gRPC service together with the announcements that it hears. Both find neighbors by commands of
-- the operating system.
--
-- A future is a tree of the calls that it makes (`Async`), with one branch for each reply, and a
-- stream is such a tree with items (`Stream`). The replies are open. A statement is about a `Run` of
-- a future, with the calls and replies of the run and its result, or about what a stream shows
-- (`Flows`), so it holds whatever the network and the system reply. `Os` lists the calls. Against an
-- environment that answers every call (`Answer`) a future is executed and always ends; `Os/Works` says
-- which replies are those of a system that works.
--
-- The files, and the code that they model:
--   Server        main/src/server.rs: serve, serve_internal, announce, announce_to_ip_neighbors,
--                 handle_packet, the closure handle, get_response_collector_address
--   Scanner       main/src/scanner.rs: scan, scan_internal, send_requests (its loop is
--                 send_to_neighbors), receive_announcements, extract_service
--   Service       main/src/scanner.rs: Service
--   ResponseCollector  main/src/response_collector.rs: the collector and the handler submit_response
--   ResponseSender     main/src/response_sender.rs
--   Packet        main/src/packet.rs
--   StreamJoin    main/src/stream.rs
--   Process       main/src/process.rs: eval, run, probe, read_stdout
--   Network       main/src/network: UdpSender, UdpReceiver, IpNeighbor with Linux and Windows; the
--                 datagrams of a run in Network/Datagrams
--   Protocol      protocol/rust/src/lib.rs and the messages of protocol/grpc
--   Net           main/src/lib.rs: get_discovery_ip; and the addresses of the standard library, with
--                 their printing in Net/Display and a reader of what is printed below it
--   Cli           cli/src/main.rs
--   Lan           a scanner and any number of servers in a network, as steps: each step is a run of
--                 an operation of Scanner, Server or ResponseCollector. The network may lose, repeat,
--                 delay and reorder; nobody else sends
--   Os            the calls of tokio and tonic
--   Async         futures, streams, their runs, and the combinators of futures-util
--   UnitTests     the unit tests of main/src and protocol/rust/src, run on the model
--   Prelude       shared names, tests on numbers, Result, predicates on lists
--   Tests         a small network, and the theorems at concrete inputs
--
-- The crates are parameters, with their documented behaviour as hypotheses. futures-util is
-- `FuturesUtil` with the laws `IsLawful`: futures run together interleave, `select` interleaves two
-- streams, a concurrent loop polls its stream and what it has begun. `sequential` is one that meets
-- the laws. prost is `Prost`: `IsWireFormat` says that decoding undoes encoding. The channel of
-- futures-channel is `Channel` with `IsChannel`, its receiver included. The readers of csv and
-- serde_json, `UdpFramed` and the router of tonic have no law, but for the theorems on systems that
-- work: there they make no error while the calls succeed (`FramesWell`, `IsRobust`), and
-- the crates can parse what the commands of the scanners for neighbors print, and only that
-- (`IsParsable`; `Works` ties what is read from a process to its command).
--
-- Ports that the code keeps in 16 bits are numbers below 65536, and the fields of messages have 32
-- bits in the code; `try_into_u16` is the conversion that can fail. An address is eight segments
-- below 65536, a premise where it matters, or each is taken modulo 65536. The digits of a number are printed with a bounded number
-- of rounds, one for each digit that a number of its width can have, so none is cut off.
--
-- Streams and futures are well-founded: what never ends is seen through its finite parts. All the
-- code of the crate outside its tests is modelled. Not modelled: logs (but the call inside one is),
-- the parsing of arguments by clap, the gRPC server and the health service of tonic behind their
-- calls, the build script, the tests that start a gRPC server, and the one that needs the multicast
-- loop that builds for tests turn on.
pub mod Prelude
pub mod Async
pub mod Net
pub mod Protocol
pub mod Os
pub mod Process
pub mod Network
pub mod Packet
pub mod StreamJoin
pub mod ResponseSender
pub mod Service
pub mod ResponseCollector
pub mod Scanner
pub mod Server
pub mod Cli
pub mod Lan
pub mod Tests
pub mod UnitTests
