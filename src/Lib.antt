-- ===== src/Lib.antt =====
-- BAZALT: the capture and flow core of a traffic analyser, with its stream reassembly.
--
-- Packets are captured, defragmented and decoded (capture/), handed to a flow engine that keeps one
-- `TcpHalf` per direction of a TCP flow (flow/mod.rs), reassembled into ordered chunks with explicit
-- gaps (flow/reassembly.rs), parsed as HTTP (http/), matched against patterns (matching/) and stored
-- (storage/). All paths are below src/ of the repository.
--
-- Parts
-- Prelude (Lists, Words, Loops): lists and Boolean tests over the native numbers, `saturating_add`
--   and the wrapping 32-bit arithmetic of Rust, and loops on fuel with their rules.
-- BTreeMap: `std::collections::BTreeMap<u64, _>` as a list in the order of its keys, with the range
--   queries that the code makes.
-- HashMap (Laws): a hash map as the list that its iterators walk, over an interface for the equality of
--   keys, which `FragmentKey` fills.
-- Fragments: capture/fragment.rs. Types: the data types. Pieces: what `FragmentCache::insert` checks
--   about a fragment (`judge`) and the store of a piece. Cache: `remove_key`, `try_complete`,
--   `evict_oldest`, `maintenance` and `insert` (`insert_fragment`). Shared: `SharedFragmentCache`
--   (`new_shared`, `insert_shared`). The clock and the randomised hash are arguments.
-- Net: `IpAddr`, shared by Fragments and FlowKeys.
-- Decoder: capture/parser.rs. Types: the state, results and reads. Domain: `mix_domain` and
--   `mix_tunnel_domain`. Headers: the loops over VLAN tags, IPv6 extension headers and GRE routes.
--   Payload: `parse_tcp`, `decode_udp`, `decode_gre` (with `walk_gre`, `enter_gre`) and
--   `decode_ip_payload`. Network: `decode_ipv4`, `decode_ipv6`, `decode_ipv6_post_fragment` and the
--   fragment arms. Layers: `decode_ethernet_bytes`, `decode`, `parse_ethernet_frame`. The mutual
--   recursion through tunnels is built by levels, of which `decode` takes one more than the bound on
--   tunnels. A panic at an index or a slice out of range (`reads`, `slices`) and spent fuel are the result
--   `stuck`. Fuel, Runs, Total: the ends of the loops and of each decoder. Truncated: frames that end too
--   early. Wire, Vlan, Frames: frames as the protocols write them, and what is decoded of them.
-- FlowKeys: model.rs. Types: endpoints, keys, packets and `shard_hash64`. Order: `Ord for Endpoint`.
--   Canonical: `FlowKey::canonical_with_domain`.
-- Segments: storage/segment.rs. Codec: `encode_record`, `decode_record` and the field readers; an error is
--   `none`, and `String::from_utf8_lossy` is an argument. Files: the writer (`prepare_record`,
--   `write_prepared`), `read_record`, `read_record_at`, `read_many_at`, `scan_path` and `recover_last_segment_tail` on the bytes of a file;
--   CRC-32 is an argument. Frames, Recovery, Crash: what the reads find in what the writer wrote.
--   Budget: the budgets of the writer, with the rotations that the store's thread asks for. Reads:
--   the reads by offset.
-- Affinity: the worker layout of affinity.rs. Stages: `default_cpu_budget`, `distribute_stage_workers`.
--   Plan: `take_wrapping` and `adaptive_plan`, whose CPU counts are arguments.
-- Flow: flow/mod.rs, over Reassembly. Types: the data types; what the engine takes from outside is `Env`,
--   and `World` has its counters and output. State: `FlowState`. Tombstones (Recent, Refines):
--   `TcpTombstones`. Close: `emit_tcp_outcome`, `finalize_tcp_halves`, `close_flow` and the state `Shard`.
--   Packet: what a packet does to its flow (`take_packet`). Admission: which packets enter a flow
--   (`check_tombstones`, `start_generation`, `admit`). Shard: the packet's arm of `shard_loop`
--   (`handle_packet`, false for a `continue`). Timers (Heap, Timed): the due timers, the compaction, the
--   turns of the loop (`shard_turns`) and the drain. Carries, Effects: what a packet leaves as it was.
--   Counts, Sane, Accounts: slots and counts. Lifetimes: timers over the turns.
-- Reassembly: flow/reassembly.rs. A `&mut self` method that also writes to the outcome maps a `Ctx`,
--   the half with its outcome, to a `Ctx`.
--   Types: the data types and `extend_seq`. Half: `observe`, `emit`, `emit_gap_to`, `flush_ooo`,
--   `consume_fin_if_ready`. Insert: `insert_ooo_first_seen`. Recover: `recover_known_ack`,
--   `recover_ooo_timeout`, `recover_ooo_pressure`, `finalize`. Accept: `accept`, `acknowledge`.
--   Steps: each method as a sequence of elementary steps, on which the invariants go by induction.
--
-- Bounds and fuel
-- A `u64` is a natural number; `saturating_add` stops at 2^64 - 1. A byte is a natural number: the
-- code moves bytes and compares them. A loop runs on fuel, with the measure that bounds its rounds:
-- the number of buffered segments, of buffered bytes or of datagrams, or the length of the new segment.
-- The rule `run_loop_exit` takes a measure that is below the fuel and that each round lowers; the loop
-- then ends by its own test, so the fuel is enough. The loops of the decoder and of the segment files
-- run on the number of bytes left, of which each round takes eight, four or twelve at least; the loop
-- over due timers runs on the number of timers, of which each round leaves fewer due ones.
--
-- Not modelled
-- Locks, threads and channels, so that one operation on a shard or a store is one step; packet I/O, HTTP,
-- matching, directories and the databases of the stores, and the web API. In the files of segments an I/O
-- error is not modelled.
pub mod Affinity
pub mod BTreeMap
pub mod Decoder
pub mod Flow
pub mod FlowKeys
pub mod Fragments
pub mod HashMap
pub mod Net
pub mod Prelude
pub mod Reassembly
pub mod Segments
