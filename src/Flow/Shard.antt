-- ===== src/Flow/Shard.antt =====
-- The handler of a packet in `shard_loop` of flow/mod.rs.
use bazalt.Prelude.{ℕ, ◌+◌, Bool, true, false, none, some, ◌∷◌, if◌then◌else◌}
use bazalt.HashMap.{lookup, put}
use bazalt.FlowKeys.Types.{TransportProtocol, tcp, udp, ParsedPacket}
use bazalt.Flow.Types.{Env, Config, FlowState, add64, read_clock, flow_key}
use bazalt.Flow.State.{should_close}
use bazalt.Flow.Tombstones.{insert_tombstone}
use bazalt.Flow.Close.{Shard, close_flow}
use bazalt.Flow.Packet.{take_packet}
use bazalt.Flow.Admission.{is_tcp, check_tombstones, start_generation, admit}

abbrev pub timeout_of : Config → TransportProtocol → ℕ
timeout_of cfg tcp = cfg.tcp_idle_timeout
timeout_of cfg udp = cfg.udp_idle_timeout

-- The one timer of a flow's lifetime.
unfoldable pub schedule : Env → Config → ParsedPacket → FlowState → Shard → Shard
schedule env cfg p f s =
    let now = read_clock env s.world in
    let serial = add64 s.serial 1 in
    record s {
      serial = serial;
      timers =
          record {
            deadline = now.0 + timeout_of cfg p.key.protocol;
            serial = serial;
            key = p.key;
            flow_id = f.id;
          }
          ∷ s.timers;
      world = now.1;
    }

-- The tombstone and the end of a flow that closes.
unfoldable pub close_with_tombstone : Env → ParsedPacket → Shard → Shard
close_with_tombstone env p s =
    let now = read_clock env s.world in
    let buried : Shard = record s {
      tombstones = insert_tombstone p.key now.0 s.tombstones;
      world = now.1;
    } in
    close_flow env p.key (if is_tcp p.key.protocol then buried else s)

-- A packet in its flow, up to the end of the arm.
unfoldable pub deliver : Env → Config → ParsedPacket → Bool → FlowState → Shard → Shard
deliver env cfg p is_new f s =
    let taken = take_packet env cfg p f s.world in
    let stored : Shard = record s { flows = put p.key taken.1 s.flows; world = taken.2 } in
    if should_close taken.1 taken.0
    then close_with_tombstone env p stored
    else if is_new
    then schedule env cfg p taken.1 stored
    else stored

-- The `Ok(packet)` arm, less the metrics of the queue; false is its `continue`.
unfoldable pub handle_packet : Env → Config → ParsedPacket → Shard → Bool × Shard
handle_packet env cfg p s0 =
    let checked = check_tombstones env p s0 in
    let s = start_generation env p checked.1 in
    let admitted = admit env cfg p s in
    if checked.0 then (false, checked.1) else elim (lookup p.key s.flows) [
      | some f ↦ (true, deliver env cfg p false f s)
      | none ↦ elim (lookup p.key admitted.1.flows) [
        | none ↦ (false, admitted.1)
        | some f ↦
            if admitted.0 then (true, deliver env cfg p true f admitted.1) else (false, admitted.1)
      ]
    ]
