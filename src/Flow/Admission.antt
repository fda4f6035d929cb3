-- ===== src/Flow/Admission.antt =====
-- Which packets enter a flow, in `shard_loop` of flow/mod.rs.
use bazalt.Prelude.{
  ℕ, ◌+◌, Bool, true, false, not, ◌&&◌, ◌||◌, Option, none, some, is_empty, ltb, leb, if◌then◌else◌,
}
use bazalt.HashMap.{HashMap, lookup, put, contains_key}
use bazalt.FlowKeys.Types.{TransportProtocol, tcp, udp, ParsedPacket}
use bazalt.Flow.Types.{
  Env, Config, SourcePrefix, from_packet, add64, sub64, count, read_clock, flow_key,
  source_prefix_key,
}
use bazalt.Flow.State.{new_flow, is_syn_retransmit}
use bazalt.Flow.Tombstones.{remove_tombstone, contains_live}
use bazalt.Flow.Close.{Shard, close_flow}

abbrev pub is_tcp : TransportProtocol → Bool
is_tcp tcp = true
is_tcp udp = false

-- `flags.syn && !flags.ack`
abbrev pub is_fresh_syn : ParsedPacket → Bool
is_fresh_syn p = is_tcp p.key.protocol && p.flags.syn && not p.flags.ack

-- The tombstones' part: true drops the packet, a control or empty tail of a flow that closed a moment
-- ago.
unfoldable pub check_tombstones : Env → ParsedPacket → Shard → Bool × Shard
check_tombstones env p s =
    let now = read_clock env s.world in
    let held = contains_live p.key now.0 s.tombstones in
    if not (is_tcp p.key.protocol)
    then (false, s)
    else if p.flags.syn && not p.flags.ack
    then (false, record s { tombstones = remove_tombstone p.key s.tombstones })
    else if not (contains_key p.key s.flows) && not p.flags.syn
    then (
      held.0 && (p.flags.fin || p.flags.rst || is_empty p.payload),
      record s { tombstones = held.1; world = now.1 },
    )
    else (false, s)

-- A fresh SYN that is no retransmission ends the flow of its key.
unfoldable pub start_generation : Env → ParsedPacket → Shard → Shard
start_generation env p s = elim (lookup p.key s.flows) [
  | none ↦ s
  | some existing ↦
      if is_fresh_syn p && not (is_syn_retransmit existing p) then close_flow env p.key s else s
]

-- The counter's part of `try_admit_flow`; `none` leaves it as it is.
unfoldable pub try_admit_flow : ℕ → ℕ → Option ℕ
try_admit_flow max_active_flows current =
    if ltb current max_active_flows then some (current + 1) else none

-- `source_counts.entry(source).or_default()`
abbrev pub count_of : SourcePrefix → HashMap SourcePrefix ℕ → ℕ
count_of prefix counts = elim (lookup prefix counts) [ none ↦ 0 | some n ↦ n ]

unfoldable pub or_default : SourcePrefix → HashMap SourcePrefix ℕ → HashMap SourcePrefix ℕ
or_default prefix counts = if contains_key prefix counts then counts else put prefix 0 counts

-- With the global slot taken: the limit of the source prefix, and the new flow.
unfoldable pub admit_source : Env → Config → ParsedPacket → Shard → Bool × Shard
admit_source env cfg p s =
    let prefix = from_packet p in
    let counts = or_default prefix s.source_counts in
    let created = new_flow env p s.world in
    if leb cfg.max_flows_per_source_prefix (count_of prefix counts)
    then (
      false,
      record s {
        source_counts = counts;
        world =
            count
              (λ m. record m {
                active_flows = sub64 m.active_flows 1;
                flow_prefix_rejections = add64 m.flow_prefix_rejections 1;
              })
              s.world;
      },
    )
    else (
      true,
      record s {
        source_counts = put prefix (count_of prefix counts + 1) counts;
        flows = put p.key created.0 s.flows;
        world = created.1;
      },
    )

-- The vacant arm; true is a new flow.
unfoldable pub admit : Env → Config → ParsedPacket → Shard → Bool × Shard
admit env cfg p s =
    if not (env.accepts_destination p)
    then (
      false,
      record s {
        world = count (λ m. record m { packets_filtered = add64 m.packets_filtered 1 }) s.world;
      },
    )
    else elim (try_admit_flow cfg.max_active_flows s.world.metrics.active_flows) [
      | none ↦ (
        false,
        record s {
          world =
              count (λ m. record m { flow_state_rejections = add64 m.flow_state_rejections 1 })
                s.world;
        },
      )
      | some active ↦
          admit_source env cfg p
            (record s { world = count (λ m. record m { active_flows = active }) s.world })
    ]
