-- ===== src/Flow/Tests.antt =====
-- Runs of flow/mod.rs, and the theorems at concrete inputs.
use bazalt.Prelude.{
  ℕ, ◌+◌, ◌*◌, ◌≤◌, ◌≡◌, ◌⊎◌, refl, true, false, none, some, List, [], ◌∷◌, length, ltb,
  if◌then◌else◌, run_loop, arith,
}
use bazalt.Net.{v4}
use bazalt.HashMap.{lookup, put, delete}
use bazalt.FlowKeys.Types.{FlowKey, ParsedPacket, a_to_b, udp}
use bazalt.Reassembly.Half.{reserve_udp_offset}
use bazalt.Flow.Types.{
  Env, Config, World, FlowState, prefix4, from_packet, send, read_clock, flow_key,
  source_prefix_key, same_flow_key,
}
use bazalt.Flow.State.{
  new_flow, half, set_half, is_syn_retransmit, count_packet, should_close, summary,
}
use bazalt.Flow.Tombstones.{
  tcp_tombstone_ttl, tcp_tombstone_max, no_tombstones, forget, expire_from, shrink_from,
  insert_tombstone, remove_tombstone, contains_live,
}
use bazalt.Flow.Recent.{IsKept, holds, insert_tombstone-IsKept}
use bazalt.Flow.Refines.{tombstones_refine}
use bazalt.Flow.Close.{
  Shard, send_chunks, emit_tcp_outcome, finalize_both, finalize_tcp_halves, report_closed,
  release_source, close_flow,
}
use bazalt.Flow.Packet.{
  judge_reset, take_ack, take_payload, take_tcp, take_udp, take_snapshot, take_content, take_packet,
}
use bazalt.Flow.Admission.{
  check_tombstones, start_generation, try_admit_flow, or_default, admit_source, admit, count_of,
}
use bazalt.Flow.Shard.{schedule, close_with_tombstone, deliver, handle_packet, timeout_of}
use bazalt.Flow.Timers.{
  pop_timer, fire, timer_round, fire_timers, rebuild, compact, tend_timers, received, timed_out,
  shard_turn, shard_turns, drain, new_shard,
}
use bazalt.Flow.Heap.{NoneDue}
use bazalt.Flow.Sane.{IsSane}
use bazalt.Flow.Carries.{active}
use bazalt.Flow.Accounts.{shard_turns-IsSane, drain_lem}
use bazalt.Flow.Timed.{IsTimed}
use bazalt.Flow.Lifetimes.{rebuild-HasTimer, timers_lem}

abbrev env : Env
env = record {
  clock = λ n. n * 1_000_000_000;
  uuid = λ n. n;
  accepts = λ n. true;
  accepts_destination = λ p. true;
}

abbrev cfg : Config
cfg = record {
  tcp_gap_timeout_ns = 500_000_000;
  max_active_flows = 2;
  max_flows_per_source_prefix = 1;
  max_ooo_bytes = 1_000;
  max_ooo_segments = 16;
  tcp_idle_timeout = 60_000_000_000;
  udp_idle_timeout = 1_000_000_000;
  live_flow_update_interval = 5_000_000_000;
}

abbrev world : World
world = record {
  metrics = record {
    active_flows = 0;
    packets_filtered = 0;
    flow_state_rejections = 0;
    flow_prefix_rejections = 0;
    packets_received = 0;
    packet_bytes = 0;
    tcp_rejected_resets = 0;
    tcp_retransmits = 0;
    tcp_out_of_order = 0;
    tcp_gap_events = 0;
    tcp_gap_bytes = 0;
    flows_completed = 0;
  };
  sent = [];
  sends = 0;
  readings = 0;
  uuids = 0;
}

abbrev key_of : ℕ → FlowKey
key_of port = record {
  a = record { ip = v4 0x0a00_0001; port = port };
  b = record { ip = v4 0x0a00_0102; port = 53 };
  protocol = udp;
  l2_domain = 0;
}

abbrev datagram : ℕ → List ℕ → ParsedPacket
datagram port bytes = record {
  ts_ns = 7;
  key = key_of port;
  direction = a_to_b;
  seq = none;
  ack = none;
  flags = record { fin = false; syn = false; rst = false; psh = false; ack = false };
  payload = bytes;
  wire_len = 60;
}

handle : ParsedPacket → Shard → Shard
unfolding run_loop lookup put delete from_packet send read_clock new_flow half set_half
    is_syn_retransmit count_packet should_close summary forget expire_from shrink_from
    insert_tombstone remove_tombstone contains_live send_chunks emit_tcp_outcome finalize_both
    finalize_tcp_halves report_closed release_source close_flow judge_reset take_ack take_payload
    take_tcp take_udp take_snapshot take_content take_packet check_tombstones start_generation
    try_admit_flow or_default admit_source admit schedule close_with_tombstone deliver handle_packet
    reserve_udp_offset
handle p s = (handle_packet env cfg p s).1

started : Shard
unfolding new_shard
started = new_shard world

first : Shard
unfolding handle started
first = handle (datagram 5_000 (1 ∷ 2 ∷ [])) started

-- The counters of a shard and the sizes of its collections.
abbrev report : Shard → List ℕ
report s =
    active s.world
    ∷ s.world.metrics.flow_prefix_rejections
    ∷ length s.flows
    ∷ length s.timers
    ∷ length s.source_counts
    ∷ length s.world.sent
    ∷ []

-- The first datagram is sent with its snapshot, the flow is counted and has its timer.
opens_flow : report first ≡ 1 ∷ 0 ∷ 1 ∷ 1 ∷ 1 ∷ 2 ∷ []
unfolding first
opens_flow = refl

-- A second flow of the same source passes the limit of the prefix, and gives its slot back.
refused : Shard
unfolding handle first
refused = handle (datagram 6_000 (1 ∷ [])) first

limits_source : report refused ≡ 1 ∷ 1 ∷ 1 ∷ 1 ∷ 1 ∷ 2 ∷ []
unfolding refused
limits_source = refl

-- An idle flow is closed by its timer.
expired : Shard
unfolding first run_loop tend_timers fire_timers timer_round pop_timer fire compact close_flow
    lookup delete report_closed finalize_tcp_halves release_source send summary read_clock
expired = fire_timers env cfg 100_000_000_000 first

expires_flow : report expired ≡ 0 ∷ 0 ∷ 0 ∷ 0 ∷ 0 ∷ 3 ∷ []
unfolding expired
expires_flow = refl

-- A turn with a refused packet does not look at the timers, however late it is; a turn without a packet
-- closes the idle flow.
abbrev late : Env
late = record env { clock = λ n. n * 1_000_000_000_000; accepts_destination = λ p. false }

after_refusal : Shard
unfolding handle first shard_turn
after_refusal = shard_turn late cfg (received (datagram 6_000 (1 ∷ []))) first

refusal_skips_timers : report after_refusal ≡ 1 ∷ 0 ∷ 1 ∷ 1 ∷ 1 ∷ 2 ∷ []
unfolding after_refusal
refusal_skips_timers = refl

after_timeout : Shard
unfolding first shard_turn run_loop tend_timers fire_timers timer_round pop_timer fire compact
    close_flow lookup delete report_closed finalize_tcp_halves release_source send summary
    read_clock
after_timeout = shard_turn late cfg timed_out first

timeout_closes : report after_timeout ≡ 0 ∷ 0 ∷ 0 ∷ 0 ∷ 0 ∷ 3 ∷ []
unfolding after_timeout
timeout_closes = refl

no_tombstones-IsKept : IsKept no_tombstones
unfolding lookup
no_tombstones-IsKept = record {
  distinct = tt;
  covers = λ k d found. absurd (cc);
  bounded = omega arith;
}

tombstones_refine_example :
    let t = insert_tombstone (key_of 5_000) 3 no_tombstones in
    ((contains_live (key_of 6_000) 4 t).0 ≡ holds t.by_key (key_of 6_000) 4)
    × (holds (contains_live (key_of 6_000) 4 t).1.by_key (key_of 5_000) 9
        ≡ holds t.by_key (key_of 5_000) 9)
    × (holds (remove_tombstone (key_of 6_000) t).by_key (key_of 5_000) 9 ≡ (
        if same_flow_key (key_of 5_000) (key_of 6_000)
        then false
        else holds t.by_key (key_of 5_000) 9))
    × ((length t.by_key ≡ tcp_tombstone_max)
        ⊎ (holds (insert_tombstone (key_of 6_000) 4 t).by_key (key_of 5_000) 9 ≡ (
            if same_flow_key (key_of 5_000) (key_of 6_000)
            then ltb 9 (4 + tcp_tombstone_ttl)
            else holds t.by_key (key_of 5_000) 9)))
tombstones_refine_example =
    tombstones_refine (key_of 6_000) (key_of 5_000) 4 9
      (insert_tombstone (key_of 5_000) 3 no_tombstones) (omega arith)
      (insert_tombstone-IsKept (key_of 5_000) 3 no_tombstones no_tombstones-IsKept)

-- Another shard holds one flow.
abbrev others_one : World
others_one = record world { metrics = record (world.metrics) { active_flows = 1 } }

new_shard-IsSane : IsSane cfg 1 (new_shard others_one)
unfolding new_shard lookup
new_shard-IsSane = record {
  distinct = tt;
  halves = tt;
  counter = refl;
  within = omega arith;
  entries = tt;
  counted = λ p. refl;
  per_source = λ p. omega arith;
  kept = no_tombstones-IsKept;
}

shard_turns-IsSane_example : IsSane cfg 1 (
    shard_turns env cfg
      (received (datagram 5_000 (1 ∷ [])) ∷ timed_out ∷ [])
      (new_shard others_one))
shard_turns-IsSane_example =
    shard_turns-IsSane env cfg 1 (omega arith) (received (datagram 5_000 (1 ∷ [])) ∷ timed_out ∷ [])
      (new_shard others_one) new_shard-IsSane

drain_lem_example :
    let t =
      drain env
        (shard_turns env cfg (received (datagram 5_000 (1 ∷ [])) ∷ []) (new_shard others_one)) in
    (t.flows ≡ []) × (active t.world ≡ 1) × (count_of (prefix4 0x0a_0000) t.source_counts ≡ 0)
drain_lem_example =
    drain_lem env cfg 1 (prefix4 0x0a_0000)
      (shard_turns env cfg (received (datagram 5_000 (1 ∷ [])) ∷ []) (new_shard others_one))
      (omega arith)
      (shard_turns-IsSane env cfg 1 (omega arith) (received (datagram 5_000 (1 ∷ [])) ∷ [])
        (new_shard others_one) new_shard-IsSane)

-- A shard with one flow and its timer.
idle_flow : FlowState
idle_flow = (new_flow env (datagram 5_000 []) world).0

one_flow : Shard
one_flow = record (new_shard world) {
  flows = (key_of 5_000, idle_flow) ∷ [];
  timers = rebuild cfg ((key_of 5_000, idle_flow) ∷ []) 0;
}

one_flow-IsTimed : IsTimed one_flow
unfolding one_flow lookup
one_flow-IsTimed = record {
  distinct = (refl, tt);
  timed = λ key f there. rebuild-HasTimer cfg key f ((key_of 5_000, idle_flow) ∷ []) 0 there;
}

still_there :
    lookup (key_of 5_000) (shard_turns env cfg (timed_out ∷ []) one_flow).flows ≡ some idle_flow
unfolding shard_turns shard_turn one_flow lookup tend_timers fire_timers run_loop timer_round
    pop_timer rebuild compact read_clock idle_flow new_flow new_shard
still_there = refl

timers_lem_example :
    let t = fire_timers env cfg 9 (shard_turns env cfg (timed_out ∷ []) one_flow) in
    NoneDue 9 t.timers
    × IsTimed t
    × ((idle_flow.last_activity + timeout_of cfg idle_flow.key.protocol ≤ 9)
        ⊎ (lookup (key_of 5_000) t.flows ≡ some idle_flow))
timers_lem_example =
    timers_lem env cfg (timed_out ∷ []) 9 (key_of 5_000) idle_flow one_flow one_flow-IsTimed
      still_there
