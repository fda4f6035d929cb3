-- ===== src/Flow/Accounts.antt =====
-- The accounts of a shard in flow/mod.rs, through a packet, a round of the timers and the end.
use bazalt.Prelude.{
  ℕ, suc, ◌+◌, ◌^◌, ◌<◌, ◌≡◌, refl, ◌∙◌, Bool, true, false, not, ◌&&◌, some, length, leb, ◌==◌,
  if_cases, option_cases, some_or_none, run_loop_inv, List, [], ◌∷◌, arith,
}
use bazalt.HashMap.{HashMap, lookup, put, contains_key}
use bazalt.HashMap.Laws.{Distinct}
use bazalt.FlowKeys.Types.{FlowKey, ParsedPacket}
use bazalt.Flow.Types.{
  Env, Config, World, FlowState, SourcePrefix, TimerItem, flow_key, source_prefix_key, read_clock,
}
use bazalt.Flow.State.{should_close, is_syn_retransmit}
use bazalt.Flow.Tombstones.{insert_tombstone, remove_tombstone, contains_live}
use bazalt.Flow.Recent.{insert_tombstone-IsKept, remove_tombstone-IsKept, contains_live-IsKept}
use bazalt.Flow.Close.{Shard, report_closed, release_source}
use bazalt.Flow.Packet.{take_packet}
use bazalt.Flow.Admission.{
  is_tcp, is_fresh_syn, count_of, check_tombstones, start_generation, admit,
}
use bazalt.Flow.Shard.{schedule, close_with_tombstone, deliver, handle_packet, timeout_of}
use bazalt.Flow.Timers.{
  pop_timer, fire, timer_round, fire_timers, is_overgrown, compact, tend_timers, drain_from, drain,
  Input, received, timed_out, shard_turn, shard_turns,
}
use bazalt.Flow.Carries.{active, report_closed-active}
use bazalt.Flow.Counts.{number, count_of-release_source, release_source-Distinct}
use bazalt.Flow.Effects.{take_packet-Carries}
use bazalt.Flow.Sane.{IsSane, reframe, replace-IsSane, close_flow-IsSane, admit-IsSane}

module _ (env : Env) (cfg : Config) (others : ℕ) (fits : cfg.max_active_flows < 2 ^ 64) where
  abbrev Sane : Shard → Type 0
  Sane s = IsSane cfg others s

  check_tombstones-IsSane :
      (p : ParsedPacket) (s : Shard) → Sane s → Sane (check_tombstones env p s).1
  unfolding check_tombstones read_clock
  check_tombstones-IsSane p s i =
      let now = read_clock env s.world in
      if_cases (λ (r : Bool × Shard). Sane r.1) (not (is_tcp p.key.protocol)) (λ udp. i)
        (λ tcp.
          if_cases (λ (r : Bool × Shard). Sane r.1) (p.flags.syn && not p.flags.ack)
            (λ fresh.
              reframe cfg others (remove_tombstone p.key s.tombstones) s.world s.timers s.serial s
                refl (remove_tombstone-IsKept p.key now.0 s.tombstones i.kept) i)
            (λ old.
              if_cases (λ (r : Bool × Shard). Sane r.1)
                (not (contains_key p.key s.flows) && not p.flags.syn)
                (λ vacant.
                  reframe cfg others (contains_live p.key now.0 s.tombstones).1 now.1 s.timers
                    s.serial s refl (contains_live-IsKept p.key now.0 s.tombstones i.kept) i)
                (λ known. i)))

  start_generation-IsSane :
      (p : ParsedPacket) (s : Shard) → Sane s → Sane (start_generation env p s)
  unfolding start_generation
  start_generation-IsSane p s i =
      option_cases Sane (lookup p.key s.flows) (λ _. i)
        (λ f found.
          if_cases Sane (is_fresh_syn p && not (is_syn_retransmit f p))
            (λ _. close_flow-IsSane cfg others env p.key s fits i) (λ _. i))

  close_with_tombstone-IsSane :
      (p : ParsedPacket) (s : Shard) → Sane s → Sane (close_with_tombstone env p s)
  unfolding close_with_tombstone read_clock
  close_with_tombstone-IsSane p s i =
      let now = read_clock env s.world in
      close_flow-IsSane cfg others env p.key _ fits (
        if_cases Sane (is_tcp p.key.protocol)
          (λ _.
            reframe cfg others (insert_tombstone p.key now.0 s.tombstones) now.1 s.timers s.serial s
              refl (insert_tombstone-IsKept p.key now.0 s.tombstones i.kept) i)
          (λ _. i))

  deliver-IsSane :
      (p : ParsedPacket) (is_new : Bool) (f : FlowState) (s : Shard)
      → lookup p.key s.flows ≡ some f
      → Sane s
      → Sane (deliver env cfg p is_new f s)
  unfolding deliver schedule read_clock
  deliver-IsSane p is_new f s found i =
      let taken = take_packet env cfg p f s.world in
      let c = take_packet-Carries env cfg p f s.world in
      let stored : Shard = record s { flows = put p.key taken.1 s.flows; world = taken.2 } in
      let j : Sane stored =
        replace-IsSane cfg others p.key f taken.1 taken.2 s found c.source c.active_flows c.halves
          i in
      if_cases Sane (should_close taken.1 taken.0) (λ _. close_with_tombstone-IsSane p stored j)
        (λ _.
          if_cases Sane is_new (λ _. reframe cfg others s.tombstones _ _ _ stored refl j.kept j)
            (λ _. j))

  handle_packet-IsSane :
      (p : ParsedPacket) (s : Shard) → Sane s → Sane (handle_packet env cfg p s).1
  unfolding handle_packet
  handle_packet-IsSane p s0 i0 =
      let to : Bool × Shard → Type 0 = λ (r : Bool × Shard). Sane r.1 in
      let checked = check_tombstones env p s0 in
      let i1 = check_tombstones-IsSane p s0 i0 in
      let s = start_generation env p checked.1 in
      let i = start_generation-IsSane p checked.1 i1 in
      let admitted = admit env cfg p s in
      if_cases to checked.0 (λ _. i1)
        (λ _.
          some_or_none to (lookup p.key s.flows) (λ f found. deliver-IsSane p false f s found i)
            (λ vacant.
              let j = admit-IsSane cfg others env p s fits vacant i in
              option_cases to (lookup p.key admitted.1.flows) (λ _. j)
                (λ f found.
                  if_cases to admitted.0 (λ _. deliver-IsSane p true f admitted.1 found j)
                    (λ _. j))))

  fire-IsSane : (now : ℕ) (item : TimerItem) (s : Shard) → Sane s → Sane (fire env cfg now item s)
  unfolding fire
  fire-IsSane now item s i =
      option_cases Sane (lookup item.key s.flows) (λ _. i)
        (λ f found.
          if_cases Sane (not (f.id == item.flow_id)) (λ _. i)
            (λ _.
              if_cases Sane (leb (f.last_activity + timeout_of cfg f.key.protocol) now)
                (λ _. close_flow-IsSane cfg others env item.key s fits i)
                (λ _. reframe cfg others s.tombstones s.world _ _ s refl i.kept i)))

  timer_round-IsSane : (now : ℕ) (s : Shard) → Sane s → Sane (timer_round env cfg now s).0
  unfolding timer_round
  timer_round-IsSane now s i =
      option_cases (λ (r : Shard × Bool). Sane r.0) (pop_timer s.timers) (λ _. i)
        (λ (r : TimerItem × List TimerItem) found.
          if_cases (λ (q : Shard × Bool). Sane q.0) (leb r.0.deadline now)
            (λ _.
              fire-IsSane now r.0 (record s { timers = r.1 })
                (reframe cfg others s.tombstones s.world r.1 s.serial s refl i.kept i))
            (λ _. i))

  compact-IsSane : (s : Shard) → Sane s → Sane (compact cfg s)
  unfolding compact
  compact-IsSane s i =
      if_cases Sane (is_overgrown s)
        (λ _. reframe cfg others s.tombstones s.world _ _ s refl i.kept i) (λ _. i)

  tend_timers-IsSane : (s : Shard) → Sane s → Sane (tend_timers env cfg s)
  unfolding tend_timers fire_timers read_clock
  tend_timers-IsSane s i =
      let now = read_clock env s.world in
      compact-IsSane _ (
        run_loop_inv Sane (timer_round env cfg now.0) (timer_round-IsSane now.0)
          (suc (length s.timers)) (record s { world = now.1 })
          (reframe cfg others s.tombstones now.1 s.timers s.serial s refl i.kept i))

  shard_turn-IsSane : (input : Input) (s : Shard) → Sane s → Sane (shard_turn env cfg input s)
  unfolding shard_turn
  shard_turn-IsSane (received p) s i =
      let j = handle_packet-IsSane p s i in
      if_cases Sane (handle_packet env cfg p s).0 (λ _. tend_timers-IsSane _ j) (λ _. j)
  shard_turn-IsSane timed_out s i = tend_timers-IsSane s i

  -- From right accounts, any sequence of packets and timeouts comes to right accounts, for any clock,
  -- UUIDs, service registry and outcome of the sends: the counter of active flows is the number of flows
  -- and stays within its limit, so is the count of each source prefix, and the halves of all flows and
  -- the tombstones are valid.
  pub shard_turns-IsSane :
      (inputs : List Input) (s : Shard)
      → IsSane cfg others s
      → IsSane cfg others (shard_turns env cfg inputs s)
  unfolding shard_turns
  shard_turns-IsSane [] s i = i
  shard_turns-IsSane (input ∷ inputs) s i =
      shard_turns-IsSane inputs (shard_turn env cfg input s) (shard_turn-IsSane input s i)

-- The loop at the end, over the flows that are left.
drain_from_lem :
    (env : Env) (others : ℕ) (prefix : SourcePrefix) (flows : HashMap FlowKey FlowState)
    (counts : HashMap SourcePrefix ℕ) (w : World)
    → others + length flows < 2 ^ 64
    → active w ≡ others + length flows
    → Distinct counts
    → count_of prefix counts ≡ number prefix flows
    → let r = drain_from env flows counts w in (active r.1 ≡ others) × (count_of prefix r.0 ≡ 0)
unfolding drain_from
drain_from_lem env others prefix [] counts w fits slots u c = (omega arith, c)
drain_from_lem env others prefix ((key, f) ∷ flows) counts w fits slots u c =
    drain_from_lem env others prefix flows (release_source f.source_prefix counts)
      (report_closed env key f w) (omega arith) (report_closed-active env key f w ∙ omega arith)
      (release_source-Distinct f.source_prefix counts u)
      (ground (arith, count_of-release_source prefix f.source_prefix counts u))

-- Once its queue is disconnected, a shard with right accounts gives everything back: no flow is left, the
-- counter of active flows is what the other shards hold, and no source prefix is charged.
pub drain_lem :
    (env : Env) (cfg : Config) (others : ℕ) (prefix : SourcePrefix) (s : Shard)
    → cfg.max_active_flows < 2 ^ 64
    → IsSane cfg others s
    → let t = drain env s in
      (t.flows ≡ []) × (active t.world ≡ others) × (count_of prefix t.source_counts ≡ 0)
unfolding drain
drain_lem env cfg others prefix s fits i =
    let r =
      drain_from_lem env others prefix s.flows s.source_counts s.world
        (omega (arith, i.within, fits)) i.counter i.entries (i.counted prefix) in
    (refl, r.0, r.1)
