-- ===== src/Flow/Lifetimes.antt =====
-- The timers of a shard in flow/mod.rs, through a whole round of `shard_loop`: no flow is left without
-- one.
use bazalt.Prelude.{
  ℕ, suc, ◌+◌, ◌≤◌, ◌≡◌, ◌⊎◌, inl, inr, refl, sym, ap, ◌∙◌, Bool, true, false, not, ◌&&◌, some,
  List, [], ◌∷◌, length, leb, if◌then◌else◌, Bool-cases, if_cases, option_cases, some_or_none,
  run_loop_inv, subst, arith,
}
use bazalt.HashMap.{HashMap, lookup, put, contains_key}
use bazalt.HashMap.Laws.{put-Distinct, lookup-put, lookup-put_other}
use bazalt.FlowKeys.Types.{FlowKey, ParsedPacket}
use bazalt.Flow.Types.{
  Env, Config, World, FlowState, TimerItem, add64, flow_key, source_prefix_key, same_flow_key,
  same_flow_key_iff, read_clock, from_packet,
}
use bazalt.Flow.State.{should_close, is_syn_retransmit, new_flow}
use bazalt.Flow.Close.{Shard}
use bazalt.Flow.Packet.{take_packet}
use bazalt.Flow.Admission.{
  is_tcp, is_fresh_syn, check_tombstones, start_generation, try_admit_flow, admit_source, admit,
  count_of, or_default,
}
use bazalt.Flow.Shard.{timeout_of, schedule, close_with_tombstone, deliver, handle_packet}
use bazalt.Flow.Timers.{
  pop_timer, timer_round, fire_timers, is_overgrown, compact, rebuild, tend_timers, Input, received,
  timed_out, shard_turn, shard_turns,
}
use bazalt.Flow.Heap.{HasTimer, NoneDue, Pops, Popped, pop_timer_lem}
use bazalt.Flow.Effects.{take_packet-Carries}
use bazalt.Flow.Timed.{
  IsTimed, IsTimedBut, same_id, none_away, close_flow-IsTimed, fire-IsTimed, fire_timers_lem,
}

-- The flow at a key may lack its timer.
abbrev Awaits : FlowKey → Shard → Type 0
Awaits key s = IsTimedBut (λ k id. key ≡ k) s

awaits : (key : FlowKey) (s : Shard) → IsTimed s → Awaits key s
awaits key s t = record { distinct = t.distinct; timed = λ k f there. inr (t.timed k f there) }

timer_round-IsTimed :
    (env : Env) (cfg : Config) (now : ℕ) (s : Shard)
    → IsTimed s
    → IsTimed (timer_round env cfg now s).0
unfolding timer_round
timer_round-IsTimed env cfg now s t =
    option_cases (λ (r : Shard × Bool). IsTimed r.0) (pop_timer s.timers) (λ _. t)
      (λ (r : TimerItem × List TimerItem) found.
        let p : Pops s.timers r = subst (Popped s.timers) found (pop_timer_lem s.timers) in
        if_cases (λ (q : Shard × Bool). IsTimed q.0) (leb r.0.deadline now)
          (λ is_due.
            fire-IsTimed env cfg now r.0 (record s { timers = r.1 })
              (record {
                distinct = t.distinct;
                timed = λ k g there. p.keeps k g.id (t.timed k g there);
              }))
          (λ ahead. t))

pub rebuild-HasTimer :
    (cfg : Config) (key : FlowKey) (f : FlowState) (flows : HashMap FlowKey FlowState) (serial : ℕ)
    → lookup key flows ≡ some f
    → HasTimer key f.id (rebuild cfg flows serial)
unfolding rebuild lookup
rebuild-HasTimer cfg key f [] serial there = absurd (cc)
rebuild-HasTimer cfg key f ((k, g) ∷ flows) serial there = elim (Bool-cases (same_flow_key key k)) [
  | inl same ↦
      let here : some g ≡ some f =
        ap (λ (b : Bool). if b then some g else lookup key flows) (sym same) ∙ there in
      inl (sym ((same_flow_key_iff key k).0 same), same_id {o = some g} refl here)
  | inr differ ↦
      inr (rebuild-HasTimer cfg key f flows (add64 serial 1) (ground (arith, there, differ)))
]

module _ (env : Env) (cfg : Config) where
  check_tombstones-IsTimed :
      (p : ParsedPacket) (s : Shard) → IsTimed s → IsTimed (check_tombstones env p s).1
  unfolding check_tombstones
  check_tombstones-IsTimed p s t =
      let to : Bool × Shard → Type 0 = λ (r : Bool × Shard). IsTimed r.1 in
      if_cases to (not (is_tcp p.key.protocol)) (λ _. t)
        (λ _.
          if_cases to (p.flags.syn && not p.flags.ack)
            (λ _. record { distinct = t.distinct; timed = t.timed })
            (λ _.
              if_cases to (not (contains_key p.key s.flows) && not p.flags.syn)
                (λ _. record { distinct = t.distinct; timed = t.timed }) (λ _. t)))

  start_generation-IsTimed :
      (p : ParsedPacket) (s : Shard) → IsTimed s → IsTimed (start_generation env p s)
  unfolding start_generation
  start_generation-IsTimed p s t =
      option_cases IsTimed (lookup p.key s.flows) (λ _. t)
        (λ f found.
          if_cases IsTimed (is_fresh_syn p && not (is_syn_retransmit f p))
            (λ _. close_flow-IsTimed env p.key s (awaits p.key s t)) (λ _. t))

  -- A new value at a key.
  put-Awaits :
      (key : FlowKey) (g : FlowState) (x : World) (s : Shard)
      → Awaits key s
      → Awaits key (record s { flows = put key g s.flows; world = x })
  put-Awaits key g x s t = record {
    distinct = put-Distinct key g s.flows t.distinct;
    timed = λ k f there. elim (Bool-cases (same_flow_key k key)) [
      | inl same ↦ inl (sym ((same_flow_key_iff k key).0 same))
      | inr differ ↦ t.timed k f (sym (lookup-put_other k key g s.flows differ) ∙ there)
    ];
  }

  close_with_tombstone-IsTimed :
      (p : ParsedPacket) (s : Shard) → Awaits p.key s → IsTimed (close_with_tombstone env p s)
  unfolding close_with_tombstone
  close_with_tombstone-IsTimed p s t = close_flow-IsTimed env p.key _ (
      if_cases (Awaits p.key) (is_tcp p.key.protocol)
        (λ _. record { distinct = t.distinct; timed = t.timed }) (λ _. t))

  schedule-IsTimed :
      (p : ParsedPacket) (g : FlowState) (s : Shard)
      → lookup p.key s.flows ≡ some g
      → Awaits p.key s
      → IsTimed (schedule env cfg p g s)
  unfolding schedule
  schedule-IsTimed p g s there t = record {
    distinct = t.distinct;
    timed = λ k f found. elim (t.timed k f found) [
      | inl own ↦
          let also : lookup k s.flows ≡ some g = rw (← own) there in inl (own, same_id also found)
      | inr has ↦ inr has
    ];
  }

  deliver-IsTimed :
      (p : ParsedPacket) (is_new : Bool) (f : FlowState) (s : Shard)
      → Awaits p.key s
      → (is_new ≡ false → HasTimer p.key f.id s.timers)
      → IsTimed (deliver env cfg p is_new f s)
  unfolding deliver
  deliver-IsTimed p is_new f s t old =
      let taken = take_packet env cfg p f s.world in
      let stored : Shard = record s { flows = put p.key taken.1 s.flows; world = taken.2 } in
      let a : Awaits p.key stored = put-Awaits p.key taken.1 taken.2 s t in
      let there : lookup p.key stored.flows ≡ some taken.1 = lookup-put p.key taken.1 s.flows in
      if_cases IsTimed (should_close taken.1 taken.0) (λ _. close_with_tombstone-IsTimed p stored a)
        (λ _.
          if_cases IsTimed is_new (λ _. schedule-IsTimed p taken.1 stored there a)
            (λ known. record {
              distinct = a.distinct;
              timed = λ k g found. elim (a.timed k g found) [
                | inl own ↦
                    let also : lookup k stored.flows ≡ some taken.1 = rw (← own) there in
                    let same : f.id ≡ g.id =
                      sym (take_packet-Carries env cfg p f s.world).id ∙ same_id also found in
                    rw (← own, ← same) (old known)
                | inr has ↦ has
              ];
            }))

  -- A new flow has no timer yet.
  record Admits (p : ParsedPacket) (r : Bool × Shard) : Type 0 where
    awaiting : Awaits p.key r.1
    refused : r.0 ≡ false → IsTimed r.1

  admit-Admits : (p : ParsedPacket) (s : Shard) → IsTimed s → Admits p (admit env cfg p s)
  unfolding admit admit_source
  admit-Admits p s t =
      let still : (x : Shard) → IsTimed x → Admits p (false, x) =
        λ x u. record { awaiting = awaits p.key x u; refused = λ _. u } in
      if_cases (Admits p) (not (env.accepts_destination p))
        (λ _. still _ (record { distinct = t.distinct; timed = t.timed }))
        (λ _.
          option_cases (Admits p) (try_admit_flow cfg.max_active_flows s.world.metrics.active_flows)
            (λ _. still _ (record { distinct = t.distinct; timed = t.timed }))
            (λ taken found.
              let reserved : World = record (s.world) {
                metrics = record (s.world.metrics) { active_flows = taken };
              } in
              if_cases (Admits p)
                (leb cfg.max_flows_per_source_prefix
                  (count_of (from_packet p) (or_default (from_packet p) s.source_counts)))
                (λ _. still _ (record { distinct = t.distinct; timed = t.timed }))
                (λ _.
                  let a =
                    put-Awaits p.key (new_flow env p reserved).0 s.world s (awaits p.key s t) in
                  record {
                    awaiting = record { distinct = a.distinct; timed = a.timed };
                    refused = λ e. absurd (cc);
                  })))

  handle_packet-IsTimed :
      (p : ParsedPacket) (s : Shard) → IsTimed s → IsTimed (handle_packet env cfg p s).1
  unfolding handle_packet
  handle_packet-IsTimed p s0 t0 =
      let to : Bool × Shard → Type 0 = λ (r : Bool × Shard). IsTimed r.1 in
      let checked = check_tombstones env p s0 in
      let t1 = check_tombstones-IsTimed p s0 t0 in
      let s = start_generation env p checked.1 in
      let t = start_generation-IsTimed p checked.1 t1 in
      let admitted = admit env cfg p s in
      let a = admit-Admits p s t in
      if_cases to checked.0 (λ _. t1)
        (λ _.
          some_or_none to (lookup p.key s.flows)
            (λ f found. deliver-IsTimed p false f s (awaits p.key s t) (λ _. t.timed p.key f found))
            (λ vacant.
              option_cases to (lookup p.key admitted.1.flows)
                (λ nothing. none_away p.key admitted.1 nothing a.awaiting)
                (λ f found.
                  if_cases to admitted.0
                    (λ new. deliver-IsTimed p true f admitted.1 a.awaiting (λ e. absurd (cc (e))))
                    (λ old. a.refused old))))

  fire_timers-IsTimed : (now : ℕ) (s : Shard) → IsTimed s → IsTimed (fire_timers env cfg now s)
  unfolding fire_timers
  fire_timers-IsTimed now s t =
      run_loop_inv IsTimed (timer_round env cfg now) (λ u v. timer_round-IsTimed env cfg now u v)
        (suc (length s.timers)) s t

  compact-IsTimed : (s : Shard) → IsTimed s → IsTimed (compact cfg s)
  unfolding compact
  compact-IsTimed s t =
      if_cases IsTimed (is_overgrown s)
        (λ _. record {
          distinct = t.distinct;
          timed = λ k f there. rebuild-HasTimer cfg k f s.flows s.serial there;
        })
        (λ _. t)

  tend_timers-IsTimed : (s : Shard) → IsTimed s → IsTimed (tend_timers env cfg s)
  unfolding tend_timers read_clock
  tend_timers-IsTimed s t =
      compact-IsTimed _
        (fire_timers-IsTimed _ _ (record { distinct = t.distinct; timed = t.timed }))

  shard_turn-IsTimed :
      (input : Input) (s : Shard) → IsTimed s → IsTimed (shard_turn env cfg input s)
  unfolding shard_turn
  shard_turn-IsTimed (received p) s t =
      let u = handle_packet-IsTimed p s t in
      if_cases IsTimed (handle_packet env cfg p s).0 (λ _. tend_timers-IsTimed _ u) (λ _. u)
  shard_turn-IsTimed timed_out s t = tend_timers-IsTimed s t

  shard_turns-IsTimed :
      (inputs : List Input) (s : Shard) → IsTimed s → IsTimed (shard_turns env cfg inputs s)
  unfolding shard_turns
  shard_turns-IsTimed [] s t = t
  shard_turns-IsTimed (input ∷ inputs) s t =
      shard_turns-IsTimed inputs (shard_turn env cfg input s) (shard_turn-IsTimed input s t)

  -- If every flow has a timer in the heap, every flow has one after any sequence of packets and timeouts.
  -- The loop over due timers then ends with every deadline ahead and a timer for every flow, and a flow
  -- whose timeout since its last packet has not passed is still there.
  pub timers_lem :
      (inputs : List Input) (now : ℕ) (key : FlowKey) (f : FlowState) (s : Shard)
      → IsTimed s
      → lookup key (shard_turns env cfg inputs s).flows ≡ some f
      → let t = fire_timers env cfg now (shard_turns env cfg inputs s) in
        NoneDue now t.timers
        × IsTimed t
        × ((f.last_activity + timeout_of cfg f.key.protocol ≤ now) ⊎ (lookup key t.flows ≡ some f))
  timers_lem inputs now key f s t there =
      fire_timers_lem env cfg now key f (shard_turns env cfg inputs s)
        (shard_turns-IsTimed inputs s t) there
