-- ===== src/Flow/Timers.antt =====
-- The timers of `shard_loop` in flow/mod.rs, and its end.
use bazalt.Prelude.{
  ℕ, suc, ◌+◌, ◌*◌, Bool, true, false, not, ◌&&◌, ◌||◌, Option, none, some, List, [], ◌∷◌, length,
  ltb, leb, ◌==◌, if◌then◌else◌, saturating_add, u64_max, min, run_loop,
}
use bazalt.HashMap.{HashMap, lookup}
use bazalt.FlowKeys.Types.{FlowKey, ParsedPacket}
use bazalt.Flow.Types.{
  Env, Config, World, FlowState, SourcePrefix, TimerItem, add64, read_clock, flow_key,
}
use bazalt.Flow.Tombstones.{no_tombstones}
use bazalt.Flow.Close.{Shard, close_flow, report_closed, release_source}
use bazalt.Flow.Shard.{timeout_of, handle_packet}

-- `Ord for TimerItem`, which is reversed so that the heap gives the earliest: the first is popped before
-- the second.
abbrev pub is_earlier : TimerItem → TimerItem → Bool
is_earlier a b = ltb a.deadline b.deadline || (a.deadline == b.deadline && ltb a.serial b.serial)

-- `BinaryHeap::pop`, on the heap as a list in any order: the earliest and the others.
unfoldable pub pop_timer : List TimerItem → Option (TimerItem × List TimerItem)
pop_timer [] = none
pop_timer (t ∷ ts) = elim (pop_timer ts) [
  | none ↦ some (t, [])
  | some r ↦ if is_earlier r.0 t then some (r.0, t ∷ r.1) else some (t, ts)
]

-- What a due timer does, once it has left the heap.
unfoldable pub fire : Env → Config → ℕ → TimerItem → Shard → Shard
fire env cfg now item s = elim (lookup item.key s.flows) [
  | none ↦ s
  | some f ↦
      let deadline = f.last_activity + timeout_of cfg f.key.protocol in
      let serial = add64 s.serial 1 in
      let closed_now = close_flow env item.key s in
      if not (f.id == item.flow_id) then s else if leb deadline now then closed_now else record s {
        serial = serial;
        timers =
            record { deadline = deadline; serial = serial; key = item.key; flow_id = f.id }
            ∷ s.timers;
      }
]

-- One round of the loop over due timers.
unfoldable pub timer_round : Env → Config → ℕ → Shard → Shard × Bool
timer_round env cfg now s = elim (pop_timer s.timers) [
  | none ↦ (s, false)
  | some r ↦
      let fired = fire env cfg now r.0 (record s { timers = r.1 }) in
      if leb r.0.deadline now then (fired, true) else (s, false)
]

unfoldable pub fire_timers : Env → Config → ℕ → Shard → Shard
fire_timers env cfg now s = run_loop (suc (length s.timers)) (timer_round env cfg now) s

-- One timer for each flow, with the serial numbers from one on.
unfoldable pub rebuild : Config → HashMap FlowKey FlowState → ℕ → List TimerItem
rebuild cfg [] serial = []
rebuild cfg ((key, f) ∷ flows) serial =
    record {
      deadline = f.last_activity + timeout_of cfg f.key.protocol;
      serial = add64 serial 1;
      key = key;
      flow_id = f.id;
    }
    ∷ rebuild cfg flows (add64 serial 1)

-- `saturating_mul(2)` on `usize`.
abbrev pub twice : ℕ → ℕ
twice n = min (n * 2) u64_max

abbrev pub is_overgrown : Shard → Bool
is_overgrown s =
    ltb 4096 (length s.timers)
    && ltb (saturating_add (twice (length s.flows)) 1024) (length s.timers)

-- The compaction of the heap.
unfoldable pub compact : Config → Shard → Shard
compact cfg s =
    if is_overgrown s
    then record s {
      serial = add64 s.serial (length s.flows);
      timers = rebuild cfg s.flows s.serial;
    }
    else s

-- What a round of `shard_loop` does after the packet or the timeout.
unfoldable pub tend_timers : Env → Config → Shard → Shard
tend_timers env cfg s =
    let now = read_clock env s.world in
    compact cfg (fire_timers env cfg now.0 (record s { world = now.1 }))

-- What `recv_timeout` gives, before the queue is disconnected.
pub data Input : Type 0 where
  received : ParsedPacket → Input
  timed_out : Input

-- One turn of `shard_loop`; a `continue` passes the timers by.
unfoldable pub shard_turn : Env → Config → Input → Shard → Shard
shard_turn env cfg (received p) s =
    let handled = handle_packet env cfg p s in
    if handled.0 then tend_timers env cfg handled.1 else handled.1
shard_turn env cfg timed_out s = tend_timers env cfg s

-- `shard_loop`, until the queue is disconnected.
unfoldable pub shard_turns : Env → Config → List Input → Shard → Shard
shard_turns env cfg [] s = s
shard_turns env cfg (i ∷ inputs) s = shard_turns env cfg inputs (shard_turn env cfg i s)

-- The loop over `flows.drain()`, once the queue is disconnected.
unfoldable pub drain_from :
    Env
    → HashMap FlowKey FlowState
    → HashMap SourcePrefix ℕ
    → World
    → HashMap SourcePrefix ℕ × World
drain_from env [] counts w = (counts, w)
drain_from env ((key, f) ∷ flows) counts w =
    drain_from env flows (release_source f.source_prefix counts) (report_closed env key f w)

unfoldable pub drain : Env → Shard → Shard
drain env s =
    let rest = drain_from env s.flows s.source_counts s.world in
    record s { flows = []; source_counts = rest.0; world = rest.1 }

-- The state in which `shard_loop` begins.
unfoldable pub new_shard : World → Shard
new_shard w = record {
  flows = [];
  tombstones = no_tombstones;
  timers = [];
  source_counts = [];
  serial = 0;
  world = w;
}
