-- ===== src/Flow/Close.antt =====
-- The output of reassembled data and the end of a flow in flow/mod.rs.
use bazalt.Prelude.{
  ℕ, Bool, true, false, none, some, List, [], ◌∷◌, length, is_empty, ◌==◌, if◌then◌else◌,
  saturating_sub,
}
use bazalt.HashMap.{HashMap, lookup, put, delete}
use bazalt.FlowKeys.Types.{Direction, a_to_b, b_to_a, tcp, udp, FlowKey}
use bazalt.Reassembly.Types.{ReassembledChunk, StreamGap, ReassemblyOutcome}
use bazalt.Reassembly.Recover.{finalize}
use bazalt.Flow.Types.{
  Env, World, FlowState, SourcePrefix, FlowOutput, chunk, closed, add64, sub64, send, count,
  flow_key, source_prefix_key, TimerItem,
}
use bazalt.Flow.State.{set_half, summary}
use bazalt.Flow.Tombstones.{TcpTombstones}

-- A flow, the world, and whether content was emitted.
pub record Work : Type 0 where
  pub flow : FlowState
  pub world : World
  pub emitted : Bool

abbrev pub mark_flow_truncated : FlowState → FlowState
mark_flow_truncated f = record f { truncated = true }

abbrev pub chunk_of : Direction → FlowKey → ReassembledChunk → FlowState → FlowOutput
chunk_of direction key c f = chunk (record {
  flow_id = f.id;
  ts_ns = c.ts_ns;
  direction = direction;
  key = key;
  offset = c.offset;
  bytes = c.bytes;
  truncated = f.truncated;
})

-- The loop over the emitted chunks, which a failed send ends.
unfoldable pub send_chunks : Env → Direction → FlowKey → List ReassembledChunk → Work → Work
send_chunks env direction key [] k = k
send_chunks env direction key (c ∷ cs) k =
    let s = send env (chunk_of direction key c k.flow) k.world in
    let on =
      send_chunks env direction key cs (record { flow = k.flow; world = s.1; emitted = true }) in
    if s.0 then on else record { flow = mark_flow_truncated k.flow; world = s.1; emitted = true }

-- `sum::<u64>()` over the lengths of the gaps.
abbrev pub gap_bytes : List StreamGap → ℕ
gap_bytes [] = 0
gap_bytes (g ∷ gs) = add64 g.len (gap_bytes gs)

-- `emit_tcp_outcome`, whose result is joined to `emitted`.
unfoldable pub emit_tcp_outcome : Env → ReassemblyOutcome → Direction → FlowKey → Work → Work
emit_tcp_outcome env outcome direction key k =
    let world =
      if is_empty outcome.gaps
      then k.world
      else count
          (λ m. record m {
            tcp_gap_events = add64 m.tcp_gap_events (length outcome.gaps);
            tcp_gap_bytes = add64 m.tcp_gap_bytes (gap_bytes outcome.gaps);
          })
          k.world in
    send_chunks env direction key outcome.emitted (record k { world = world })

-- `finalize_tcp_halves` on a TCP flow.
unfoldable pub finalize_both : Env → FlowKey → FlowState → World → FlowState × World
finalize_both env key f w =
    let a = finalize f.a_to_b_half in
    let b = finalize f.b_to_a_half in
    let ended = set_half b_to_a b.half (set_half a_to_b a.half f) in
    let start : Work = record { flow = ended; world = w; emitted = false } in
    let after_a = emit_tcp_outcome env a.out a_to_b key start in
    let after_b = emit_tcp_outcome env b.out b_to_a key after_a in
    if after_b.emitted
    then (record (after_b.flow) { visible = true }, after_b.world)
    else (after_b.flow, after_b.world)

-- `finalize_tcp_halves`
unfoldable pub finalize_tcp_halves : Env → FlowKey → FlowState → World → FlowState × World
finalize_tcp_halves env key f w = elim key.protocol [
  | udp ↦ (f, w)
  | tcp ↦ finalize_both env key f w
]

-- The state of `shard_loop`.
pub record Shard : Type 0 where
  pub flows : HashMap FlowKey FlowState
  pub tombstones : TcpTombstones
  pub timers : List TimerItem
  pub source_counts : HashMap SourcePrefix ℕ
  pub serial : ℕ
  pub world : World

-- What the end of a flow reports, and the slot that it frees.
unfoldable pub report_closed : Env → FlowKey → FlowState → World → World
report_closed env key f0 w0 =
    let (f, w) : FlowState × World = finalize_tcp_halves env key f0 w0 in
    let reported =
      if f.visible
      then count (λ m. record m { flows_completed = add64 m.flows_completed 1 })
          (send env (closed (summary f)) w).1
      else w in
    count (λ m. record m { active_flows = sub64 m.active_flows 1 }) reported

-- The count of a source prefix, less one; at zero its entry goes.
unfoldable pub release_source : SourcePrefix → HashMap SourcePrefix ℕ → HashMap SourcePrefix ℕ
release_source prefix counts = elim (lookup prefix counts) [
  | none ↦ counts
  | some n ↦
      let left = saturating_sub n 1 in
      if left == 0 then delete prefix (put prefix left counts) else put prefix left counts
]

unfoldable pub close_flow : Env → FlowKey → Shard → Shard
close_flow env key s = elim (lookup key s.flows) [
  | none ↦ s
  | some f ↦ record s {
    flows = delete key s.flows;
    world = report_closed env key f s.world;
    source_counts = release_source f.source_prefix s.source_counts;
  }
]
