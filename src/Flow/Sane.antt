-- ===== src/Flow/Sane.antt =====
-- The accounts of a shard in flow/mod.rs: the slots of flows, the counts by source and the halves, as a
-- flow is replaced, closed and admitted.
use bazalt.Prelude.{
  ℕ, ◌+◌, ◌-◌, ◌^◌, ◌≤◌, ◌<◌, ◌≡◌, refl, sym, ap, ◌∙◌, Bool, true, not, none, some, inl, inr,
  length, leb, Bool-cases, if_cases, option_cases, List, arith,
}
use bazalt.HashMap.{lookup, put, delete}
use bazalt.HashMap.Laws.{
  Distinct, All, lookup-All, put-All, delete-All, put-Distinct, delete-Distinct, put_new, put_old,
  delete_lem,
}
use bazalt.FlowKeys.Types.{FlowKey, ParsedPacket}
use bazalt.Reassembly.Valid.{default_half-IsValid}
use bazalt.Flow.Types.{
  Env, Config, World, FlowState, SourcePrefix, flow_key, source_prefix_key, same_prefix,
  same_prefix_iff, from_packet, read_clock, TimerItem,
}
use bazalt.Flow.State.{new_flow}
use bazalt.Flow.Recent.{IsKept}
use bazalt.Flow.Tombstones.{TcpTombstones}
use bazalt.Flow.Close.{Shard, close_flow}
use bazalt.Flow.Admission.{count_of, or_default, try_admit_flow, admit_source, admit}
use bazalt.Flow.Carries.{HalvesValid, active, report_closed-active}
use bazalt.Flow.Counts.{
  weight_of, weight, number, count_of-put, count_of-or_default, or_default-Distinct,
  count_of-release_source, release_source-Distinct,
}

-- The accounts are right: with so many flows in other shards, the counter of active flows is the number
-- of flows and within its limit, each source prefix is counted and within its limit, the halves of all
-- flows are valid, and so are the tombstones.
pub record IsSane (cfg : Config) (others : ℕ) (s : Shard) : Type 0 where
  pub distinct : Distinct s.flows
  pub halves : All HalvesValid s.flows
  pub counter : active s.world ≡ others + length s.flows
  pub within : others + length s.flows ≤ cfg.max_active_flows
  pub entries : Distinct s.source_counts
  pub counted : (p : SourcePrefix) → count_of p s.source_counts ≡ number p s.flows
  pub per_source : (p : SourcePrefix) → number p s.flows ≤ cfg.max_flows_per_source_prefix
  pub kept : IsKept s.tombstones

module _ (cfg : Config) (others : ℕ) where
  -- What the accounts do not read.
  pub reframe :
      (tombstones : TcpTombstones) (x : World) (timers : List TimerItem) (serial : ℕ) (s : Shard)
      → active x ≡ active s.world
      → IsKept tombstones
      → IsSane cfg others s
      → IsSane cfg others
          (record s { tombstones = tombstones; world = x; timers = timers; serial = serial })
  reframe tombstones x timers serial s same kept i = record {
    distinct = i.distinct;
    halves = i.halves;
    counter = same ∙ i.counter;
    within = i.within;
    entries = i.entries;
    counted = i.counted;
    per_source = i.per_source;
    kept = kept;
  }

  -- A new value of a flow.
  pub replace-IsSane :
      (key : FlowKey) (f g : FlowState) (x : World) (s : Shard)
      → lookup key s.flows ≡ some f
      → g.source_prefix ≡ f.source_prefix
      → active x ≡ active s.world
      → (HalvesValid f → HalvesValid g)
      → IsSane cfg others s
      → IsSane cfg others (record s { flows = put key g s.flows; world = x })
  replace-IsSane key f g x s found source same valid i =
      let n = put_old (λ (h : FlowState). 0) key g s.flows {u = f} found in
      let same_weight : (p : SourcePrefix) → weight p g ≡ weight p f =
        λ p. ap (λ (q : SourcePrefix). weight_of p q) source in
      let same_number : (p : SourcePrefix) → number p (put key g s.flows) ≡ number p s.flows =
        λ p. omega (arith, (put_old (weight p) key g s.flows {u = f} found).0, same_weight p) in
      record {
        distinct = put-Distinct key g s.flows i.distinct;
        halves =
            put-All HalvesValid key g s.flows
              (valid (lookup-All HalvesValid key s.flows i.halves found)) i.halves;
        counter = omega (arith, i.counter, n.1, same);
        within = omega (arith, i.within, n.1);
        entries = i.entries;
        counted = λ p. i.counted p ∙ sym (same_number p);
        per_source = λ p. omega (arith, i.per_source p, same_number p);
        kept = i.kept;
      }

  pub close_flow-IsSane :
      (env : Env) (key : FlowKey) (s : Shard)
      → cfg.max_active_flows < 2 ^ 64
      → IsSane cfg others s
      → IsSane cfg others (close_flow env key s)
  unfolding close_flow
  close_flow-IsSane env key s fits i =
      option_cases (IsSane cfg others) (lookup key s.flows) (λ _. i)
        (λ f found.
          let n = delete_lem (λ (h : FlowState). 0) key s.flows {v = f} found in
          let released = report_closed-active env key f s.world in
          let less : (p : SourcePrefix)
              → number p (delete key s.flows) ≡ number p s.flows - weight p f =
            λ p. (delete_lem (weight p) key s.flows {v = f} found).0 in
          record {
            distinct = delete-Distinct key s.flows i.distinct;
            halves = delete-All HalvesValid key s.flows i.halves;
            counter = released ∙ omega (arith, i.counter, i.within, n.2);
            within = omega (arith, i.within, n.2);
            entries = release_source-Distinct f.source_prefix s.source_counts i.entries;
            counted = λ p. ground (
              arith,
              count_of-release_source p f.source_prefix s.source_counts i.entries,
              less p,
              i.counted p,
            );
            per_source = λ p. omega (arith, i.per_source p, less p);
            kept = i.kept;
          })

  -- A new flow, on the slot that `try_admit_flow` has taken.
  admit_source-IsSane :
      (env : Env) (p : ParsedPacket) (x : World) (s : Shard)
      → cfg.max_active_flows < 2 ^ 64
      → lookup p.key s.flows ≡ none
      → active x ≡ active s.world + 1
      → active s.world < cfg.max_active_flows
      → IsSane cfg others s
      → IsSane cfg others (admit_source env cfg p (record s { world = x })).1
  unfolding admit_source new_flow read_clock
  admit_source-IsSane env p x s fits vacant taken room i =
      let prefix = from_packet p in
      let counts = or_default prefix s.source_counts in
      let f = (new_flow env p x).0 in
      let n = put_new (λ (h : FlowState). 0) p.key f s.flows vacant in
      let more : (q : SourcePrefix)
          → number q (put p.key f s.flows) ≡ weight_of q prefix + number q s.flows =
        λ q. (put_new (weight q) p.key f s.flows vacant).0 in
      let same : (q : SourcePrefix) → count_of q counts ≡ number q s.flows =
        λ q. count_of-or_default q prefix s.source_counts ∙ i.counted q in
      let here : (q : SourcePrefix)
          → same_prefix q prefix ≡ true
          → count_of prefix counts ≡ number q s.flows =
        λ q is_its.
          let eq : q ≡ prefix = (same_prefix_iff q prefix).0 is_its in
          ap (λ (r : SourcePrefix). count_of r counts) (sym eq) ∙ same q in
      if_cases (λ (r : Bool × Shard). IsSane cfg others r.1)
        (leb cfg.max_flows_per_source_prefix (count_of prefix counts))
        (λ full. record {
          distinct = i.distinct;
          halves = i.halves;
          counter = omega (arith, i.counter, i.within, taken);
          within = i.within;
          entries = or_default-Distinct prefix s.source_counts i.entries;
          counted = same;
          per_source = i.per_source;
          kept = i.kept;
        })
        (λ free. record {
          distinct = put-Distinct p.key f s.flows i.distinct;
          halves =
              put-All HalvesValid p.key f s.flows
                (record {
                  a_to_b_valid = default_half-IsValid;
                  b_to_a_valid = default_half-IsValid;
                })
                i.halves;
          counter = omega (arith, i.counter, taken, n.1);
          within = omega (arith, i.counter, room, n.1);
          entries =
              put-Distinct prefix _ counts (or_default-Distinct prefix s.source_counts i.entries);
          counted = λ q. elim (Bool-cases (same_prefix q prefix)) [
            | inl is_its ↦ ground (
              arith,
              count_of-put q prefix (count_of prefix counts + 1) counts,
              more q,
              here q is_its,
            )
            | inr other ↦
                ground
                  (arith, count_of-put q prefix (count_of prefix counts + 1) counts, more q, same q)
          ];
          per_source = λ q. elim (Bool-cases (same_prefix q prefix)) [
            | inl is_its ↦ ground (arith, more q, here q is_its, i.per_source q, free)
            | inr other ↦ ground (arith, more q, i.per_source q)
          ];
          kept = i.kept;
        })

  pub admit-IsSane :
      (env : Env) (p : ParsedPacket) (s : Shard)
      → cfg.max_active_flows < 2 ^ 64
      → lookup p.key s.flows ≡ none
      → IsSane cfg others s
      → IsSane cfg others (admit env cfg p s).1
  unfolding admit try_admit_flow
  admit-IsSane env p s fits vacant i =
      if_cases (λ (r : Bool × Shard). IsSane cfg others r.1) (not (env.accepts_destination p))
        (λ refused. reframe s.tombstones _ s.timers s.serial s refl i.kept i)
        (λ accepted.
          option_cases (λ (r : Bool × Shard). IsSane cfg others r.1)
            (try_admit_flow cfg.max_active_flows (active s.world))
            (λ full. reframe s.tombstones _ s.timers s.serial s refl i.kept i)
            (λ taken found.
              admit_source-IsSane env p _ s fits vacant (ground (arith, found))
                (ground (arith, found)) i))
