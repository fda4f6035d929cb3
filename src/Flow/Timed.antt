-- ===== src/Flow/Timed.antt =====
-- The timers of a shard in flow/mod.rs: the loop over due timers and the compaction.
use bazalt.Prelude.{
  ℕ, suc, ◌+◌, ◌≤◌, ◌<◌, ◌≡◌, ◌⊎◌, inl, inr, sym, ap, ◌∙◌, Bool, true, false, not, Option, none,
  some, List, [], length, leb, ◌==◌, Bool-cases, if_cases, option_cases, run_loop_exit, subst,
  arith,
}
use bazalt.HashMap.{lookup, delete}
use bazalt.HashMap.Laws.{Distinct, lookup-delete, lookup-delete_other, delete-Distinct}
use bazalt.FlowKeys.Types.{FlowKey}
use bazalt.Flow.Types.{
  Env, Config, FlowState, TimerItem, flow_key, same_flow_key, same_flow_key_iff,
}
use bazalt.Flow.Close.{Shard, close_flow}
use bazalt.Flow.Shard.{timeout_of}
use bazalt.Flow.Timers.{pop_timer, fire, timer_round, fire_timers}
use bazalt.Flow.Heap.{IsFor, HasTimer, NoneDue, due, due-length, Pops, Popped, pop_timer_lem}

-- Every flow but for those under a key has its timer.
pub record IsTimedBut (away : FlowKey → ℕ → Type 0) (s : Shard) : Type 0 where
  pub distinct : Distinct s.flows
  pub timed :
      (key : FlowKey) (f : FlowState)
      → lookup key s.flows ≡ some f
      → away key f.id ⊎ HasTimer key f.id s.timers

-- Every flow has its timer.
pub record IsTimed (s : Shard) : Type 0 where
  pub distinct : Distinct s.flows
  pub timed :
      (key : FlowKey) (f : FlowState) → lookup key s.flows ≡ some f → HasTimer key f.id s.timers

abbrev id_of : Option FlowState → ℕ
id_of none = 0
id_of (some f) = f.id

pub same_id : {o : Option FlowState} {f g : FlowState} → o ≡ some f → o ≡ some g → f.id ≡ g.id
same_id p q = ap id_of (sym p ∙ q)

-- No flow stands at the key, so none lacks its timer.
pub none_away :
    (key : FlowKey) (s : Shard)
    → lookup key s.flows ≡ none
    → IsTimedBut (λ k id. key ≡ k) s
    → IsTimed s
none_away key s missing t = record {
  distinct = t.distinct;
  timed = λ k g there. elim (t.timed k g there) [
    | inl eq ↦ let nothing : lookup k s.flows ≡ none = rw (← eq) missing in absurd (cc)
    | inr has ↦ has
  ];
}

-- The end of the flow at a key.
pub close_flow-IsTimed :
    (env : Env) (key : FlowKey) (s : Shard)
    → IsTimedBut (λ k id. key ≡ k) s
    → IsTimed (close_flow env key s)
unfolding close_flow
close_flow-IsTimed env key s t =
    option_cases IsTimed (lookup key s.flows) (λ missing. none_away key s missing t)
      (λ f found. record {
        distinct = delete-Distinct key s.flows t.distinct;
        timed = λ k g there. elim (Bool-cases (same_flow_key k key)) [
          | inl same ↦
              let eq : k ≡ key = (same_flow_key_iff k key).0 same in
              let gone : lookup k (delete key s.flows) ≡ none =
                rw eq (lookup-delete key s.flows t.distinct) in
              absurd (cc (gone, there))
          | inr differ ↦
              elim (t.timed k g (sym (lookup-delete_other k key s.flows differ) ∙ there)) [
                | inl eq ↦ absurd (cc (differ, (same_flow_key_iff k key).1 (sym eq)))
                | inr has ↦ has
              ]
        ];
      })

module _ (env : Env) (cfg : Config) (now : ℕ) where
  pub fire-IsTimed :
      (item : TimerItem) (s : Shard)
      → IsTimedBut (λ k id. IsFor k id item) s
      → IsTimed (fire env cfg now item s)
  unfolding fire
  fire-IsTimed item s t =
      option_cases IsTimed (lookup item.key s.flows)
        (λ missing. record {
          distinct = t.distinct;
          timed = λ k g there. elim (t.timed k g there) [
            | inl own ↦ let nothing : lookup k s.flows ≡ none = rw (← own.0) missing in absurd (cc)
            | inr has ↦ has
          ];
        })
        (λ f found.
          if_cases IsTimed (not (f.id == item.flow_id))
            (λ stale. record {
              distinct = t.distinct;
              timed = λ k g there. elim (t.timed k g there) [
                | inl own ↦
                    let also : lookup k s.flows ≡ some f = rw (← own.0) found in
                    let same : f.id ≡ g.id = same_id also there in
                    absurd (ground (arith, stale, same, own.1))
                | inr has ↦ has
              ];
            })
            (λ current.
              if_cases IsTimed (leb (f.last_activity + timeout_of cfg f.key.protocol) now)
                (λ idle. close_flow-IsTimed env item.key s (record {
                  distinct = t.distinct;
                  timed = λ k g there. elim (t.timed k g there) [
                    | inl own ↦ inl own.0
                    | inr has ↦ inr has
                  ];
                }))
                (λ busy. record {
                  distinct = t.distinct;
                  timed = λ k g there. elim (t.timed k g there) [
                    | inl own ↦
                        let also : lookup k s.flows ≡ some f = rw (← own.0) found in
                        let same : f.id ≡ g.id = same_id also there in inl (own.0, same)
                    | inr has ↦ inr has
                  ];
                })))

  -- What a fired timer leaves in the heap lies ahead, if it was not there before.
  due-fire :
      (item : TimerItem) (s : Shard) → due now (fire env cfg now item s).timers ≤ due now s.timers
  unfolding fire close_flow
  due-fire item s =
      let fewer : Shard → Type 0 = λ (t : Shard). due now t.timers ≤ due now s.timers in
      option_cases fewer (lookup item.key s.flows) (λ missing. omega arith)
        (λ f found.
          if_cases fewer (not (f.id == item.flow_id)) (λ stale. omega arith)
            (λ current.
              if_cases fewer (leb (f.last_activity + timeout_of cfg f.key.protocol) now)
                (λ idle.
                  option_cases fewer (lookup item.key s.flows) (λ _. omega arith)
                    (λ _ _. omega arith))
                (λ busy. ground (arith, busy))))

  abbrev deadline_in : Option FlowState → ℕ
  deadline_in none = 0
  deadline_in (some f) = f.last_activity + timeout_of cfg f.key.protocol

  -- A flow that is not idle for its timeout stays.
  Stays : FlowKey → FlowState → Shard → Type 0
  Stays key f s =
      (f.last_activity + timeout_of cfg f.key.protocol ≤ now) ⊎ (lookup key s.flows ≡ some f)

  fire-Stays :
      (key : FlowKey) (f : FlowState) (item : TimerItem) (s : Shard)
      → Stays key f s
      → Stays key f (fire env cfg now item s)
  unfolding fire close_flow Stays
  fire-Stays key f item s (inl idle) = inl idle
  fire-Stays key f item s (inr there) =
      option_cases (Stays key f) (lookup item.key s.flows) (λ missing. inr there)
        (λ g found.
          if_cases (Stays key f) (not (g.id == item.flow_id)) (λ stale. inr there)
            (λ current.
              if_cases (Stays key f) (leb (g.last_activity + timeout_of cfg g.key.protocol) now)
                (λ idle.
                  option_cases (Stays key f) (lookup item.key s.flows) (λ _. inr there)
                    (λ h same. elim (Bool-cases (same_flow_key key item.key)) [
                      | inl own ↦
                          let eq : key ≡ item.key = (same_flow_key_iff key item.key).0 own in
                          let here : lookup key s.flows ≡ some g = rw eq found in
                          inl (ground (arith, idle, ap deadline_in (sym here ∙ there)))
                      | inr differ ↦ inr (lookup-delete_other key item.key s.flows differ ∙ there)
                    ]))
                (λ busy. inr there)))

  module _ (key : FlowKey) (f : FlowState) where
    record Holds (s : Shard) : Type 0 where
      timed : IsTimed s
      stays : Stays key f s

    record Ends (s : Shard) : Type 0 where
      holds : Holds s
      none_due : NoneDue now s.timers

    -- A round goes on with fewer due timers, or leaves none.
    record Rounds (s : Shard) (r : Shard × Bool) : Type 0 where
      goes_on : r.1 ≡ true → Holds r.0 × (due now r.0.timers < due now s.timers)
      ends : r.1 ≡ false → Ends r.0

    timer_round-Rounds : (s : Shard) → Holds s → Rounds s (timer_round env cfg now s)
    unfolding timer_round Stays
    timer_round-Rounds s h =
        option_cases (Rounds s) (pop_timer s.timers)
          (λ none_left.
            let empty : s.timers ≡ [] =
              subst (Popped s.timers) none_left (pop_timer_lem s.timers) in
            record {
              goes_on = λ e. absurd (cc);
              ends = λ e. record { holds = h; none_due = subst (NoneDue now) (sym empty) tt };
            })
          (λ (r : TimerItem × List TimerItem) found.
            let p : Pops s.timers r = subst (Popped s.timers) found (pop_timer_lem s.timers) in
            let rest : Shard = record s { timers = r.1 } in
            if_cases (Rounds s) (leb r.0.deadline now)
              (λ is_due. record {
                goes_on = λ e. (
                  record {
                    timed = fire-IsTimed r.0 rest (record {
                      distinct = h.timed.distinct;
                      timed = λ k g there. p.keeps k g.id (h.timed.timed k g there);
                    });
                    stays = fire-Stays key f r.0 rest h.stays;
                  },
                  ground (arith, due-fire r.0 rest, p.counts now, is_due),
                );
                ends = λ e. absurd (cc);
              })
              (λ ahead. record {
                goes_on = λ e. absurd (cc);
                ends = λ e. record { holds = h; none_due = p.earliest now (ground (arith, ahead)) };
              }))

    fire_timers-Ends : (s : Shard) → Holds s → Ends (fire_timers env cfg now s)
    unfolding fire_timers
    fire_timers-Ends s h =
        run_loop_exit Holds Ends (λ t. due now t.timers) (timer_round env cfg now)
          (λ t held more. (timer_round-Rounds t held).goes_on more)
          (λ t held exit. (timer_round-Rounds t held).ends exit) (suc (length s.timers)) s h
          (omega (arith, due-length now s.timers))

  -- The loop over due timers comes to its end with every deadline ahead, every flow still has its timer,
  -- and a flow whose timeout has not passed since its last packet is still there.
  pub fire_timers_lem :
      (key : FlowKey) (f : FlowState) (s : Shard)
      → IsTimed s
      → lookup key s.flows ≡ some f
      → let t = fire_timers env cfg now s in
        NoneDue now t.timers
        × IsTimed t
        × ((f.last_activity + timeout_of cfg f.key.protocol ≤ now) ⊎ (lookup key t.flows ≡ some f))
  unfolding Stays
  fire_timers_lem key f s t there =
      let e = fire_timers-Ends key f s (record { timed = t; stays = inr there }) in
      (e.none_due, e.holds.timed, e.holds.stays)
