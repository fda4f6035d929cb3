-- ===== src/Fragments/Limits.antt =====
-- The eviction loop of `FragmentCache::insert` in capture/fragment.rs.
use bazalt.Prelude.{
  ℕ, suc, ◌≤◌, ◌<◌, ◌≡◌, refl, ap, ◌∙◌, inl, inr, Bool, true, false, ◌||◌, none, some, [], ◌∷◌,
  length, ltb, is_some, Option-cases, if_cases, run_loop_exit, arith,
}
use bazalt.HashMap.{HashMap, lookup}
use bazalt.HashMap.Laws.{sum_of, delete_lem, same_refl}
use bazalt.Fragments.Types.{FragmentKey, FragmentState, FragmentCache, fragment_key}
use bazalt.Fragments.Cache.{remove_key, oldest, evict_oldest, evict_round, enforce_limits}
use bazalt.Fragments.Sound.{IsSound, bytes_of, remove_key-IsSound}

oldest-lookup :
    (m : HashMap FragmentKey FragmentState) (e : FragmentKey × FragmentState)
    → oldest m ≡ some e
    → is_some (lookup e.0 m) ≡ true
unfolding oldest lookup
oldest-lookup [] e h = absurd (cc)
oldest-lookup ((k, st) ∷ m) e h = elim (Option-cases (oldest m)) [
  | inl f ↦ ground (arith, same_refl k)
  | inr (q, f) ↦ ground (arith, same_refl k, oldest-lookup m q f)
]

oldest-none : (m : HashMap FragmentKey FragmentState) → oldest m ≡ none → m ≡ []
unfolding oldest
oldest-none [] h = refl
oldest-none ((k, st) ∷ m) h = absurd (ground (arith, Option-cases (oldest m)))

-- A round that evicts has a datagram less.
record Evicted (slack extra : ℕ) (s : FragmentCache × ℕ) (r : (FragmentCache × ℕ) × Bool)
    : Type 0 where
  sound : IsSound slack extra r.0.0
  smaller : r.1 ≡ true → length r.0.0.states < length s.0.states
  stopped : r.1 ≡ false → IsSound 0 0 r.0.0

pub within_limits :
    (slack extra : ℕ) (c : FragmentCache)
    → IsSound slack extra c
    → c.bytes ≤ c.max_bytes
    → length c.states ≤ c.max_datagrams
    → IsSound 0 0 c
within_limits slack extra c s b n = record {
  states = s.states;
  distinct = s.distinct;
  counted = s.counted;
  room = omega arith;
  few = omega arith;
  sized = s.sized;
}

remove_oldest :
    (c : FragmentCache) (e : FragmentKey × FragmentState)
    → oldest c.states ≡ some e
    → length (remove_key e.0 c).states < length c.states
unfolding remove_key
remove_oldest c e h = elim (Option-cases (lookup e.0 c.states)) [
  | inl f ↦ absurd (ground (arith, oldest-lookup c.states e h))
  | inr (st, f) ↦ ground (arith, delete_lem bytes_of e.0 c.states f)
]

evict_round-Evicted :
    (slack extra : ℕ) (s : FragmentCache × ℕ)
    → IsSound slack extra s.0
    → Evicted slack extra s (evict_round s)
unfolding evict_round evict_oldest
evict_round-Evicted slack extra (c, evicted) v = elim (Option-cases (oldest c.states)) [
  | inl e ↦
      let gone : c.states ≡ [] = oldest-none c.states e in
      let room : c.bytes ≡ 0 = v.counted ∙ ap (sum_of bytes_of) gone in
      let few : length c.states ≡ 0 = ap length gone in
      if_cases (Evicted slack extra (c, evicted))
        (ltb c.max_bytes c.bytes || ltb c.max_datagrams (length c.states))
        (λ over. absurd (ground arith))
        (λ under. record {
          sound = v;
          smaller = λ no. absurd (cc);
          stopped = λ _. within_limits slack extra c v (omega arith) (omega arith);
        })
  | inr (e, f) ↦
      if_cases (Evicted slack extra (c, evicted))
        (ltb c.max_bytes c.bytes || ltb c.max_datagrams (length c.states))
        (λ over.
          rw (f, evict_oldest)
            (record {
              sound = remove_key-IsSound slack extra e.0 c v;
              smaller = λ _. remove_oldest c e f;
              stopped = λ no. absurd (cc);
            }))
        (λ under. record {
          sound = v;
          smaller = λ no. absurd (cc);
          stopped = λ _. within_limits slack extra c v (ground arith) (ground arith);
        })
]

pub enforce_limits-IsSound :
    (slack extra : ℕ) (s : FragmentCache × ℕ)
    → IsSound slack extra s.0
    → IsSound 0 0 (enforce_limits s).0
unfolding enforce_limits
enforce_limits-IsSound slack extra (c, evicted) v =
    run_loop_exit (λ (s : FragmentCache × ℕ). IsSound slack extra s.0)
      (λ (s : FragmentCache × ℕ). IsSound 0 0 s.0) (λ s. length s.0.states) evict_round
      (λ s w more. let r = evict_round-Evicted slack extra s w in (r.sound, r.smaller more))
      (λ s w stop. (evict_round-Evicted slack extra s w).stopped stop) (suc (length c.states))
      (c, evicted) v (omega arith)
