-- ===== src/Flow/Tombstones.antt =====
-- `TcpTombstones` in flow/mod.rs, the bounded set of flows that closed a moment ago.
use bazalt.Prelude.{
  ℕ, ◌+◌, Bool, false, Option, none, some, List, [], ◌∷◌, ◌++◌, length, ltb, leb, ◌==◌,
  if◌then◌else◌,
}
use bazalt.HashMap.{HashMap, lookup, put, delete}
use bazalt.FlowKeys.Types.{FlowKey}
use bazalt.Flow.Types.{flow_key}

-- In nanoseconds.
abbrev pub tcp_tombstone_ttl : ℕ
tcp_tombstone_ttl = 2_000_000_000

abbrev pub tcp_tombstone_max : ℕ
tcp_tombstone_max = 65_536

pub record TcpTombstones : Type 0 where
  pub by_key : HashMap FlowKey ℕ
  pub order : List (ℕ × FlowKey)

-- `TcpTombstones::new`
abbrev pub no_tombstones : TcpTombstones
no_tombstones = record { by_key = []; order = [] }

-- `by_key.get(&key).is_some_and(|current| *current == deadline)`
abbrev pub is_current : ℕ → FlowKey → HashMap FlowKey ℕ → Bool
is_current deadline key m = elim (lookup key m) [ none ↦ false | some d ↦ d == deadline ]

-- What both loops do with an entry that leaves the queue.
unfoldable pub forget : ℕ → FlowKey → HashMap FlowKey ℕ → HashMap FlowKey ℕ
forget deadline key m = if is_current deadline key m then delete key m else m

-- The loop of `expire` over the queue.
unfoldable pub expire_from : ℕ → List (ℕ × FlowKey) → HashMap FlowKey ℕ → TcpTombstones
expire_from now [] m = record { by_key = m; order = [] }
expire_from now ((deadline, key) ∷ order) m =
    let rest = expire_from now order (forget deadline key m) in
    if leb deadline now then rest else record { by_key = m; order = (deadline, key) ∷ order }

abbrev pub expire : ℕ → TcpTombstones → TcpTombstones
expire now t = expire_from now t.order t.by_key

-- The loop of `insert` that keeps the bound.
unfoldable pub shrink_from : List (ℕ × FlowKey) → HashMap FlowKey ℕ → TcpTombstones
shrink_from [] m = record { by_key = m; order = [] }
shrink_from ((deadline, key) ∷ order) m =
    let rest = shrink_from order (forget deadline key m) in
    if ltb tcp_tombstone_max (length m)
    then rest
    else record { by_key = m; order = (deadline, key) ∷ order }

unfoldable pub insert_tombstone : FlowKey → ℕ → TcpTombstones → TcpTombstones
insert_tombstone key now t =
    let deadline = now + tcp_tombstone_ttl in
    let added : TcpTombstones = record {
      by_key = put key deadline t.by_key;
      order = t.order ++ ((deadline, key) ∷ []);
    } in
    let expired = expire now added in shrink_from expired.order expired.by_key

-- `TcpTombstones::remove`; the queue keeps its entry.
unfoldable pub remove_tombstone : FlowKey → TcpTombstones → TcpTombstones
remove_tombstone key t = record t { by_key = delete key t.by_key }

-- `is_some_and(|deadline| *deadline > now)`
abbrev pub is_ahead : Option ℕ → ℕ → Bool
is_ahead none now = false
is_ahead (some deadline) now = ltb now deadline

unfoldable pub contains_live : FlowKey → ℕ → TcpTombstones → Bool × TcpTombstones
contains_live key now t =
    let expired = expire now t in (is_ahead (lookup key expired.by_key) now, expired)
