-- ===== src/Reassembly/Types.antt =====
-- The data types of flow/reassembly.rs and the extension of sequence numbers.
use bazalt.Prelude.{
  ℕ, ◌-◌, ◌%◌, ◌^◌, Bool, false, Option, none, List, [], length, ltb, if◌then◌else◌, saturating_add,
  saturating_sub, wrapping_sub32,
}
use bazalt.BTreeMap.{BTreeMap}

-- `INITIAL_SEQ_EPOCH`
abbrev pub initial_seq_epoch : ℕ
initial_seq_epoch = 2 ^ 32

-- A byte is a number; the code only moves bytes.
abbrev pub Bytes : Type 0
Bytes = List ℕ

pub record BufferedSegment : Type 0 where
  pub bytes : Bytes
  pub ts_ns : ℕ

-- `BufferedSegment::end`
abbrev pub end_of : BufferedSegment → ℕ → ℕ
end_of seg start = saturating_add start (length seg.bytes)

pub record ReassembledChunk : Type 0 where
  pub offset : ℕ
  pub ts_ns : ℕ
  pub bytes : Bytes

pub record StreamGap : Type 0 where
  pub offset : ℕ
  pub len : ℕ

pub record ReassemblyOutcome : Type 0 where
  pub emitted : List ReassembledChunk
  pub gaps : List StreamGap
  pub retransmit : Bool
  pub out_of_order : Bool
  pub fin_consumed : Bool

-- `ReassemblyOutcome::default()`
abbrev pub default_outcome : ReassemblyOutcome
default_outcome = record {
  emitted = [];
  gaps = [];
  retransmit = false;
  out_of_order = false;
  fin_consumed = false;
}

pub record TcpHalf : Type 0 where
  pub next_abs : Option ℕ
  pub stream_offset : ℕ
  pub out_of_order : BTreeMap BufferedSegment
  pub out_of_order_bytes : ℕ
  pub pending_fin : Option ℕ
  pub pending_fin_requires_ack : Bool
  pub fin_consumed : Bool
  pub initial_syn_seq : Option ℕ
  pub peer_ack_abs : Option ℕ
  pub gap_started_ts_ns : Option ℕ

-- `TcpHalf::default()`
abbrev pub default_half : TcpHalf
default_half = record {
  next_abs = none;
  stream_offset = 0;
  out_of_order = [];
  out_of_order_bytes = 0;
  pending_fin = none;
  pending_fin_requires_ack = false;
  fin_consumed = false;
  initial_syn_seq = none;
  peer_ack_abs = none;
  gap_started_ts_ns = none;
}

-- A half together with the `&mut ReassemblyOutcome` that its methods write to.
pub record Ctx : Type 0 where
  pub half : TcpHalf
  pub out : ReassemblyOutcome

-- The state in which a method makes its own `ReassemblyOutcome`.
abbrev pub fresh_ctx : TcpHalf → Ctx
fresh_ctx h = record { half = h; out = default_outcome }

-- `extend_seq`: the difference is read as an `i32`, so from 2^31 on it is negative.
unfoldable pub extend_seq : ℕ → ℕ → ℕ
extend_seq seq reference =
    let d = wrapping_sub32 seq (reference % 2 ^ 32) in
    if ltb d (2 ^ 31) then saturating_add reference d else saturating_sub reference (2 ^ 32 - d)
