-- ===== src/Reassembly/Steps/Methods.antt =====
-- `accept`, `acknowledge` and `finalize` in flow/reassembly.rs are sequences of elementary steps.
use bazalt.Prelude.{
  ℕ, ◌≡◌, refl, ◌∙◌, Bool, true, false, some, length, is_empty, is_some, drop, ltb, if◌then◌else◌,
  if_cases, option_cases, saturating_add, wrapping_add32, arith,
}
use bazalt.Reassembly.Types.{Bytes, TcpHalf, Ctx, fresh_ctx, extend_seq}
use bazalt.Reassembly.Half.{syn_len, observe, set_retransmit, emit, flush_ooo}
use bazalt.Reassembly.Insert.{insert_ooo_first_seen}
use bazalt.Reassembly.Accept.{
  mark_fin, clip_to_fin, relieve, accept_ahead, cut_off, accept_in_order, accept_payload, settle,
  accept_open, accept, note_ack, acknowledge,
}
use bazalt.Reassembly.Steps.Relation.{Steps, SameStream, notes, done, Steps-trans, one}
use bazalt.Reassembly.Steps.Loops.{consume_fin_if_ready-Steps, emit-Steps, flush_ooo-Steps}
use bazalt.Reassembly.Steps.Recover.{
  set_retransmit-Steps, recover_known_ack-Steps, recover_ooo_timeout-Steps,
  recover_ooo_pressure-Steps,
}
use bazalt.Reassembly.Steps.Insert.{insert_ooo_first_seen-Steps}

mark_fin-SameStream :
    (fin : Bool) (start end expected : ℕ) (h : TcpHalf)
    → SameStream (fresh_ctx h) (fresh_ctx (mark_fin fin start end expected h))
unfolding mark_fin
mark_fin-SameStream fin start end expected h = record {
  next_abs = ground arith;
  stream_offset = ground arith;
  out_of_order = ground arith;
  out_of_order_bytes = ground arith;
  fin_consumed = ground arith;
  emitted = refl;
  gaps = refl;
}

clip_to_fin-SameStream :
    (start end : ℕ) (bytes : Bytes) (c : Ctx) → SameStream c (clip_to_fin start end bytes c).1
unfolding clip_to_fin
clip_to_fin-SameStream start end bytes c = record {
  next_abs = ground arith;
  stream_offset = ground arith;
  out_of_order = ground arith;
  out_of_order_bytes = ground arith;
  fin_consumed = ground arith;
  emitted = ground arith;
  gaps = ground arith;
}

relieve-Steps : (max_ooo max_segments : ℕ) (c : Ctx) → Steps true c (relieve max_ooo max_segments c)
unfolding relieve
relieve-Steps max_ooo max_segments c =
    Steps-trans (recover_known_ack-Steps c) (recover_ooo_pressure-Steps max_ooo max_segments _)

accept_ahead-Steps :
    (start ts : ℕ) (bytes : Bytes) (max_ooo max_segments : ℕ) (c : Ctx)
    → c.half.fin_consumed ≡ false
    → is_some c.half.next_abs ≡ true
    → Steps true c (accept_ahead start ts bytes max_ooo max_segments c)
unfolding accept_ahead
accept_ahead-Steps start ts bytes max_ooo max_segments c opened begun =
    Steps-trans
      (Steps-trans
        (one (
          notes (record {
            next_abs = refl;
            stream_offset = refl;
            out_of_order = refl;
            out_of_order_bytes = refl;
            fin_consumed = refl;
            emitted = refl;
            gaps = refl;
          })))
        (insert_ooo_first_seen-Steps start ts bytes _ opened begun).0)
      (relieve-Steps max_ooo max_segments _)

-- From a state that stands where `c` does, the payload is placed by steps.
in_order-Steps :
    (from start expected ts : ℕ) (bytes : Bytes) (max_ooo max_segments : ℕ) (c d : Ctx)
    → Steps true c d
    → d.half.fin_consumed ≡ false
    → d.half.next_abs ≡ some expected
    → Steps true c (
        if is_empty d.half.out_of_order
        then emit (drop from bytes) ts d
        else relieve max_ooo max_segments
            (flush_ooo (insert_ooo_first_seen (saturating_add start from) ts (drop from bytes) d)))
in_order-Steps from start expected ts bytes max_ooo max_segments c d r opened e =
    if_cases (Steps true c) (is_empty d.half.out_of_order)
      (λ _. Steps-trans r (emit-Steps (drop from bytes) ts expected d e))
      (λ _.
        Steps-trans
          (Steps-trans r
            (insert_ooo_first_seen-Steps (saturating_add start from) ts (drop from bytes) d opened
              (rw e refl)).0)
          (Steps-trans (flush_ooo-Steps _) (relieve-Steps max_ooo max_segments _)))

accept_in_order-Steps :
    (start expected ts : ℕ) (bytes : Bytes) (max_ooo max_segments : ℕ) (c : Ctx)
    → c.half.fin_consumed ≡ false
    → c.half.next_abs ≡ some expected
    → Steps true c (accept_in_order start expected ts bytes max_ooo max_segments c)
unfolding accept_in_order
accept_in_order-Steps start expected ts bytes max_ooo max_segments c opened e =
    in_order-Steps (cut_off start expected (length bytes)) start expected ts bytes max_ooo
      max_segments c (if ltb start expected then set_retransmit c else c)
      (if_cases (Steps true c) (ltb start expected) (λ _. set_retransmit-Steps c) (λ _. done))
      (if_cases (λ (d : Ctx). d.half.fin_consumed ≡ false) (ltb start expected) (λ _. opened)
        (λ _. opened))
      (if_cases (λ (d : Ctx). d.half.next_abs ≡ some expected) (ltb start expected) (λ _. e)
        (λ _. e))

accept_payload-Steps :
    (start expected ts : ℕ) (bytes : Bytes) (max_ooo max_segments : ℕ) (c : Ctx)
    → c.half.fin_consumed ≡ false
    → c.half.next_abs ≡ some expected
    → Steps true c (accept_payload start expected ts bytes max_ooo max_segments c)
unfolding accept_payload
accept_payload-Steps start expected ts bytes max_ooo max_segments c opened e =
    if_cases (Steps true c) (is_empty bytes) (λ _. done)
      λ _.
        if_cases (Steps true c) (ltb expected start)
          (λ _. accept_ahead-Steps start ts bytes max_ooo max_segments c opened (rw e refl))
          (λ _. accept_in_order-Steps start expected ts bytes max_ooo max_segments c opened e)

settle-Steps : (gap_timeout ts : ℕ) (c : Ctx) → Steps true c (settle gap_timeout ts c)
unfolding settle
settle-Steps gap_timeout ts c =
    Steps-trans
      (Steps-trans (if_cases (Steps true c) _ (λ _. recover_known_ack-Steps c) (λ _. done))
        (recover_ooo_timeout-Steps gap_timeout ts _))
      (consume_fin_if_ready-Steps _)

accept_open-Steps :
    (start : ℕ) (fin : Bool) (ts : ℕ) (bytes : Bytes)
    (max_ooo max_segments gap_timeout expected : ℕ) (h : TcpHalf)
    → h.fin_consumed ≡ false
    → h.next_abs ≡ some expected
    → Steps true
        (fresh_ctx h)
        (accept_open start fin ts bytes max_ooo max_segments gap_timeout expected h)
unfolding accept_open
accept_open-Steps start fin ts bytes max_ooo max_segments gap_timeout expected h opened e =
    Steps-trans
      (Steps-trans (Steps-trans (one (notes marked)) (one (notes clipped))) (
        accept_payload-Steps start expected ts (clip_to_fin start end bytes c).0 max_ooo
          max_segments (clip_to_fin start end bytes c).1
          (clipped.fin_consumed ∙ marked.fin_consumed ∙ opened)
          (clipped.next_abs ∙ marked.next_abs ∙ e)))
      (settle-Steps gap_timeout ts _)
  where
    end : ℕ
    end = saturating_add start (length bytes)

    c : Ctx
    c = fresh_ctx (mark_fin fin start end expected h)

    marked : SameStream (fresh_ctx h) c
    marked = mark_fin-SameStream fin start end expected h

    clipped : SameStream c (clip_to_fin start end bytes c).1
    clipped = clip_to_fin-SameStream start end bytes c

pub accept-Steps :
    (h : TcpHalf) (seq : ℕ) (syn fin : Bool) (ts : ℕ) (bytes : Bytes)
    (max_ooo max_segments gap_timeout : ℕ)
    → Steps true
        (fresh_ctx (observe h seq syn))
        (accept h seq syn fin ts bytes max_ooo max_segments gap_timeout)
unfolding accept
accept-Steps h seq syn fin ts bytes max_ooo max_segments gap_timeout =
    if_cases (Steps true (fresh_ctx h')) h'.fin_consumed (λ _. one (notes (ground arith)))
      λ opened.
        option_cases (Steps true (fresh_ctx h')) h'.next_abs (λ _. done)
          λ expected e.
            accept_open-Steps (extend_seq (wrapping_add32 seq (syn_len syn)) expected) fin ts bytes
              max_ooo max_segments gap_timeout expected h' opened e
  where
    h' : TcpHalf
    h' = observe h seq syn

note_ack-SameStream :
    (ack expected : ℕ) (h : TcpHalf)
    → SameStream (fresh_ctx h) (fresh_ctx (note_ack ack expected h))
unfolding note_ack
note_ack-SameStream ack expected h = record {
  next_abs = ground arith;
  stream_offset = ground arith;
  out_of_order = ground arith;
  out_of_order_bytes = ground arith;
  fin_consumed = ground arith;
  emitted = refl;
  gaps = refl;
}

pub acknowledge-Steps :
    {g : Bool} (h : TcpHalf) (ack ts gap_timeout : ℕ)
    → Steps g (fresh_ctx h) (acknowledge h ack ts gap_timeout)
unfolding acknowledge
acknowledge-Steps {g} h ack ts gap_timeout =
    option_cases (Steps g (fresh_ctx h)) h.next_abs (λ _. done)
      λ expected _.
        if_cases (Steps g (fresh_ctx h)) _ (λ _. noted expected)
          λ _. Steps-trans (Steps-trans (noted expected) (recover_known_ack-Steps _)) (
            Steps-trans (recover_ooo_timeout-Steps gap_timeout ts _) (consume_fin_if_ready-Steps _))
  where
    noted :
        (expected : ℕ)
        → Steps g (fresh_ctx h) (fresh_ctx (note_ack (extend_seq ack expected) expected h))
    noted expected = one (notes (note_ack-SameStream (extend_seq ack expected) expected h))
