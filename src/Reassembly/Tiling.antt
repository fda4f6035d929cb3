-- ===== src/Reassembly/Tiling.antt =====
-- What flow/reassembly.rs reports of a stream: chunks and gaps that follow one another.
use bazalt.Prelude.{
  ℕ, ◌<◌, ◌≡◌, refl, Bool, false, List, [], ◌∷◌, ◌++◌, length, is_empty-pos, saturating_add, arith,
}
use bazalt.Reassembly.Types.{Bytes, ReassembledChunk, StreamGap, TcpHalf, Ctx}
use bazalt.Reassembly.Half.{observe, remove_segment}
use bazalt.Reassembly.Insert.{store_piece}
use bazalt.Reassembly.Recover.{finalize}
use bazalt.Reassembly.Accept.{accept, acknowledge}
use bazalt.Reassembly.Steps.Relation.{
  Step, Steps, notes, emits, skips, closes, removes, stores, done, next, consume_fin_at_cases,
}
use bazalt.Reassembly.Steps.Methods.{accept-Steps, acknowledge-Steps}
use bazalt.Reassembly.Steps.Recover.{finalize-Steps}

-- Chunks and gaps, each list in order, cover the stream offsets from `from` up to the last index
-- with nothing left out and nothing twice: every chunk and every gap starts where the one reported
-- before it ended, and none is empty. An offset stays at `u64::MAX` once it is there.
pub data Tiles (from : ℕ) : List ReassembledChunk → List StreamGap → ℕ → Type 0 where
  start : Tiles from [] [] from
  chunk :
      {es : List ReassembledChunk} {gs : List StreamGap} {o : ℕ}
      → Tiles from es gs o
      → (e : ReassembledChunk) → e.offset ≡ o
      → 0 < length e.bytes
      → Tiles from (es ++ e ∷ []) gs (saturating_add o (length e.bytes))
  gap :
      {es : List ReassembledChunk} {gs : List StreamGap} {o : ℕ}
      → Tiles from es gs o
      → (g : StreamGap) → g.offset ≡ o
      → 0 < g.len
      → Tiles from es (gs ++ g ∷ []) (saturating_add o g.len)

-- The chunks and gaps of an outcome cover the offsets that the half moved by.
abbrev pub IsTiled : ℕ → Ctx → Type 0
IsTiled from c = Tiles from c.out.emitted c.out.gaps c.half.stream_offset

Step-IsTiled : (from : ℕ) {g : Bool} {c d : Ctx} → Step g c d → IsTiled from c → IsTiled from d
unfolding remove_segment store_piece
Step-IsTiled from (notes s) t = rw (s.emitted, s.gaps, s.stream_offset) t
Step-IsTiled from (emits bytes ts n full e) t = chunk t _ refl (is_empty-pos bytes full)
Step-IsTiled from (skips target n lt e) t = gap t _ refl (omega arith)
Step-IsTiled from {c = c} (closes fin n opened f e) t =
    consume_fin_at_cases (IsTiled from) fin n c t (λ _. t) (λ _. t)
Step-IsTiled from (removes key seg e) t = t
Step-IsTiled from (stores g begin ts bytes cursor end opened begun le fits more below free) t = t

Steps-IsTiled : (from : ℕ) {g : Bool} {c d : Ctx} → Steps g c d → IsTiled from c → IsTiled from d
Steps-IsTiled from done t = t
Steps-IsTiled from (next r s) t = Step-IsTiled from s (Steps-IsTiled from r t)

-- Whatever segment arrives, `accept` reports chunks and gaps that cover exactly the stream offsets
-- between the half's offset before and after, in order, without overlap and without an empty piece.
pub accept-IsTiled :
    (h : TcpHalf) (seq : ℕ) (syn fin : Bool) (ts : ℕ) (bytes : Bytes)
    (max_ooo max_segments gap_timeout : ℕ)
    → IsTiled h.stream_offset (accept h seq syn fin ts bytes max_ooo max_segments gap_timeout)
unfolding observe
accept-IsTiled h seq syn fin ts bytes max_ooo max_segments gap_timeout =
    Steps-IsTiled h.stream_offset
      (accept-Steps h seq syn fin ts bytes max_ooo max_segments gap_timeout) start

-- `acknowledge`, for any ACK, and `finalize` report chunks and gaps that cover exactly the stream
-- offsets between the half's offset before and after, in order, without overlap and without an empty
-- piece.
pub recover-IsTiled :
    (h : TcpHalf) (ack ts gap_timeout : ℕ)
    → IsTiled h.stream_offset (acknowledge h ack ts gap_timeout)
      × IsTiled h.stream_offset (finalize h)
recover-IsTiled h ack ts gap_timeout = (
  Steps-IsTiled h.stream_offset {g = false} (acknowledge-Steps h ack ts gap_timeout) start,
  Steps-IsTiled h.stream_offset {g = false} (finalize-Steps h) start,
)
