-- ===== src/Flow/Carries.antt =====
-- What every step on a flow in flow/mod.rs leaves as it was: its identity, its source, the counter of
-- active flows, and the validity of its two halves.
use bazalt.Prelude.{
  ℕ, ◌≡◌, refl, ap, ◌∙◌, Bool, true, false, List, [], ◌∷◌, is_empty, if_cases, Bool-cases, inl, inr,
}
use bazalt.FlowKeys.Types.{Direction, a_to_b, b_to_a, TransportProtocol, tcp, udp, FlowKey}
use bazalt.Reassembly.Types.{ReassembledChunk, ReassemblyOutcome, TcpHalf}
use bazalt.Reassembly.Recover.{finalize}
use bazalt.Reassembly.Valid.{IsValid, recover-IsValid}
use bazalt.Flow.Types.{Env, World, FlowState, FlowOutput, send, sub64, closed}
use bazalt.Flow.State.{half, set_half, summary}
use bazalt.Flow.Close.{
  Work, chunk_of, send_chunks, emit_tcp_outcome, finalize_both, finalize_tcp_halves, report_closed,
}

pub record HalvesValid (f : FlowState) : Type 0 where
  pub a_to_b_valid : IsValid f.a_to_b_half
  pub b_to_a_valid : IsValid f.b_to_a_half

abbrev pub active : World → ℕ
active w = w.metrics.active_flows

pub record Carries (f : FlowState) (w : World) (g : FlowState) (x : World) : Type 0 where
  pub id : g.id ≡ f.id
  pub source : g.source_prefix ≡ f.source_prefix
  pub active_flows : active x ≡ active w
  pub halves : HalvesValid f → HalvesValid g

pub stays : (f : FlowState) (w x : World) → active x ≡ active w → Carries f w f x
stays f w x e = record { id = refl; source = refl; active_flows = e; halves = λ v. v }

pub onward :
    {f g h : FlowState} {w x y : World} → Carries f w g x → Carries g x h y → Carries f w h y
onward c d = record {
  id = d.id ∙ c.id;
  source = d.source ∙ c.source;
  active_flows = d.active_flows ∙ c.active_flows;
  halves = λ v. d.halves (c.halves v);
}

pub active-send : (env : Env) (m : FlowOutput) (w : World) → active (send env m w).1 ≡ active w
unfolding send
active-send env m w =
    if_cases (λ (r : Bool × World). active r.1 ≡ active w) (env.accepts w.sends) (λ _. refl)
      (λ _. refl)

-- A step on a flow and the world, as `Work`.
abbrev pub Works : Work → Work → Type 0
Works k l = Carries k.flow k.world l.flow l.world

send_chunks-Works :
    (env : Env) (d : Direction) (key : FlowKey) (cs : List ReassembledChunk) (k : Work)
    → Works k (send_chunks env d key cs k)
unfolding send_chunks
send_chunks-Works env d key [] k = stays k.flow k.world k.world refl
send_chunks-Works env d key (c ∷ cs) k =
    let s = send env (chunk_of d key c k.flow) k.world in
    if_cases (Works k) s.0
      (λ sent.
        onward (stays k.flow k.world s.1 (active-send env _ k.world))
          (send_chunks-Works env d key cs _))
      (λ failed. record {
        id = refl;
        source = refl;
        active_flows = active-send env _ k.world;
        halves = λ v. record { a_to_b_valid = v.a_to_b_valid; b_to_a_valid = v.b_to_a_valid };
      })

pub emit_tcp_outcome-Works :
    (env : Env) (o : ReassemblyOutcome) (d : Direction) (key : FlowKey) (k : Work)
    → Works k (emit_tcp_outcome env o d key k)
unfolding emit_tcp_outcome
emit_tcp_outcome-Works env o d key k = elim (Bool-cases (is_empty o.gaps)) [
  | inl whole ↦ rw whole (send_chunks-Works env d key o.emitted k)
  | inr gaps ↦
      rw gaps (onward (stays k.flow k.world _ refl) (send_chunks-Works env d key o.emitted _))
]

pub set_half-Carries :
    (d : Direction) (h : TcpHalf) (f : FlowState) (w x : World)
    → active x ≡ active w
    → (IsValid (half f d) → IsValid h)
    → Carries f w (set_half d h f) x
unfolding set_half half
set_half-Carries a_to_b h f w x e valid = record {
  id = refl;
  source = refl;
  active_flows = e;
  halves = λ v. record { a_to_b_valid = valid v.a_to_b_valid; b_to_a_valid = v.b_to_a_valid };
}
set_half-Carries b_to_a h f w x e valid = record {
  id = refl;
  source = refl;
  active_flows = e;
  halves = λ v. record { a_to_b_valid = v.a_to_b_valid; b_to_a_valid = valid v.b_to_a_valid };
}

-- The match on a protocol, under a predicate.
pub protocol_cases {ℓ κ} :
    {A : Type ℓ} (P : A → Type κ) (p : TransportProtocol) {t u : A}
    → P t
    → P u
    → P (elim p [ tcp ↦ t | udp ↦ u ])
protocol_cases P tcp t u = t
protocol_cases P udp t u = u

abbrev pub CarriesTo : FlowState → World → FlowState × World → Type 0
CarriesTo f w r = Carries f w r.0 r.1

pub show : (f : FlowState) (w : World) → Carries f w (record f { visible = true }) w
show f w = record {
  id = refl;
  source = refl;
  active_flows = refl;
  halves = λ v. record { a_to_b_valid = v.a_to_b_valid; b_to_a_valid = v.b_to_a_valid };
}

finalize_both-Carries :
    (env : Env) (key : FlowKey) (f : FlowState) (w : World)
    → CarriesTo f w (finalize_both env key f w)
unfolding finalize_both half set_half
finalize_both-Carries env key f w =
    let a = finalize f.a_to_b_half in
    let b = finalize f.b_to_a_half in
    let first = set_half a_to_b a.half f in
    let ended = set_half b_to_a b.half first in
    let start : Work = record { flow = ended; world = w; emitted = false } in
    let after_a = emit_tcp_outcome env a.out a_to_b key start in
    let after_b = emit_tcp_outcome env b.out b_to_a key after_a in
    let halves : Carries f w ended w =
      onward
        (set_half-Carries a_to_b a.half f w w refl (λ v. (recover-IsValid f.a_to_b_half 0 0 0 v).1))
        (set_half-Carries b_to_a b.half first w w refl
          (λ v. (recover-IsValid f.b_to_a_half 0 0 0 v).1)) in
    let through : Carries f w after_b.flow after_b.world = onward halves (
      onward (emit_tcp_outcome-Works env a.out a_to_b key start)
        (emit_tcp_outcome-Works env b.out b_to_a key after_a)) in
    if_cases (CarriesTo f w) after_b.emitted
      (λ shown. onward through (show after_b.flow after_b.world)) (λ hidden. through)

finalize_tcp_halves-Carries :
    (env : Env) (key : FlowKey) (f : FlowState) (w : World)
    → CarriesTo f w (finalize_tcp_halves env key f w)
unfolding finalize_tcp_halves
finalize_tcp_halves-Carries env key f w =
    protocol_cases (CarriesTo f w) key.protocol (finalize_both-Carries env key f w)
      (stays f w w refl)

-- The end of a flow gives back its slot.
pub report_closed-active :
    (env : Env) (key : FlowKey) (f : FlowState) (w : World)
    → active (report_closed env key f w) ≡ sub64 (active w) 1
unfolding report_closed
report_closed-active env key f w =
    let r = finalize_tcp_halves env key f w in
    let same = (finalize_tcp_halves-Carries env key f w).active_flows in
    elim (Bool-cases r.0.visible) [
      | inl shown ↦
          rw shown (ap (λ (n : ℕ). sub64 n 1) (active-send env (closed (summary r.0)) r.1 ∙ same))
      | inr hidden ↦ rw hidden (ap (λ (n : ℕ). sub64 n 1) same)
    ]
