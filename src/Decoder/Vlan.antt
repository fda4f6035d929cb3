-- ===== src/Decoder/Vlan.antt =====
-- The loop over VLAN tags of capture/parser.rs in a frame that has such tags written.
use bazalt.Prelude.{
  ℕ, ◌+◌, ◌*◌, ◌%◌, ◌≤◌, ◌≡◌, ◌∙◌, sym, refl, zero, suc, false, List, [], ◌∷◌, length, length-drop,
  ltb, drop, ap, arith,
}
use bazalt.Decoder.Types.{Bytes, be16}
use bazalt.Decoder.Domain.{mix_domain}
use bazalt.Decoder.Headers.{tagged, vlan_tags}
use bazalt.Decoder.Truncated.{be16-drop}
use bazalt.Decoder.Wire.{TcpFrame, put_tags, put_ethernet, AreTags, domain_of, put16_lem, drop-drop}

length-put_tags :
    (tags : List (ℕ × ℕ)) (rest : Bytes)
    → length (put_tags tags rest) ≡ 2 + 4 * length tags + length rest
length-put_tags [] rest = omega arith
length-put_tags (t ∷ tags) rest = omega (arith, length-put_tags tags rest)

drop-put_tags :
    (tags : List (ℕ × ℕ)) (rest : Bytes) → drop (2 + 4 * length tags) (put_tags tags rest) ≡ rest
drop-put_tags [] rest = refl
drop-put_tags (t ∷ tags) rest =
    let e : 2 + 4 * suc (length tags) ≡ 4 + (2 + 4 * length tags) = omega arith in
    ap (λ (n : ℕ). drop n (put_tags (t ∷ tags) rest)) e
    ∙ drop-drop 4 (2 + 4 * length tags) (put_tags (t ∷ tags) rest)
    ∙ drop-put_tags tags rest

pub length-put_ethernet :
    (f : TcpFrame) (rest : Bytes)
    → length (put_ethernet f rest) ≡ 14 + 4 * length f.tags + length rest
length-put_ethernet f rest = omega (arith, length-put_tags f.tags rest)

pub drop-put_ethernet :
    (f : TcpFrame) (rest : Bytes) → drop (14 + 4 * length f.tags) (put_ethernet f rest) ≡ rest
drop-put_ethernet f rest =
    let e : 14 + 4 * length f.tags ≡ 12 + (2 + 4 * length f.tags) = omega arith in
    ap (λ (n : ℕ). drop n (put_ethernet f rest)) e
    ∙ drop-drop 12 (2 + 4 * length f.tags) (put_ethernet f rest)
    ∙ drop-put_tags f.tags rest

-- Two bytes in a frame, of which the part from `e` on is known.
be16_at :
    (frame part : Bytes) (e i at : ℕ)
    → drop e frame ≡ part
    → at ≡ e + i
    → be16 frame at ≡ be16 part i
be16_at frame part e i at behind place =
    ap (be16 frame) place ∙ sym (be16-drop e frame i) ∙ ap (λ (p : Bytes). be16 p i) behind

pub vlan_tags-put_tags :
    (n : ℕ) (tags : List (ℕ × ℕ)) (frame rest : Bytes) (offset ethertype domain e : ℕ)
    → AreTags tags
    → length tags ≤ n
    → offset ≡ e + 2
    → ethertype ≡ be16 frame e
    → drop e frame ≡ put_tags tags rest
    → vlan_tags n frame offset ethertype domain
      ≡ tagged (offset + 4 * length tags) 0x0800 (domain_of domain tags)
unfolding vlan_tags
vlan_tags-put_tags zero [] frame rest offset ethertype domain e valid few place type behind =
    let known : ethertype ≡ 0x0800 =
      type ∙ be16_at frame (put_tags [] rest) e 0 e behind (omega arith) in
    let stays : offset + 0 ≡ offset = omega arith in rw (known, stays) refl
vlan_tags-put_tags (suc n) [] frame rest offset ethertype domain e valid few place type behind =
    let known : ethertype ≡ 0x0800 =
      type ∙ be16_at frame (put_tags [] rest) e 0 e behind (omega arith) in
    let stays : offset + 0 ≡ offset = omega arith in rw (known, stays) refl
vlan_tags-put_tags zero (t ∷ tags) frame rest offset ethertype domain e valid few place type
      behind =
    absurd (omega arith)
vlan_tags-put_tags (suc n) (t ∷ tags) frame rest offset ethertype domain e valid few place type
      behind =
    let part = put_tags (t ∷ tags) rest in
    let known : ethertype ≡ t.0 =
      type
      ∙ be16_at frame part e 0 e behind (omega arith)
      ∙ put16_lem t.0 (ground (arith, valid.0)) in
    let identity : be16 frame offset ≡ t.1 =
      be16_at frame part e 2 offset behind place ∙ put16_lem t.1 valid.1 in
    let further : drop (e + 4) frame ≡ put_tags tags rest =
      drop-drop e 4 frame ∙ ap (drop 4) behind in
    let fits : ltb (length frame) (offset + 4) ≡ false =
      ground (arith, place, ap length behind, length-drop e frame, length-put_tags tags rest) in
    let deep =
      vlan_tags-put_tags n tags frame rest (offset + 4) (be16 frame (offset + 2))
        (mix_domain domain 0x564c_414e (t.1 % 4096)) (e + 4) valid.2 (omega (arith, few))
        (omega (arith, place)) (ap (be16 frame) (omega (arith, place))) further in
    let more : offset + 4 + 4 * length tags ≡ offset + 4 * length (t ∷ tags) = omega arith in
    rw (known, valid.0, fits, identity)
      (deep ∙ ap (λ (at : ℕ). tagged at 0x0800 (domain_of domain (t ∷ tags))) more)
