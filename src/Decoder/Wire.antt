-- ===== src/Decoder/Wire.antt =====
-- Frames with Ethernet, VLAN, IPv4 and TCP headers as the protocols write them, to compare capture/parser.rs with.
use bazalt.Prelude.{
  ℕ, ◌+◌, ◌*◌, ◌/◌, ◌%◌, ◌^◌, ◌≤◌, ◌<◌, ◌≡◌, ◌∙◌, sym, refl, zero, suc, Bool, true, some, List, [],
  ◌∷◌, ◌++◌, length, if◌then◌else◌, take, drop, ap, arith,
}
use bazalt.Net.{v4}
use bazalt.FlowKeys.Types.{tcp, ParsedPacket}
use bazalt.FlowKeys.Canonical.{canonical_with_domain}
use bazalt.Decoder.Types.{Bytes}
use bazalt.Decoder.Domain.{mix_domain}
use bazalt.Decoder.Headers.{is_vlan}

-- What such a frame says. A VLAN tag has a type and an identity; the padding follows the IPv4 packet; `high_flags` has the flags from URG on.
pub record TcpFrame : Type 0 where
  pub dst_mac : ℕ
  pub src_mac : ℕ
  pub tags : List (ℕ × ℕ)
  pub service : ℕ
  pub id : ℕ
  pub dont_fragment : Bool
  pub ttl : ℕ
  pub ip_checksum : ℕ
  pub ip_option_words : ℕ
  pub ip_options : Bytes
  pub src : ℕ
  pub dst : ℕ
  pub src_port : ℕ
  pub dst_port : ℕ
  pub seq : ℕ
  pub ack : ℕ
  pub fin : Bool
  pub syn : Bool
  pub rst : Bool
  pub psh : Bool
  pub has_ack : Bool
  pub high_flags : ℕ
  pub window : ℕ
  pub tcp_checksum : ℕ
  pub urgent : ℕ
  pub option_words : ℕ
  pub options : Bytes
  pub payload : Bytes
  pub padding : Bytes

-- Big-endian bytes in front of others.
abbrev pub put16 : ℕ → Bytes → Bytes
put16 n rest = n / 256 % 256 ∷ n % 256 ∷ rest

abbrev pub put32 : ℕ → Bytes → Bytes
put32 n rest = put16 (n / 65_536 % 65_536) (put16 (n % 65_536) rest)

abbrev pub put48 : ℕ → Bytes → Bytes
put48 n rest = put16 (n / 2 ^ 32 % 65_536) (put32 (n % 2 ^ 32) rest)

abbrev pub total_len : TcpFrame → ℕ
total_len f = 40 + length f.ip_options + length f.options + length f.payload

abbrev pub flag : Bool → ℕ → ℕ
flag b value = if b then value else 0

-- The byte of the flags, FIN being the lowest bit.
abbrev pub flag_byte : TcpFrame → ℕ
flag_byte f =
    flag f.fin 1
    + flag f.syn 2
    + flag f.rst 4
    + flag f.psh 8
    + flag f.has_ack 16
    + f.high_flags * 32

abbrev pub put_tcp : TcpFrame → Bytes → Bytes
put_tcp f rest = put16 f.src_port (
    put16 f.dst_port (
      put32 f.seq (
        put32 f.ack (
          (5 + f.option_words) * 16
          ∷ flag_byte f
          ∷ put16 f.window (put16 f.tcp_checksum (put16 f.urgent rest))))))

abbrev pub put_ipv4 : TcpFrame → Bytes → Bytes
put_ipv4 f rest =
    (0x45 + f.ip_option_words)
    ∷ f.service
    ∷ put16 (total_len f) (
        put16 f.id (
          (if f.dont_fragment then 64 else 0)
          ∷ 0
          ∷ f.ttl
          ∷ 6
          ∷ put16 f.ip_checksum (put32 f.src (put32 f.dst (f.ip_options ++ rest)))))

abbrev pub put_tags : List (ℕ × ℕ) → Bytes → Bytes
put_tags [] rest = put16 0x0800 rest
put_tags (t ∷ tags) rest = put16 t.0 (put16 t.1 (put_tags tags rest))

abbrev pub put_ethernet : TcpFrame → Bytes → Bytes
put_ethernet f rest = put48 f.dst_mac (put48 f.src_mac (put_tags f.tags rest))

abbrev pub put_frame : TcpFrame → Bytes
put_frame f = put_ethernet f (put_ipv4 f (put_tcp f (f.options ++ (f.payload ++ f.padding))))

abbrev pub AreTags : List (ℕ × ℕ) → Type 0
AreTags [] = Unit {0}
AreTags (t ∷ tags) = (is_vlan t.0 ≡ true) × (t.1 < 2 ^ 16) × AreTags tags

-- The domain that the tags make of one.
abbrev pub domain_of : ℕ → List (ℕ × ℕ) → ℕ
domain_of domain [] = domain
domain_of domain (t ∷ tags) = domain_of (mix_domain domain 0x564c_414e (t.1 % 4096)) tags

-- The values fit their fields.
pub record IsEncodable (f : TcpFrame) : Type 0 where
  pub are_tags : AreTags f.tags
  pub few_tags : length f.tags ≤ 4
  pub total_fits : total_len f < 2 ^ 16
  pub src_fits : f.src < 2 ^ 32
  pub dst_fits : f.dst < 2 ^ 32
  pub src_port_fits : f.src_port < 2 ^ 16
  pub dst_port_fits : f.dst_port < 2 ^ 16
  pub seq_fits : f.seq < 2 ^ 32
  pub ack_fits : f.ack < 2 ^ 32
  pub words_fit : f.option_words ≤ 10
  pub ip_words_fit : f.ip_option_words ≤ 10
  pub ip_words : length f.ip_options ≡ f.ip_option_words * 4
  pub words : length f.options ≡ f.option_words * 4

-- The packet that the frame stands for.
abbrev pub packet_of : ℕ → ℕ → TcpFrame → ParsedPacket
packet_of ts_ns wire_len f =
    let keyed =
      canonical_with_domain (v4 f.src) f.src_port (v4 f.dst) f.dst_port tcp (domain_of 0 f.tags) in
    record {
      ts_ns = ts_ns;
      key = keyed.0;
      direction = keyed.1;
      seq = some f.seq;
      ack = some f.ack;
      flags = record { fin = f.fin; syn = f.syn; rst = f.rst; psh = f.psh; ack = f.has_ack };
      payload = f.payload;
      wire_len = wire_len;
    }

pub put16_lem : (n : ℕ) → n < 2 ^ 16 → n / 256 % 256 * 256 + n % 256 ≡ n
put16_lem n h = omega arith

pub be32_lem :
    (n : ℕ)
    → n < 2 ^ 32
    → (n / 65_536 % 65_536 / 256 % 256 * 256 + n / 65_536 % 65_536 % 256) * 65_536
        + (n % 65_536 / 256 % 256 * 256 + n % 65_536 % 256)
      ≡ n
be32_lem n h = omega arith

pub drop-append : (xs ys : Bytes) → drop (length xs) (xs ++ ys) ≡ ys
drop-append [] ys = refl
drop-append (x ∷ xs) ys = drop-append xs ys

drop_nil : (n : ℕ) → let empty : Bytes = [] in drop n empty ≡ []
drop_nil zero = refl
drop_nil (suc n) = refl

pub drop-drop : (n m : ℕ) (xs : Bytes) → drop (n + m) xs ≡ drop m (drop n xs)
drop-drop zero m xs = ap (λ (k : ℕ). drop k xs) (omega arith)
drop-drop (suc n) m [] = drop_nil (suc n + m) ∙ sym (drop_nil m)
drop-drop (suc n) m (x ∷ xs) =
    let e : suc n + m ≡ suc (n + m) = omega arith in rw e (drop-drop n m xs)

pub take-append : (xs ys : Bytes) → take (length xs) (xs ++ ys) ≡ xs
take-append [] ys = refl
take-append (x ∷ xs) ys = ap (λ t. x ∷ t) (take-append xs ys)
