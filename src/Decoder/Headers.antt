-- ===== src/Decoder/Headers.antt =====
-- The loops of capture/parser.rs over stacked headers: VLAN tags, IPv6 extension headers and GRE
-- source routes.
use bazalt.Prelude.{ℕ, zero, suc, ◌+◌, ◌*◌, ◌%◌, Bool, ◌||◌, ◌&&◌, length, ltb, ◌==◌, if◌then◌else◌}
use bazalt.Decoder.Types.{Bytes, byte, be16}
use bazalt.Decoder.Domain.{mix_domain}

abbrev pub is_vlan : ℕ → Bool
is_vlan t = t == 0x8100 || t == 0x88a8 || t == 0x9100 || t == 0x9200

-- What the loop over tags comes to: the offset, the Ethertype and the domain behind the tags, a tag that
-- does not fit, or a panic at an index out of range.
pub data Tags : Type 0 where
  tagged : (offset ethertype domain : ℕ) → Tags
  cut_tag tag_panic : Tags

-- So many tags at most, from an offset, an Ethertype and a domain on.
unfoldable pub vlan_tags : ℕ → Bytes → ℕ → ℕ → ℕ → Tags
vlan_tags zero frame offset ethertype domain = tagged offset ethertype domain
vlan_tags (suc n) frame offset ethertype domain =
    let rest =
      vlan_tags n frame (offset + 4) (be16 frame (offset + 2))
        (mix_domain domain 0x564c_414e (be16 frame offset % 4096)) in
    if is_vlan ethertype
    then (if ltb (length frame) (offset + 4)
        then cut_tag
        else if ltb (length frame) (offset + 4)
        then tag_panic
        else rest)
    else tagged offset ethertype domain

-- Where a walk over headers ends: at an upper protocol and its offset, at a fragment header, in a
-- header that does not fit, or not at all, by a panic at an index out of range or for want of fuel.
pub data Walk : Type 0 where
  upper : (next offset : ℕ) → Walk
  fragment_header : (offset : ℕ) → Walk
  cut : Walk
  no_end : Walk

-- The indices below `n` of `p` are read for what follows.
abbrev pub walk_reads : Bytes → ℕ → Walk → Walk
walk_reads p n w = if ltb (length p) n then no_end else w

abbrev pub is_options : ℕ → Bool
is_options next = next == 0 || next == 43 || next == 60

-- The loop of `decode_ipv6` and of `decode_ipv6_post_fragment`, up to `limit`. Each header takes eight
-- bytes at least.
unfoldable pub walk_extensions : ℕ → Bytes → ℕ → ℕ → ℕ → Walk
walk_extensions zero p limit next offset = no_end
walk_extensions (suc fuel) p limit next offset =
    let options_len = (byte p (offset + 1) + 1) * 8 in
    let auth_len = (byte p (offset + 1) + 2) * 4 in
    let past_options = walk_extensions fuel p limit (byte p offset) (offset + options_len) in
    let past_auth = walk_extensions fuel p limit (byte p offset) (offset + auth_len) in
    if is_options next
    then (if ltb limit (offset + 2)
        then cut
        else walk_reads p (offset + 2)
            (if ltb limit (offset + options_len) then cut else past_options))
    else if next == 51
    then (if ltb limit (offset + 2)
        then cut
        else walk_reads p (offset + 2) (if ltb limit (offset + auth_len) then cut else past_auth))
    else if next == 44
    then fragment_header offset
    else upper next offset

-- The source-route entries of GRE; the walk ends behind the empty entry.
unfoldable pub skip_routes : ℕ → Bytes → ℕ → Walk
skip_routes zero gre offset = no_end
skip_routes (suc fuel) gre offset =
    let len = byte gre (offset + 3) in
    let rest = skip_routes fuel gre (offset + 4 + len) in
    if ltb (length gre) (offset + 4)
    then cut
    else walk_reads gre (offset + 4) (
        if be16 gre offset == 0 && len == 0
        then upper 0 (offset + 4)
        else if ltb (length gre) (offset + 4 + len)
        then cut
        else rest)
