-- ===== src/Decoder/Fuel.antt =====
-- The loops of capture/parser.rs over stacked headers end by themselves, within the bytes they read.
use bazalt.Prelude.{ℕ, zero, suc, ◌+◌, ◌-◌, ◌*◌, ◌≤◌, ◌<◌, ◌&&◌, ltb, ◌==◌, length, if_cases, arith}
use bazalt.Decoder.Types.{Bytes, byte, be16}
use bazalt.Decoder.Headers.{
  Walk, upper, fragment_header, cut, no_end, is_options, walk_extensions, skip_routes, Tags, tagged,
  cut_tag, tag_panic, is_vlan, vlan_tags,
}

-- No panic, not out of fuel, and no header found past the limit.
abbrev pub EndsWithin : ℕ → Walk → Type 0
EndsWithin limit (upper next offset) = offset ≤ limit
EndsWithin limit (fragment_header offset) = offset ≤ limit
EndsWithin limit cut = Unit {0}
EndsWithin limit no_end = ⊥

pub walk_extensions-EndsWithin :
    (fuel : ℕ) (p : Bytes) (limit next offset : ℕ)
    → limit ≤ length p
    → offset ≤ limit
    → limit - offset < fuel
    → EndsWithin limit (walk_extensions fuel p limit next offset)
unfolding walk_extensions
walk_extensions-EndsWithin zero p limit next offset fit h m = absurd (omega arith)
walk_extensions-EndsWithin (suc fuel) p limit next offset fit h m =
    let options_len = (byte p (offset + 1) + 1) * 8 in
    let auth_len = (byte p (offset + 1) + 2) * 4 in
    if_cases (EndsWithin limit) (is_options next)
      (λ options.
        if_cases (EndsWithin limit) (ltb limit (offset + 2)) (λ short. tt)
          (λ head.
            if_cases (EndsWithin limit) (ltb (length p) (offset + 2))
              (λ panics. absurd (ground arith))
              (λ in_range.
                if_cases (EndsWithin limit) (ltb limit (offset + options_len)) (λ short. tt)
                  (λ fits.
                    walk_extensions-EndsWithin fuel p limit (byte p offset) (offset + options_len)
                      fit (ground arith) (ground arith)))))
      (λ other.
        if_cases (EndsWithin limit) (next == 51)
          (λ auth.
            if_cases (EndsWithin limit) (ltb limit (offset + 2)) (λ short. tt)
              (λ head.
                if_cases (EndsWithin limit) (ltb (length p) (offset + 2))
                  (λ panics. absurd (ground arith))
                  (λ in_range.
                    if_cases (EndsWithin limit) (ltb limit (offset + auth_len)) (λ short. tt)
                      (λ fits.
                        walk_extensions-EndsWithin fuel p limit (byte p offset) (offset + auth_len)
                          fit (ground arith) (ground arith)))))
          (λ rest. if_cases (EndsWithin limit) (next == 44) (λ found. h) (λ final. h)))

pub skip_routes-EndsWithin :
    (fuel : ℕ) (gre : Bytes) (offset : ℕ)
    → length gre - offset < fuel
    → EndsWithin (length gre) (skip_routes fuel gre offset)
unfolding skip_routes
skip_routes-EndsWithin zero gre offset m = absurd (omega arith)
skip_routes-EndsWithin (suc fuel) gre offset m =
    let within = EndsWithin (length gre) in
    let len = byte gre (offset + 3) in
    if_cases within (ltb (length gre) (offset + 4)) (λ short. tt)
      (λ fits.
        if_cases within (ltb (length gre) (offset + 4)) (λ panics. absurd (ground arith))
          (λ in_range.
            if_cases within (be16 gre offset == 0 && len == 0) (λ last. ground arith)
              (λ more.
                if_cases within (ltb (length gre) (offset + 4 + len)) (λ short. tt)
                  (λ body. skip_routes-EndsWithin fuel gre (offset + 4 + len) (ground arith)))))

-- The tags end within the frame.
abbrev pub TagsWithin : Bytes → Tags → Type 0
TagsWithin frame (tagged offset ethertype domain) = offset ≤ length frame
TagsWithin frame cut_tag = Unit {0}
TagsWithin frame tag_panic = ⊥

pub vlan_tags-TagsWithin :
    (n : ℕ) (frame : Bytes) (offset ethertype domain : ℕ)
    → offset ≤ length frame
    → TagsWithin frame (vlan_tags n frame offset ethertype domain)
unfolding vlan_tags
vlan_tags-TagsWithin zero frame offset ethertype domain h = h
vlan_tags-TagsWithin (suc n) frame offset ethertype domain h =
    let within = TagsWithin frame in
    if_cases within (is_vlan ethertype)
      (λ tag.
        if_cases within (ltb (length frame) (offset + 4)) (λ short. tt)
          (λ fits.
            if_cases within (ltb (length frame) (offset + 4)) (λ panics. absurd (ground arith))
              (λ in_range. vlan_tags-TagsWithin n frame (offset + 4) _ _ (ground arith))))
      (λ last. h)
