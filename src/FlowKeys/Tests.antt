-- ===== src/FlowKeys/Tests.antt =====
-- Flow keys of model.rs at concrete packets.
use bazalt.Prelude.{ℕ, ◌≡◌, refl, false, none, [], ◌⊎◌}
use bazalt.Net.{v4, v6}
use bazalt.FlowKeys.Types.{
  tcp, opposite, Endpoint, ParsedPacket, source_endpoint, destination_endpoint, shard_hash64,
}
use bazalt.FlowKeys.Order.{cmp, le}
use bazalt.FlowKeys.Canonical.{
  canonical_with_domain, canonical_swap, canonical_injective, endpoints_of_canonical,
}

abbrev client : Endpoint
client = record { ip = v4 0x0a00_0001; port = 40_000 }

abbrev server : Endpoint
server = record { ip = v4 0x0a00_0002; port = 80 }

abbrev remote : Endpoint
remote = record { ip = v6 1; port = 443 }

abbrev vlan : ℕ
vlan = 7

answer : ParsedPacket
unfolding canonical_with_domain le cmp
answer =
    let (key, direction) =
      canonical_with_domain server.ip server.port client.ip client.port tcp 7 in
    record {
      ts_ns = 0;
      key = key;
      direction = direction;
      seq = none;
      ack = none;
      flags = record { fin = false; syn = false; rst = false; psh = false; ack = false };
      payload = [];
      wire_len = 64;
    }

canonical_swap_example :
    let there = canonical_with_domain client.ip client.port server.ip server.port tcp 7 in
    let back = canonical_with_domain server.ip server.port client.ip client.port tcp 7 in
    (there.0 ≡ back.0)
    × ((seed : ℕ) → shard_hash64 there.0 seed ≡ shard_hash64 back.0 seed)
    × ((client ≡ server) ⊎ (back.1 ≡ opposite there.1))
canonical_swap_example = canonical_swap client server tcp 7

endpoints_of_canonical_example :
    (source_endpoint answer ≡ server) × (destination_endpoint answer ≡ client)
unfolding answer
endpoints_of_canonical_example = endpoints_of_canonical answer server client tcp 7 refl

canonical_injective_example : (client ≡ client) × (server ≡ server) × (tcp ≡ tcp) × (vlan ≡ vlan)
canonical_injective_example = canonical_injective client server client server tcp tcp vlan vlan refl
