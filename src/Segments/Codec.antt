-- ===== src/Segments/Codec.antt =====
-- `encode_record` and `decode_record` in storage/segment.rs. An error is `none`. A string is its UTF-8
-- bytes and a UUID its 16 bytes; `String::from_utf8_lossy` is an argument.
use bazalt.Prelude.{
  ℕ, zero, suc, ◌+◌, ◌*◌, ◌/◌, ◌%◌, ◌^◌, ◌-◌, Option, none, some, List, [], ◌∷◌, ◌++◌, length,
  is_empty, take, drop, ltb, if◌then◌else◌,
}
use bazalt.FlowKeys.Types.{Direction, a_to_b, b_to_a}

abbrev pub Bytes : Type 0
Bytes = List ℕ

-- `?` on a result.
infixl 5 ◌>>=◌
abbrev pub ◌>>=◌ {ℓ κ} : {A : Type ℓ} {B : Type κ} → Option A → (A → Option B) → Option B
none >>= f = none
some a >>= f = f a

-- `ContentView` in model.rs.
pub data ContentView : Type 0 where
  tcp_raw http_request_headers http_request_body http_request_decoded_body : ContentView
  http_response_headers http_response_body http_response_decoded_body : ContentView

-- `ContentRecord` in model.rs, with `data` as `bytes`.
pub record ContentRecord : Type 0 where
  pub id : Bytes
  pub flow_id : Bytes
  pub ts_ns : ℕ
  pub service : Option Bytes
  pub direction : Direction
  pub view : ContentView
  pub stream_offset : ℕ
  pub bytes : Bytes

-- `to_le_bytes` and `from_le_bytes` of a number of so many bytes.
unfoldable pub le_bytes : ℕ → ℕ → Bytes
le_bytes zero n = []
le_bytes (suc k) n = n % 256 ∷ le_bytes k (n / 256)

unfoldable pub from_le_bytes : Bytes → ℕ
from_le_bytes [] = 0
from_le_bytes (b ∷ bs) = b + 256 * from_le_bytes bs

abbrev pub direction_to_u8 : Direction → ℕ
direction_to_u8 a_to_b = 0
direction_to_u8 b_to_a = 1

abbrev pub u8_to_direction : ℕ → Option Direction
u8_to_direction zero = some a_to_b
u8_to_direction (suc zero) = some b_to_a
u8_to_direction (suc (suc n)) = none

abbrev pub view_to_u8 : ContentView → ℕ
view_to_u8 tcp_raw = 0
view_to_u8 http_request_headers = 1
view_to_u8 http_request_body = 2
view_to_u8 http_request_decoded_body = 3
view_to_u8 http_response_headers = 4
view_to_u8 http_response_body = 5
view_to_u8 http_response_decoded_body = 6

abbrev pub u8_to_view : ℕ → Option ContentView
u8_to_view zero = some tcp_raw
u8_to_view (suc zero) = some http_request_headers
u8_to_view (suc (suc zero)) = some http_request_body
u8_to_view (suc (suc (suc zero))) = some http_request_decoded_body
u8_to_view (suc (suc (suc (suc zero)))) = some http_response_headers
u8_to_view (suc (suc (suc (suc (suc zero))))) = some http_response_body
u8_to_view (suc (suc (suc (suc (suc (suc zero)))))) = some http_response_decoded_body
u8_to_view (suc (suc (suc (suc (suc (suc (suc n))))))) = none

-- The service name, empty where there is none.
abbrev pub service_bytes : Option Bytes → Bytes
service_bytes none = []
service_bytes (some s) = s

unfoldable pub encode_record_prefix : ContentRecord → Option Bytes
encode_record_prefix r =
    let service = service_bytes r.service in
    if ltb 65_535 (length service)
    then none
    else if ltb (2 ^ 32 - 1) (length r.bytes)
    then none
    else some (
        r.id
        ++ r.flow_id
        ++ le_bytes 8 r.ts_ns
        ++ le_bytes 2 (length service)
        ++ service
        ++ direction_to_u8 r.direction ∷ view_to_u8 r.view ∷ le_bytes 8 r.stream_offset
        ++ le_bytes 4 (length r.bytes))

unfoldable pub encode_record : ContentRecord → Option Bytes
unfolding encode_record_prefix
encode_record r = encode_record_prefix r >>= λ prefix. some (prefix ++ r.bytes)

-- `take`: the field and the rest.
unfoldable pub take_field : Bytes → ℕ → Option (Bytes × Bytes)
take_field d n = if ltb (length d) n then none else some (take n d, drop n d)

unfoldable pub take_number : Bytes → ℕ → Option (ℕ × Bytes)
unfolding take_field
take_number d n = take_field d n >>= λ (a, rest). some (from_le_bytes a, rest)

-- `take(&mut data, 1)?[0]`
unfoldable pub take_u8 : Bytes → Option (ℕ × Bytes)
take_u8 [] = none
take_u8 (b ∷ rest) = some (b, rest)

-- `None` for an empty name.
abbrev pub service_of : (Bytes → Bytes) → Bytes → Option Bytes
service_of lossy [] = none
service_of lossy (b ∷ bs) = some (lossy (b ∷ bs))

unfoldable pub decode_record : (Bytes → Bytes) → Bytes → Option ContentRecord
unfolding take_field take_number take_u8
decode_record lossy d0 =
    if ltb (length d0) 56
    then none
    else take_field d0 16 >>= λ (id, d1). take_field d1 16 >>= λ (flow_id, d2).
        take_number d2 8 >>= λ (ts_ns, d3). take_number d3 2 >>= λ (service_len, d4).
        take_field d4 service_len >>= λ (service, d5). take_u8 d5 >>= λ (dir, d6).
        u8_to_direction dir >>= λ direction. take_u8 d6 >>= λ (v, d7). u8_to_view v >>= λ view.
        take_number d7 8 >>= λ (stream_offset, d8). take_number d8 4 >>= λ (len, d9).
        take_field d9 len >>= λ (payload, d10).
        if is_empty d10
        then some (record {
          id = id;
          flow_id = flow_id;
          ts_ns = ts_ns;
          service = service_of lossy service;
          direction = direction;
          view = view;
          stream_offset = stream_offset;
          bytes = payload;
        })
        else none
