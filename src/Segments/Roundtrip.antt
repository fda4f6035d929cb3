-- ===== src/Segments/Roundtrip.antt =====
-- What `decode_record` in storage/segment.rs reads back of `encode_record`.
use bazalt.Prelude.{
  ℕ, zero, suc, ◌-◌, ◌/◌, ◌^◌, ◌≤◌, ◌<◌, ◌≡◌, refl, sym, ap, ◌∙◌, false, none, some, [], ◌∷◌, ◌++◌,
  append_assoc, length, length-append, is_empty, take, drop, ltb, if◌then◌else◌, if_cases,
  Bool-cases, Option-cases, ◌↔◌, ◌⊎◌, inl, inr, arith,
}
use bazalt.FlowKeys.Types.{Direction, a_to_b, b_to_a}
use bazalt.Segments.Codec.{
  Bytes, ContentView, tcp_raw, http_request_headers, http_request_body, http_request_decoded_body,
  http_response_headers, http_response_body, http_response_decoded_body, ContentRecord, le_bytes,
  from_le_bytes, direction_to_u8, u8_to_direction, view_to_u8, u8_to_view, service_bytes,
  service_of, encode_record_prefix, encode_record, take_field, take_number, take_u8, decode_record,
}

-- The number has so many bytes.
abbrev pub Fits : ℕ → ℕ → Type 0
Fits zero n = n ≡ 0
Fits (suc k) n = Fits k (n / 256)

pub length-le_bytes : (k n : ℕ) → length (le_bytes k n) ≡ k
unfolding le_bytes
length-le_bytes zero n = refl
length-le_bytes (suc k) n = omega (arith, length-le_bytes k (n / 256))

pub from_le_bytes-le_bytes : (k n : ℕ) → Fits k n → from_le_bytes (le_bytes k n) ≡ n
unfolding le_bytes from_le_bytes
from_le_bytes-le_bytes zero n h = sym h
from_le_bytes-le_bytes (suc k) n h = omega (arith, from_le_bytes-le_bytes k (n / 256) h)

pub take-append : (xs rest : Bytes) (n : ℕ) → length xs ≡ n → take n (xs ++ rest) ≡ xs
take-append [] rest zero h = refl
take-append [] rest (suc n) h = absurd (omega arith)
take-append (x ∷ xs) rest zero h = absurd (omega arith)
take-append (x ∷ xs) rest (suc n) h = ap (λ l. x ∷ l) (take-append xs rest n (omega arith))

pub drop-append : (xs rest : Bytes) (n : ℕ) → length xs ≡ n → drop n (xs ++ rest) ≡ rest
drop-append [] rest zero h = refl
drop-append [] rest (suc n) h = absurd (omega arith)
drop-append (x ∷ xs) rest zero h = absurd (omega arith)
drop-append (x ∷ xs) rest (suc n) h = drop-append xs rest n (omega arith)

take_field-append :
    (xs rest : Bytes) (n : ℕ) → length xs ≡ n → take_field (xs ++ rest) n ≡ some (xs, rest)
unfolding take_field
take_field-append xs rest n h =
    let enough : ltb (length (xs ++ rest)) n ≡ false = ground (arith, length-append xs rest) in
    rw (enough, take_field) (rw (take-append xs rest n h) (rw (drop-append xs rest n h) refl))

take_number-append :
    (k n : ℕ) (rest : Bytes) → Fits k n → take_number (le_bytes k n ++ rest) k ≡ some (n, rest)
unfolding take_number
take_number-append k n rest h =
    rw (take_field-append (le_bytes k n) rest k (length-le_bytes k n), take_number)
      (ap (λ v. some (v, rest)) (from_le_bytes-le_bytes k n h))

direction_back : (d : Direction) → u8_to_direction (direction_to_u8 d) ≡ some d
direction_back a_to_b = refl
direction_back b_to_a = refl

view_back : (v : ContentView) → u8_to_view (view_to_u8 v) ≡ some v
view_back tcp_raw = refl
view_back http_request_headers = refl
view_back http_request_body = refl
view_back http_request_decoded_body = refl
view_back http_response_headers = refl
view_back http_response_body = refl
view_back http_response_decoded_body = refl

-- The fields in the order of the encoding, before what follows.
abbrev after_view : ContentRecord → Bytes → Bytes
after_view r tail = le_bytes 8 r.stream_offset ++ (le_bytes 4 (length r.bytes) ++ tail)

abbrev after_len : ContentRecord → Bytes → Bytes
after_len r tail =
    service_bytes r.service ++ (direction_to_u8 r.direction ∷ view_to_u8 r.view ∷ after_view r tail)

abbrev after_flow : ContentRecord → Bytes → Bytes
after_flow r tail =
    le_bytes 8 r.ts_ns ++ (le_bytes 2 (length (service_bytes r.service)) ++ after_len r tail)

abbrev layout : ContentRecord → Bytes → Bytes
layout r tail = r.id ++ (r.flow_id ++ after_flow r tail)

abbrev encoded : ContentRecord → Bytes
encoded r =
    r.id
    ++ r.flow_id
    ++ le_bytes 8 r.ts_ns
    ++ le_bytes 2 (length (service_bytes r.service))
    ++ service_bytes r.service
    ++ direction_to_u8 r.direction ∷ view_to_u8 r.view ∷ le_bytes 8 r.stream_offset
    ++ le_bytes 4 (length r.bytes)

layout_prefix :
    (r : ContentRecord) (prefix tail : Bytes)
    → encode_record_prefix r ≡ some prefix
    → prefix ++ tail ≡ layout r tail
unfolding encode_record_prefix
layout_prefix r prefix tail e = elim (Bool-cases (ltb 65_535 (length (service_bytes r.service)))) [
  | inl long ↦ absurd (ground arith)
  | inr fits ↦ elim (Bool-cases (ltb (2 ^ 32 - 1) (length r.bytes))) [
    | inl long ↦ absurd (ground arith)
    | inr fits' ↦
        let same : encoded r ≡ prefix = ground arith in rw (← same) (simp append_assoc refl)
  ]
]

-- A record as the program makes them: UUIDs of 16 bytes, 64-bit times and offsets, and a service name
-- that is not empty and that the lossy conversion leaves as it is.
pub record IsRecord (lossy : Bytes → Bytes) (r : ContentRecord) : Type 0 where
  pub id_len : length r.id ≡ 16
  pub flow_id_len : length r.flow_id ≡ 16
  pub ts_fits : r.ts_ns < 2 ^ 64
  pub offset_fits : r.stream_offset < 2 ^ 64
  pub named : service_of lossy (service_bytes r.service) ≡ r.service

decode_layout :
    (lossy : Bytes → Bytes) (r : ContentRecord) (trailer : Bytes)
    → IsRecord lossy r
    → length (service_bytes r.service) < 2 ^ 16
    → length r.bytes < 2 ^ 32
    → decode_record lossy (layout r (r.bytes ++ trailer))
      ≡ (if is_empty trailer then some r else none)
unfolding decode_record take_u8
decode_layout lossy r trailer v s l =
    if_cases (λ o. o ≡ (if is_empty trailer then some r else none))
      (ltb (length (layout r (r.bytes ++ trailer))) 56) (λ short. absurd (ground (arith, long)))
      (λ _.
        rw (first, decode_record)
          (rw second (
            rw third (
              rw fourth (
                rw fifth (
                  rw (direction_back r.direction) (
                    rw (view_back r.view) (
                      rw sixth (
                        rw seventh (
                          rw eighth (
                            ap
                              (λ n.
                                if is_empty trailer then some (record r { service = n }) else none)
                              v.named)))))))))))
  where
    tail : Bytes
    tail = r.bytes ++ trailer

    long : 56 ≤ length (layout r tail)
    long = omega (
      arith,
      length-append r.id (r.flow_id ++ after_flow r tail),
      length-append r.flow_id (after_flow r tail),
      length-append (le_bytes 8 r.ts_ns)
          (le_bytes 2 (length (service_bytes r.service)) ++ after_len r tail),
      length-append (le_bytes 2 (length (service_bytes r.service))) (after_len r tail),
      length-append (service_bytes r.service)
          (direction_to_u8 r.direction ∷ view_to_u8 r.view ∷ after_view r tail),
      length-append (le_bytes 8 r.stream_offset) (le_bytes 4 (length r.bytes) ++ tail),
      length-append (le_bytes 4 (length r.bytes)) tail,
      length-le_bytes 8 r.ts_ns,
      length-le_bytes 2 (length (service_bytes r.service)),
      length-le_bytes 8 r.stream_offset,
      length-le_bytes 4 (length r.bytes),
      v.id_len,
      v.flow_id_len,
    )

    first : take_field (layout r tail) 16 ≡ some (r.id, r.flow_id ++ after_flow r tail)
    first = take_field-append r.id (r.flow_id ++ after_flow r tail) 16 v.id_len

    second : take_field (r.flow_id ++ after_flow r tail) 16 ≡ some (r.flow_id, after_flow r tail)
    second = take_field-append r.flow_id (after_flow r tail) 16 v.flow_id_len

    third :
        take_number (after_flow r tail) 8
        ≡ some (r.ts_ns, le_bytes 2 (length (service_bytes r.service)) ++ after_len r tail)
    third =
        take_number-append 8 r.ts_ns
          (le_bytes 2 (length (service_bytes r.service)) ++ after_len r tail) (omega arith)

    fourth :
        take_number (le_bytes 2 (length (service_bytes r.service)) ++ after_len r tail) 2
        ≡ some (length (service_bytes r.service), after_len r tail)
    fourth =
        take_number-append 2 (length (service_bytes r.service)) (after_len r tail) (omega arith)

    fifth :
        take_field (after_len r tail) (length (service_bytes r.service))
        ≡ some (
          service_bytes r.service,
          direction_to_u8 r.direction ∷ view_to_u8 r.view ∷ after_view r tail,
        )
    fifth =
        take_field-append (service_bytes r.service)
          (direction_to_u8 r.direction ∷ view_to_u8 r.view ∷ after_view r tail)
          (length (service_bytes r.service)) refl

    sixth :
        take_number (after_view r tail) 8
        ≡ some (r.stream_offset, le_bytes 4 (length r.bytes) ++ tail)
    sixth = take_number-append 8 r.stream_offset (le_bytes 4 (length r.bytes) ++ tail) (omega arith)

    seventh : take_number (le_bytes 4 (length r.bytes) ++ tail) 4 ≡ some (length r.bytes, tail)
    seventh = take_number-append 4 (length r.bytes) tail (omega arith)

    eighth : take_field tail (length r.bytes) ≡ some (r.bytes, trailer)
    eighth = take_field-append r.bytes trailer (length r.bytes) refl

encode_record_prefix-fits :
    (r : ContentRecord) (prefix : Bytes)
    → encode_record_prefix r ≡ some prefix
    → (length (service_bytes r.service) < 2 ^ 16) × (length r.bytes < 2 ^ 32)
unfolding encode_record_prefix
encode_record_prefix-fits r prefix e =
    elim (Bool-cases (ltb 65_535 (length (service_bytes r.service)))) [
      | inl long ↦ absurd (ground arith)
      | inr fits ↦ elim (Bool-cases (ltb (2 ^ 32 - 1) (length r.bytes))) [
        | inl long ↦ absurd (ground arith)
        | inr fits' ↦ (ground arith, ground arith)
      ]
    ]

pub encode_record-parts :
    (r : ContentRecord) (v : Bytes)
    → encode_record r ≡ some v
    → (prefix : Bytes) × (encode_record_prefix r ≡ some prefix) × (prefix ++ r.bytes ≡ v)
unfolding encode_record
encode_record-parts r v e = elim (Option-cases (encode_record_prefix r)) [
  | inl f ↦ absurd (ground arith)
  | inr (prefix, f) ↦ (prefix, f, ground arith)
]

-- What was encoded decodes to the record that it was made of, and with any bytes behind it to an
-- error, for records as the program makes them.
pub decode_record-encode_record :
    (lossy : Bytes → Bytes) (r : ContentRecord) (v trailer : Bytes)
    → IsRecord lossy r
    → encode_record r ≡ some v
    → decode_record lossy (v ++ trailer) ≡ (if is_empty trailer then some r else none)
decode_record-encode_record lossy r v trailer w e =
    let (prefix, f, whole) = encode_record-parts r v e in
    let fits = encode_record_prefix-fits r prefix f in
    let shape : v ++ trailer ≡ layout r (r.bytes ++ trailer) =
      ap (λ x. x ++ trailer) (sym whole)
      ∙ append_assoc prefix r.bytes trailer
      ∙ layout_prefix r prefix (r.bytes ++ trailer) f in
    rw shape (decode_layout lossy r trailer w fits.0 fits.1)

-- Encoding fails exactly if the service name or the payload is too long for its length field.
pub encode_record_fails_iff :
    (r : ContentRecord)
    → (encode_record r ≡ none)
      ↔ ((2 ^ 16 ≤ length (service_bytes r.service)) ⊎ (2 ^ 32 ≤ length r.bytes))
unfolding encode_record encode_record_prefix
encode_record_fails_iff r = elim (Bool-cases (ltb 65_535 (length (service_bytes r.service)))) [
  | inl long ↦ (λ _. inl (ground arith), λ _. ground arith)
  | inr fits ↦ elim (Bool-cases (ltb (2 ^ 32 - 1) (length r.bytes))) [
    | inl long ↦ (λ _. inr (ground arith), λ _. ground arith)
    | inr fits' ↦ (
      λ e. absurd (ground arith),
      λ h. absurd (elim h [ inl a ↦ ground arith | inr b ↦ ground arith ]),
    )
  ]
]
