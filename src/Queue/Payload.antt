-- ===== src/Queue/Payload.antt =====
-- packages/db/src/job-queue-insert.ts: job payloads hold only bounded lists of canonical UUIDs under
-- keys that name internal references.
use cash_count.Base.{
  ℕ, ◌+◌, Bool, false, ◌&&◌, ◌||◌, List, [], ◌∷◌, ltb, leb, ◌==◌, if◌then◌else◌, length, every,
}
use cash_count.Base.Text.{Text, text, text_eq, matches, is_digit, is_lower, is_upper}
use cash_count.Base.Results.{Result, ok, guard, ◌>>◌}
use cash_count.Queue.Job.{
  Reference, one, many, Payload, QueueError, payload_too_large, payload_key, payload_references,
  payload_uuid,
}

-- `/[0-9a-f]/`, and the places of a canonical UUID.
abbrev hex : ℕ → Bool
hex c = is_digit c || (leb b'a' c && leb c b'f')

abbrev dash : ℕ → Bool
dash c = c == b'-'

abbrev version_digit : ℕ → Bool
version_digit c = leb b'1' c && leb c b'8'

abbrev variant_digit : ℕ → Bool
variant_digit c = c == b'8' || c == b'9' || c == b'a' || c == b'b'

abbrev four_hex : List (ℕ → Bool) → List (ℕ → Bool)
four_hex rest = hex ∷ hex ∷ hex ∷ hex ∷ rest

unfoldable pub is_canonical_uuid : Text → Bool
unfolding matches
is_canonical_uuid = matches (
    four_hex (
      four_hex (
        dash
        ∷ four_hex (
            dash
            ∷ version_digit
            ∷ hex
            ∷ hex
            ∷ hex
            ∷ dash
            ∷ variant_digit
            ∷ hex
            ∷ hex
            ∷ hex
            ∷ dash
            ∷ four_hex (four_hex (four_hex []))))))

-- `/^[a-z][A-Za-z0-9]*(?:Id|Ids)$/`
abbrev alphanumeric : ℕ → Bool
alphanumeric c = is_upper c || is_lower c || is_digit c

ends_with_id : Text → Bool
ends_with_id [] = false
ends_with_id (c ∷ cs) =
    text_eq (c ∷ cs) (text "Id") || text_eq (c ∷ cs) (text "Ids") || ends_with_id cs

unfoldable pub is_internal_id_key : Text → Bool
unfolding ends_with_id
is_internal_id_key [] = false
is_internal_id_key (c ∷ cs) = is_lower c && every alphanumeric cs && ends_with_id cs

abbrev is_high_surrogate : ℕ → Bool
is_high_surrogate c = leb 0xd800 c && leb c 0xdbff

abbrev is_low_surrogate : ℕ → Bool
is_low_surrogate c = leb 0xdc00 c && leb c 0xdfff

-- The bytes of one code unit that is no surrogate, escaped as `JSON.stringify` escapes it, in UTF-8.
json_unit_bytes : ℕ → ℕ
json_unit_bytes c =
    if c == 34 || c == 92 || (leb 8 c && leb c 10) || c == 12 || c == 13
    then 2
    else if ltb c 32
    then 6
    else if ltb c 128
    then 1
    else if ltb c 2048
    then 2
    else 3

-- A surrogate pair takes four bytes, two for each half; a lone surrogate is written `\ud800`.
json_text_bytes : Text → ℕ
unfolding json_unit_bytes
json_text_bytes [] = 0
json_text_bytes (c ∷ []) =
    if is_high_surrogate c || is_low_surrogate c then 6 else json_unit_bytes c
json_text_bytes (c ∷ d ∷ cs) =
    let pair = 4 + json_text_bytes cs in
    let single =
      (if is_high_surrogate c || is_low_surrogate c then 6 else json_unit_bytes c)
      + json_text_bytes (d ∷ cs) in
    if is_high_surrogate c && is_low_surrogate d then pair else single

json_list_bytes : List Text → ℕ
unfolding json_text_bytes
json_list_bytes [] = 0
json_list_bytes (t ∷ ts) = json_text_bytes t + 3 + json_list_bytes ts

-- Each element of an array has its quotes and a comma or the closing bracket.
json_reference_bytes : Reference → ℕ
unfolding json_list_bytes
json_reference_bytes (one t) = json_text_bytes t + 2
json_reference_bytes (many []) = 2
json_reference_bytes (many (t ∷ ts)) = 1 + json_list_bytes (t ∷ ts)

json_fields_bytes : Payload → ℕ
unfolding json_reference_bytes
json_fields_bytes [] = 0
json_fields_bytes ((k, v) ∷ fields) =
    json_text_bytes k + 4 + json_reference_bytes v + json_fields_bytes fields

-- `Buffer.byteLength(JSON.stringify(payload), 'utf8')`
unfoldable pub json_bytes : Payload → ℕ
unfolding json_fields_bytes
json_bytes [] = 2
json_bytes (f ∷ fields) = 1 + json_fields_bytes (f ∷ fields)

abbrev reference_values : Reference → List Text
reference_values (one t) = t ∷ []
reference_values (many ts) = ts

unfoldable pub validate_fields : Payload → Result QueueError (Unit {0})
validate_fields [] = ok tt
validate_fields ((key, value) ∷ fields) = do
  guard (is_internal_id_key key) payload_key
  guard (leb 1 (length (reference_values value)) && leb (length (reference_values value)) 500)
      payload_references
  guard (every is_canonical_uuid (reference_values value)) payload_uuid
  validate_fields fields

unfoldable pub validate_payload : Payload → Result QueueError (Unit {0})
unfolding validate_fields
validate_payload p = do guard (leb (json_bytes p) 16384) payload_too_large; validate_fields p
