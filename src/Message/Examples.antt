-- ===== src/Message/Examples.antt =====
-- The theorems on messages at concrete inputs.
use diameterapi.Common.{
  ◌≤◌, ◌≡◌, ◌≢◌, ◌↔◌, refl, true, false, List, [], ◌∷◌, ◌++◌, length, some, none, All, ok, panics,
  stuck, ◌>>=◌, arith,
}
use diameterapi.Wire.{Bytes, read_uint32, read_bytes, be32, high_8, low_24}
use diameterapi.Avp.Types.{Avp}
use diameterapi.Avp.Codec
use diameterapi.Avp.Lookup.{matching}
use diameterapi.Avp.RoundTrip
use diameterapi.Avp.Examples.{
  origin_host, vendor_avp, origin_host-IsWellFormed, vendor_avp-IsWellFormed,
}
use diameterapi.Message.Types.{
  Message, is_answer, is_proxiable, is_error, is_potentially_retransmitted,
}
use diameterapi.Message.Codec.{encode_message, decode_avps, decode_message}
use diameterapi.Message.Build.{new_message, clone, equals, generate_matching_response}
use diameterapi.Message.Query.{IsCoherent, top_level_avps_matching, top_level_avps_matching_lem}
use diameterapi.Message.RoundTrip.{IsWellFormed, decode_message-encode_message}
use diameterapi.Message.Sound.{
  decode_message-IsWellFormed, decode_message-append, decode_message-ne-stuck,
}
use diameterapi.Message.Built.{set_mandatory}
use diameterapi.Message.Answers.{new_message-IsWellFormed, generate_matching_response_lem}
use diameterapi.Message.Cloning.{clone_broken}
use diameterapi.Message.Equality.{unprotected, equals-encode_message}

abbrev pub two_avps : List Avp
two_avps = origin_host ∷ vendor_avp ∷ []

pub two_avps-IsWellFormed : All RoundTrip.IsWellFormed two_avps
two_avps-IsWellFormed = (origin_host-IsWellFormed, (vendor_avp-IsWellFormed, tt))

-- A proxiable device watchdog request with two AVPs.
abbrev pub request : Message
request = record {
  version = 1;
  length = 48;
  flags = 0xc0;
  code = 280;
  app_id = 0;
  hop_by_hop_id = 5;
  end_to_end_id = 6;
  avps = some origin_host ∷ some vendor_avp ∷ [];
  extended_attributes = none;
  avp_map = none;
}

pub request-IsWellFormed : IsWellFormed request two_avps
request-IsWellFormed = record {
  version_fits = omega arith;
  flags_fit = omega arith;
  code_fits = omega arith;
  app_id_fits = omega arith;
  hop_by_hop_id_fits = omega arith;
  end_to_end_id_fits = omega arith;
  holds = refl;
  avps_are = two_avps-IsWellFormed;
  length_exact = omega arith;
  length_fits = omega arith;
}

-- The bytes of a message without AVPs.
abbrev pub bare_bytes : Bytes
bare_bytes = 1 ∷ 0 ∷ 0 ∷ 20 ∷ 0x80 ∷ 0 ∷ 1 ∷ 24 ∷ 0 ∷ 0 ∷ 0 ∷ 0 ∷ 0 ∷ 0 ∷ 0 ∷ 5 ∷ 0 ∷ 0 ∷ 0 ∷ 6 ∷ []

abbrev pub bare_request : Message
bare_request = record request { length = 20; flags = 0x80; avps = [] }

pub bare_decodes : decode_message bare_bytes ≡ ok bare_request
unfolding decode_message read_uint32 be32 high_8 low_24 decode_avps
bare_decodes = refl

decode_message-encode_message_example :
    (encode_message request >>= λ bytes. decode_message (bytes ++ 1 ∷ 2 ∷ [])) ≡ ok request
decode_message-encode_message_example =
    decode_message-encode_message request two_avps (1 ∷ 2 ∷ []) request-IsWellFormed (omega arith)

decode_message-IsWellFormed_example : (avps : List Avp) × IsWellFormed bare_request avps × (20 ≤ 20)
decode_message-IsWellFormed_example =
    decode_message-IsWellFormed bare_bytes bare_request (omega arith) bare_decodes

decode_message-append_example : decode_message (bare_bytes ++ 9 ∷ []) ≡ ok bare_request
decode_message-append_example =
    decode_message-append bare_bytes (9 ∷ []) bare_request bare_decodes (omega arith)

decode_message-ne-stuck_example : decode_message bare_bytes ≢ stuck
decode_message-ne-stuck_example = decode_message-ne-stuck bare_bytes (omega arith)

-- A Length field of 19.
abbrev short_message : Bytes
short_message =
    1 ∷ 0 ∷ 0 ∷ 19 ∷ 0x80 ∷ 0 ∷ 1 ∷ 24 ∷ 0 ∷ 0 ∷ 0 ∷ 0 ∷ 0 ∷ 0 ∷ 0 ∷ 5 ∷ 0 ∷ 0 ∷ 0 ∷ 6 ∷ []

short_message_panics : decode_message short_message ≡ panics
unfolding decode_message read_uint32 be32 high_8 low_24
short_message_panics = refl

-- An AVP of eleven bytes at the end of a message, without its byte of padding.
abbrev unpadded : Bytes
unpadded =
    1 ∷ 0 ∷ 0 ∷ 31 ∷ 0x80 ∷ 0 ∷ 1 ∷ 24 ∷ 0 ∷ 0 ∷ 0 ∷ 0 ∷ 0 ∷ 0 ∷ 0 ∷ 5 ∷ 0 ∷ 0 ∷ 0 ∷ 6 ∷ 0 ∷ 0 ∷ 1
    ∷ 8 ∷ 0x40 ∷ 0 ∷ 0 ∷ 11 ∷ b'a' ∷ b'.' ∷ b'b' ∷ []

unpadded_panics : decode_message unpadded ≡ panics
unfolding decode_message read_uint32 be32 high_8 low_24 decode_avps Codec.decode Codec.decode_body
    Codec.read_vendor read_bytes Codec.padded_of
unpadded_panics = refl

new_message-IsWellFormed_example :
    (m : Message) × (new_message 0x80 280 0 5 6 (some origin_host ∷ []) (some vendor_avp ∷ [])
      ≡ ok m)
    × IsWellFormed m (set_mandatory origin_host ∷ vendor_avp ∷ [])
    × (m.hop_by_hop_id ≡ 5)
    × (m.end_to_end_id ≡ 6)
new_message-IsWellFormed_example =
    new_message-IsWellFormed 0x80 280 0 5 6 (origin_host ∷ []) (vendor_avp ∷ []) (omega arith)
      (omega arith) (omega arith) (omega arith) (origin_host-IsWellFormed, tt)
      (vendor_avp-IsWellFormed, tt) (omega arith)

generate_matching_response_example :
    (answer : Message) × (generate_matching_response request (some origin_host ∷ []) [] ≡ ok answer)
    × IsWellFormed answer (set_mandatory origin_host ∷ [])
    × (is_answer answer ≡ true)
    × (is_proxiable answer ≡ is_proxiable request)
    × (is_error answer ≡ is_error request)
    × (is_potentially_retransmitted answer ≡ is_potentially_retransmitted request)
    × (answer.hop_by_hop_id ≡ 5)
    × (answer.end_to_end_id ≡ 6)
    × (answer.app_id ≡ 0)
    × (answer.code ≡ 280)
generate_matching_response_example =
    generate_matching_response_lem request (origin_host ∷ []) [] (omega arith) (omega arith)
      (omega arith) (omega arith) (omega arith) (origin_host-IsWellFormed, tt) tt (omega arith)

request-IsCoherent : IsCoherent request two_avps
request-IsCoherent = record { holds = refl; cached = λ c e. cc }

top_level_avps_matching_example :
    (m : Message) × (top_level_avps_matching request 10415 10
      ≡ ok (m, matching (record { vendor_id = 10415; code = 10 }) two_avps))
    × IsCoherent m two_avps
top_level_avps_matching_example =
    top_level_avps_matching_lem request two_avps 10415 10 request-IsCoherent

clone_broken_example :
    (c : Message) × (clone request ≡ ok c)
    × (length c.avps ≡ 4)
    × (equals (some request) (some c) ≡ ok false)
    × (encode_message c ≡ panics)
clone_broken_example = clone_broken request origin_host (vendor_avp ∷ []) refl

equals-encode_message_example : (equals (some request) (some request) ≡ ok true) ↔ (
    encode_message (unprotected request two_avps) ≡ encode_message (unprotected request two_avps))
equals-encode_message_example =
    equals-encode_message request request two_avps two_avps request-IsWellFormed
      request-IsWellFormed
