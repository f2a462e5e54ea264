-- ===== src/Message/Answers.antt =====
-- The messages of `NewMessage`, and the answers that are built from a request.
use diameterapi.Common.{
  ℕ, ◌+◌, ◌*◌, ◌/◌, ◌%◌, ◌^◌, ◌<◌, ◌≡◌, refl, bit_and, true, List, ◌++◌, map, All, some, ok, arith,
}
use diameterapi.Common.Bits.{bit_and-80, bit_and-40, bit_and-20, bit_and-10, bit_and-7f, bit_and-f0}
use diameterapi.Wire.{IsByte, IsU32}
use diameterapi.Avp.Types.{Avp}
use diameterapi.Avp.RoundTrip
use diameterapi.Message.Types.{
  Message, is_request, is_answer, is_proxiable, is_error, is_potentially_retransmitted,
}
use diameterapi.Message.Build.{
  new_message, clear_request, become_an_answer, generate_matching_response,
}
use diameterapi.Message.RoundTrip.{total, IsWellFormed}
use diameterapi.Message.Built.{built-IsWellFormed, built, set_mandatory, new_message-built}

-- Of well-formed AVPs whose padded lengths and the header together stay below 2 ^ 24 bytes,
-- `NewMessage` makes a well-formed message: the mandatory AVPs first, with their M flag set, then
-- the additional ones as they are, and a Length field that is exact.
pub new_message-IsWellFormed :
    (flags code app_id hbh ete : ℕ) (mandatory additional : List Avp)
    → IsByte flags
    → IsU32 app_id
    → IsU32 hbh
    → IsU32 ete
    → All RoundTrip.IsWellFormed mandatory
    → All RoundTrip.IsWellFormed additional
    → 20 + total mandatory + total additional < 2 ^ 24
    → (m : Message) × (new_message flags code app_id hbh ete
          (map some mandatory)
          (map some additional)
        ≡ ok m)
      × IsWellFormed m (map set_mandatory mandatory ++ additional)
      × (m.hop_by_hop_id ≡ hbh)
      × (m.end_to_end_id ≡ ete)
new_message-IsWellFormed flags code app_id hbh ete mandatory additional hf ha hh he wm wa h = (
  built flags code app_id hbh ete mandatory additional,
  new_message-built flags code app_id hbh ete mandatory additional h,
  built-IsWellFormed flags code app_id hbh ete mandatory additional hf ha hh he wm wa h,
  refl,
  refl,
)

-- Without the request bit a message is an answer, and the other three flags are as they were.
pub clear_request_lem :
    (f : ℕ)
    → IsByte f
    → (bit_and (clear_request f) 0x80 ≡ 0)
      × (bit_and (clear_request f) 0x40 ≡ bit_and f 0x40)
      × (bit_and (clear_request f) 0x20 ≡ bit_and f 0x20)
      × (bit_and (clear_request f) 0x10 ≡ bit_and f 0x10)
clear_request_lem f h =
    let small : f % 128 < 256 = omega arith in
    rw (bit_and-7f f h) (
      rw
        (
          bit_and-80 _ small,
          bit_and-40 _ small,
          bit_and-20 _ small,
          bit_and-10 _ small,
          bit_and-40 f h,
          bit_and-20 f h,
          bit_and-10 f h,
        )
        (omega arith))

pub response_flags :
    (f : ℕ)
    → IsByte f
    → (bit_and (bit_and (clear_request f) 0xf0) 0x80 ≡ 0)
      × (bit_and (bit_and (clear_request f) 0xf0) 0x40 ≡ bit_and f 0x40)
      × (bit_and (bit_and (clear_request f) 0xf0) 0x20 ≡ bit_and f 0x20)
      × (bit_and (bit_and (clear_request f) 0xf0) 0x10 ≡ bit_and f 0x10)
response_flags f h =
    let small : f % 128 / 16 * 16 < 256 = omega arith in
    rw (bit_and-7f f h, bit_and-f0 (f % 128) (omega arith))
      (rw
        (
          bit_and-80 _ small,
          bit_and-40 _ small,
          bit_and-20 _ small,
          bit_and-10 _ small,
          bit_and-40 f h,
          bit_and-20 f h,
          bit_and-10 f h,
        )
        (omega arith))

-- `BecomeAnAnswerBasedOnTheRequestMessage` makes the message an answer to the request: it takes the
-- request's identifiers, application and code, clears the request flag, and leaves the other three
-- flags and the AVPs as they were.
pub become_an_answer_lem :
    (m request : Message)
    → IsByte m.flags
    → let answer = become_an_answer m request in
      (is_answer answer ≡ true)
      × (is_proxiable answer ≡ is_proxiable m)
      × (is_error answer ≡ is_error m)
      × (is_potentially_retransmitted answer ≡ is_potentially_retransmitted m)
      × (answer.hop_by_hop_id ≡ request.hop_by_hop_id)
      × (answer.end_to_end_id ≡ request.end_to_end_id)
      × (answer.app_id ≡ request.app_id)
      × (answer.code ≡ request.code)
      × (answer.avps ≡ m.avps)
unfolding become_an_answer is_answer is_request is_proxiable is_error is_potentially_retransmitted
become_an_answer_lem m request h =
    let (r, p, e, t) = clear_request_lem m.flags h in
    rw (r, p, e, t) (refl, refl, refl, refl, refl, refl, refl, refl, refl)

-- `GenerateMatchingResponseWithAvps` on a request with fields in range and well-formed AVPs that fit
-- makes a well-formed answer that carries the request's identifiers, application and code, and its
-- proxiable, error and retransmission flags.
pub generate_matching_response_lem :
    (m : Message) (mandatory optional : List Avp)
    → IsByte m.flags
    → m.code < 2 ^ 24
    → IsU32 m.app_id
    → IsU32 m.hop_by_hop_id
    → IsU32 m.end_to_end_id
    → All RoundTrip.IsWellFormed mandatory
    → All RoundTrip.IsWellFormed optional
    → 20 + total mandatory + total optional < 2 ^ 24
    → (answer : Message) × (generate_matching_response m (map some mandatory) (map some optional)
        ≡ ok answer)
      × IsWellFormed answer (map set_mandatory mandatory ++ optional)
      × (is_answer answer ≡ true)
      × (is_proxiable answer ≡ is_proxiable m)
      × (is_error answer ≡ is_error m)
      × (is_potentially_retransmitted answer ≡ is_potentially_retransmitted m)
      × (answer.hop_by_hop_id ≡ m.hop_by_hop_id)
      × (answer.end_to_end_id ≡ m.end_to_end_id)
      × (answer.app_id ≡ m.app_id)
      × (answer.code ≡ m.code)
unfolding generate_matching_response is_answer is_request is_proxiable is_error
    is_potentially_retransmitted
generate_matching_response_lem m mandatory optional hf hc ha hh he wm wo h =
    let (r, p, e, t) = response_flags m.flags hf in
    (
      built (clear_request m.flags) m.code m.app_id m.hop_by_hop_id m.end_to_end_id mandatory
          optional,
      new_message-built (clear_request m.flags) m.code m.app_id m.hop_by_hop_id m.end_to_end_id
          mandatory optional h,
      built-IsWellFormed (clear_request m.flags) m.code m.app_id m.hop_by_hop_id m.end_to_end_id
          mandatory optional (rw (bit_and-7f m.flags hf) (omega arith)) ha hh he wm wo h,
      rw r,
      rw p,
      rw e,
      rw t,
      refl,
      refl,
      refl,
      omega arith,
    )
