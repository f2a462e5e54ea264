-- ===== src/Message/Build.antt =====
-- message.go: `NewMessage`, `Clone`, `Equals`, and the making of answers.
use diameterapi.Common.{
  ℕ, ◌+◌, bit_and, Bool, true, false, ◌&&◌, ◌==◌, if◌then◌else◌, List, [], ◌∷◌, ◌++◌, length,
  replicate, Option, none, some, Outcome, ok, panics, ◌>>=◌,
}
use diameterapi.Wire.{u32, low_24}
use diameterapi.Avp.Types.{Avp}
use diameterapi.Avp.Codec
use diameterapi.Message.Types.{Message, msg_header_size}

-- The first loop of `NewMessage`: the message's length so far, and the AVPs with the M flag set.
-- A nil AVP is dereferenced.
unfoldable pub add_mandatory_avps : ℕ → List (Option Avp) → Outcome (ℕ × List (Option Avp))
add_mandatory_avps len [] = ok (len, [])
add_mandatory_avps len (none ∷ avps) = panics
add_mandatory_avps len (some a ∷ avps) = do
  (len', avps') ← add_mandatory_avps (u32 (len + u32 a.padded_length)) avps
  ok (len', some (record a { mandatory = true }) ∷ avps')

-- The second loop, which leaves the AVPs as they are.
unfoldable pub add_additional_avps : ℕ → List (Option Avp) → Outcome ℕ
add_additional_avps len [] = ok len
add_additional_avps len (none ∷ avps) = panics
add_additional_avps len (some a ∷ avps) = add_additional_avps (u32 (len + u32 a.padded_length)) avps

unfoldable pub new_message :
    ℕ → ℕ → ℕ → ℕ → ℕ → List (Option Avp) → List (Option Avp) → Outcome Message
new_message flags code app_id hop_by_hop_id end_to_end_id mandatory_avps additional_avps = do
  (len, mandatory) ← add_mandatory_avps msg_header_size mandatory_avps
  len' ← add_additional_avps len additional_avps
  ok (record {
    version = 1;
    length = len';
    flags = bit_and flags 0xf0;
    code = low_24 code;
    app_id = app_id;
    hop_by_hop_id = hop_by_hop_id;
    end_to_end_id = end_to_end_id;
    avps = mandatory ++ additional_avps;
    extended_attributes = none;
    avp_map = none;
  })

-- The loop of `Clone`, which appends to a slice.
unfoldable pub clone_avps : List (Option Avp) → Outcome (List (Option Avp))
clone_avps [] = ok []
clone_avps (a ∷ avps) = do a' ← Codec.clone a; avps' ← clone_avps avps; ok (a' ∷ avps')

-- `Clone` appends the clones to a slice that already holds as many nil pointers.
unfoldable pub clone : Message → Outcome Message
clone m = do
  avps ← clone_avps m.avps
  ok (record m { avps = replicate (length m.avps) none ++ avps })

-- The loop of `Equals` over two slices of one length.
unfoldable pub equal_avps : List (Option Avp) → List (Option Avp) → Outcome Bool
equal_avps [] bs = ok true
equal_avps (a ∷ avps) [] = panics
equal_avps (a ∷ avps) (b ∷ bs) = do
  e ← Codec.equal a b
  let rest = equal_avps avps bs
  if e then rest else ok false

unfoldable pub equal_header : Message → Message → Bool
equal_header m c =
    m.version == c.version
    && m.flags == c.flags
    && m.code == c.code
    && m.app_id == c.app_id
    && m.hop_by_hop_id == c.hop_by_hop_id
    && m.end_to_end_id == c.end_to_end_id
    && length m.avps == length c.avps

-- `m.Equals(c)` on pointers: the receiver is tested for nil, the argument is not.
unfoldable pub equals : Option Message → Option Message → Outcome Bool
equals none c = ok false
equals (some m) none = panics
equals (some m) (some c) = if equal_header m c then equal_avps m.avps c.avps else ok false

-- `flags &^ 0x80` on a byte keeps the bits of 0x7f.
abbrev pub clear_request : ℕ → ℕ
clear_request flags = bit_and flags 0x7f

-- `BecomeAnAnswerBasedOnTheRequestMessage`
unfoldable pub become_an_answer : Message → Message → Message
become_an_answer m request = record m {
  end_to_end_id = request.end_to_end_id;
  hop_by_hop_id = request.hop_by_hop_id;
  app_id = request.app_id;
  code = request.code;
  flags = clear_request m.flags;
}

-- `GenerateMatchingResponseWithAvps`
unfoldable pub generate_matching_response :
    Message → List (Option Avp) → List (Option Avp) → Outcome Message
generate_matching_response m mandatory_avps optional_avps =
    new_message (clear_request m.flags) m.code m.app_id m.hop_by_hop_id m.end_to_end_id
      mandatory_avps optional_avps
