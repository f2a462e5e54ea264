-- ===== src/Sequence/Examples.antt =====
-- The generators at concrete seeds.
use diameterapi.Common.{◌%◌, ◌/◌, ◌^◌, ◌≡◌, ◌≢◌, refl, List, [], ◌∷◌, arith}
use diameterapi.Wire.{IsU32}
use diameterapi.Common.Dict.{ascii}
use diameterapi.Sequence.SessionIds.{
  generate_session_id, read_session_id, read_session_id-generate_session_id,
}
use diameterapi.Sequence.Generators.{
  SequenceGenerator, new_sequence_generator_set, next_hop_by_hop_id, next_end_to_end_id,
  hop_by_hop_next, end_to_end_next, Call, hop_by_hop, end_to_end, after,
}
use diameterapi.Sequence.Uniqueness.{
  hop_by_hop_repeats_iff, end_to_end_layout, end_to_end_differs,
  new_sequence_generator_set-IsWellFormed,
}

abbrev seeded : SequenceGenerator
seeded = new_sequence_generator_set 0xfffffffe 0xffffff

abbrev some_calls : List Call
some_calls = end_to_end 7 ∷ hop_by_hop ∷ end_to_end 300 ∷ []

hop_by_hop_repeats_iff_example :
    ((next_hop_by_hop_id seeded).1 ≡ (next_hop_by_hop_id (after (hop_by_hop ∷ some_calls) seeded)).1
      → 2 % 2 ^ 32 ≡ 0)
    × (2 % 2 ^ 32 ≡ 0
        → (next_hop_by_hop_id seeded).1
          ≡ (next_hop_by_hop_id (after (hop_by_hop ∷ some_calls) seeded)).1)
hop_by_hop_repeats_iff_example =
    hop_by_hop_repeats_iff seeded some_calls
      (new_sequence_generator_set-IsWellFormed 0xfffffffe 0xffffff)

end_to_end_layout_example :
    let id = (next_end_to_end_id 258 (after some_calls seeded)).1 in
    IsU32 id × (id / 2 ^ 24 ≡ 2) × (id % 2 ^ 24 ≡ 1)
end_to_end_layout_example =
    end_to_end_layout seeded some_calls 258
      (new_sequence_generator_set-IsWellFormed 0xfffffffe 0xffffff)

end_to_end_differs_example :
    (next_end_to_end_id 5 seeded).1
    ≢ (next_end_to_end_id 6 (after (end_to_end 5 ∷ some_calls) seeded)).1
end_to_end_differs_example =
    end_to_end_differs seeded some_calls 5 6
      (new_sequence_generator_set-IsWellFormed 0xfffffffe 0xffffff) (omega arith)

-- The first identifiers are the seeds, and the counters wrap.
first_hop_by_hop : (next_hop_by_hop_id seeded).1 ≡ 0xfffffffe
unfolding next_hop_by_hop_id hop_by_hop_next
first_hop_by_hop = refl

first_end_to_end : (next_end_to_end_id 258 seeded).1 ≡ 0x02ffffff
unfolding next_end_to_end_id end_to_end_next
first_end_to_end = refl

-- 2 ^ 32 + 10 microseconds
session_id_printed : generate_session_id 4294967306 (ascii "h") ≡ ascii "h;1;10"
unfolding generate_session_id
session_id_printed = refl

read_session_id-generate_session_id_example :
    read_session_id (generate_session_id 4294967306 (ascii "a;b")) ≡ (ascii "a;b", 4294967306)
read_session_id-generate_session_id_example =
    read_session_id-generate_session_id 4294967306 (ascii "a;b") (omega arith)
