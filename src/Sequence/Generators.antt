-- ===== src/Sequence/Generators.antt =====
-- sequence_generator.go. `crypto/rand` and the clock are what the code gets from outside: the seed, a
-- number below 2 ^ 32 - 1, and the Unix time in seconds are arguments. A mutex makes each `Next` one
-- step; a method returns the generator as it leaves it, and its value.
use diameterapi.Common.{ℕ, suc, ◌+◌, ◌*◌, ◌%◌, ◌^◌, List, [], ◌∷◌}
use diameterapi.Wire.{u32}

pub record HopByHopIdGenerator : Type 0 where
  pub next_value : ℕ  -- uint32

pub record EndToEndIdGenerator : Type 0 where
  pub next_value_for_lower_24_bits : ℕ  -- uint32

pub record SequenceGenerator : Type 0 where
  pub hbh_generator : HopByHopIdGenerator
  pub ete_generator : EndToEndIdGenerator

-- `NewHopByHopIdGenerator`, on the number that `rand.Int` drew
abbrev pub new_hop_by_hop_id_generator : ℕ → HopByHopIdGenerator
new_hop_by_hop_id_generator n = record { next_value = u32 n }

-- `NewEndToEndIdGenerator`, on the number that `rand.Int` drew
abbrev pub new_end_to_end_id_generator : ℕ → EndToEndIdGenerator
new_end_to_end_id_generator n = record { next_value_for_lower_24_bits = u32 n }

abbrev pub new_sequence_generator_set : ℕ → ℕ → SequenceGenerator
new_sequence_generator_set n k = record {
  hbh_generator = new_hop_by_hop_id_generator n;
  ete_generator = new_end_to_end_id_generator k;
}

-- `(*HopByHopIdGenerator).Next`
unfoldable pub hop_by_hop_next : HopByHopIdGenerator → HopByHopIdGenerator × ℕ
hop_by_hop_next g = (record { next_value = u32 (g.next_value + 1) }, g.next_value)

-- `(*EndToEndIdGenerator).Next` at the time `now`: `uint32(now) & 0xff` above `n & 0x00ffffff`. The
-- two parts of `|` have no bit in common.
unfoldable pub end_to_end_next : ℕ → EndToEndIdGenerator → EndToEndIdGenerator × ℕ
end_to_end_next now g =
    let n = g.next_value_for_lower_24_bits in
    (record { next_value_for_lower_24_bits = u32 (n + 1) }, (u32 now % 2 ^ 8) * 2 ^ 24 + n % 2 ^ 24)

unfoldable pub next_hop_by_hop_id : SequenceGenerator → SequenceGenerator × ℕ
next_hop_by_hop_id g =
    let (hbh, n) = hop_by_hop_next g.hbh_generator in (record g { hbh_generator = hbh }, n)

unfoldable pub next_end_to_end_id : ℕ → SequenceGenerator → SequenceGenerator × ℕ
next_end_to_end_id now g =
    let (ete, n) = end_to_end_next now g.ete_generator in (record g { ete_generator = ete }, n)

-- The identifiers that a sequence of calls returns: `hop_by_hop`, or `end_to_end` at a time.
pub data Call : Type 0 where
  hop_by_hop : Call
  end_to_end : ℕ → Call

unfoldable pub step : Call → SequenceGenerator → SequenceGenerator × ℕ
step hop_by_hop g = next_hop_by_hop_id g
step (end_to_end now) g = next_end_to_end_id now g

-- The generator after the calls.
unfoldable pub after : List Call → SequenceGenerator → SequenceGenerator
unfolding step
after [] g = g
after (c ∷ calls) g = let (g', _) = step c g in after calls g'

abbrev pub hop_by_hop_calls : List Call → ℕ
hop_by_hop_calls [] = 0
hop_by_hop_calls (hop_by_hop ∷ calls) = suc (hop_by_hop_calls calls)
hop_by_hop_calls (end_to_end _ ∷ calls) = hop_by_hop_calls calls

abbrev pub end_to_end_calls : List Call → ℕ
end_to_end_calls [] = 0
end_to_end_calls (hop_by_hop ∷ calls) = end_to_end_calls calls
end_to_end_calls (end_to_end _ ∷ calls) = suc (end_to_end_calls calls)
