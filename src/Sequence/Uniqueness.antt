-- ===== src/Sequence/Uniqueness.antt =====
-- Which identifiers the generators of sequence_generator.go return, and when two of them differ.
use diameterapi.Common.{
  ℕ, suc, ◌+◌, ◌/◌, ◌%◌, ◌^◌, ◌<◌, ◌≡◌, ◌≢◌, sym, ap, ◌∙◌, List, [], ◌∷◌, arith,
}
use diameterapi.Wire.{IsU32, u32}
use diameterapi.Sequence.Generators.{
  SequenceGenerator, new_sequence_generator_set, hop_by_hop_next, end_to_end_next,
  next_hop_by_hop_id, next_end_to_end_id, Call, hop_by_hop, end_to_end, step, after,
  hop_by_hop_calls, end_to_end_calls,
}

-- The two counters are uint32s.
pub record IsWellFormed (g : SequenceGenerator) : Type 0 where
  pub hop_by_hop_fits : IsU32 g.hbh_generator.next_value
  pub end_to_end_fits : IsU32 g.ete_generator.next_value_for_lower_24_bits

pub new_sequence_generator_set-IsWellFormed :
    (n k : ℕ) → IsWellFormed (new_sequence_generator_set n k)
new_sequence_generator_set-IsWellFormed n k = record {
  hop_by_hop_fits = omega arith;
  end_to_end_fits = omega arith;
}

-- The counters after any sequence of calls.
after_hop_by_hop :
    (calls : List Call) (g : SequenceGenerator)
    → IsWellFormed g
    → (after calls g).hbh_generator.next_value
      ≡ u32 (g.hbh_generator.next_value + hop_by_hop_calls calls)
unfolding after step next_hop_by_hop_id next_end_to_end_id hop_by_hop_next
after_hop_by_hop [] g h = omega (arith, h.hop_by_hop_fits)
after_hop_by_hop (hop_by_hop ∷ calls) g h = omega (
  arith,
  after_hop_by_hop calls (after (hop_by_hop ∷ []) g)
      (record { hop_by_hop_fits = omega arith; end_to_end_fits = h.end_to_end_fits }),
)
after_hop_by_hop (end_to_end now ∷ calls) g h =
    after_hop_by_hop calls (after (end_to_end now ∷ []) g) (record {
      hop_by_hop_fits = h.hop_by_hop_fits;
      end_to_end_fits = unfold end_to_end_next in omega arith;
    })

after_end_to_end :
    (calls : List Call) (g : SequenceGenerator)
    → IsWellFormed g
    → (after calls g).ete_generator.next_value_for_lower_24_bits
      ≡ u32 (g.ete_generator.next_value_for_lower_24_bits + end_to_end_calls calls)
unfolding after step next_hop_by_hop_id next_end_to_end_id end_to_end_next
after_end_to_end [] g h = omega (arith, h.end_to_end_fits)
after_end_to_end (end_to_end now ∷ calls) g h = omega (
  arith,
  after_end_to_end calls (after (end_to_end now ∷ []) g)
      (record { hop_by_hop_fits = h.hop_by_hop_fits; end_to_end_fits = omega arith }),
)
after_end_to_end (hop_by_hop ∷ calls) g h =
    after_end_to_end calls (after (hop_by_hop ∷ []) g) (record {
      hop_by_hop_fits = unfold hop_by_hop_next in omega arith;
      end_to_end_fits = h.end_to_end_fits;
    })

-- A hop-by-hop identifier, and the identifier that the next hop-by-hop call returns after `calls`.
-- From a generator with counters of 32 bits, the two are equal exactly when the calls from the one
-- to the other are a multiple of 2 ^ 32: identifiers repeat after 2 ^ 32 calls and never before,
-- whatever end-to-end calls are made in between.
pub hop_by_hop_repeats_iff :
    (g : SequenceGenerator) (calls : List Call)
    → IsWellFormed g
    → ((next_hop_by_hop_id g).1 ≡ (next_hop_by_hop_id (after (hop_by_hop ∷ calls) g)).1
        → suc (hop_by_hop_calls calls) % 2 ^ 32 ≡ 0)
      × (suc (hop_by_hop_calls calls) % 2 ^ 32 ≡ 0
          → (next_hop_by_hop_id g).1 ≡ (next_hop_by_hop_id (after (hop_by_hop ∷ calls) g)).1)
unfolding next_hop_by_hop_id hop_by_hop_next
hop_by_hop_repeats_iff g calls h =
    let later = after_hop_by_hop (hop_by_hop ∷ calls) g h in
    (λ e. omega (arith, later, h.hop_by_hop_fits), λ e. omega (arith, later, h.hop_by_hop_fits))

-- From a generator with counters of 32 bits, the end-to-end identifier that is returned at the time
-- `now` after `calls` has the low eight bits of the time above the low 24 bits of the counter, which
-- has moved by the number of end-to-end calls.
pub end_to_end_layout :
    (g : SequenceGenerator) (calls : List Call) (now : ℕ)
    → IsWellFormed g
    → let id = (next_end_to_end_id now (after calls g)).1 in
      IsU32 id
      × (id / 2 ^ 24 ≡ now % 2 ^ 8)
      × (id % 2 ^ 24
          ≡ (g.ete_generator.next_value_for_lower_24_bits + end_to_end_calls calls) % 2 ^ 24)
unfolding next_end_to_end_id end_to_end_next
end_to_end_layout g calls now h =
    let later = after_end_to_end calls g h in
    (omega arith, omega arith, omega (arith, later, h.end_to_end_fits))

moved : (n k : ℕ) → suc k < 2 ^ 24 → (n + 0) % 2 ^ 24 ≢ (n + suc k) % 2 ^ 24
moved n k few e = omega arith

-- From a generator with counters of 32 bits, two end-to-end identifiers with fewer than 2 ^ 24
-- end-to-end calls from the one to the other are different, at whatever times they are made.
pub end_to_end_differs :
    (g : SequenceGenerator) (calls : List Call) (now later : ℕ)
    → IsWellFormed g
    → suc (end_to_end_calls calls) < 2 ^ 24
    → (next_end_to_end_id now g).1 ≢ (next_end_to_end_id later (after (end_to_end now ∷ calls) g)).1
unfolding after
end_to_end_differs g calls now later h few e =
    let (_, _, first) = end_to_end_layout g [] now h in
    let (_, _, second) = end_to_end_layout g (end_to_end now ∷ calls) later h in
    moved _ (end_to_end_calls calls) few (sym first ∙ ap (λ (t : ℕ). t % 2 ^ 24) e ∙ second)
