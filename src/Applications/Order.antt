-- ===== src/Applications/Order.antt =====
-- The order of the requests of a Credit-Control session.
use diameterapi.Common.{
  ℕ, zero, suc, ◌+◌, ◌-◌, ◌%◌, ◌^◌, ◌<◌, ◌≤◌, ◌≡◌, refl, ap, List, [], ◌∷◌, ◌++◌, Option, none,
  Outcome, ok, replicate, ◌⊎◌, ◌∙◌, subst, arith,
}
use Prim.Native.Nat.{max}
use diameterapi.Wire.{u32}
use diameterapi.Message.Types.{Message}
use diameterapi.Typed.Values.{Floats}
use diameterapi.Dictionary.Types.{Dictionary}
use diameterapi.Agent.Identity.{DiameterEntity}
use diameterapi.Applications.Sessions.{
  Phase, updates, terminate, terminating, DiameterSession, new_diameter_session, generate_ccr,
  generate_ccr_i, generate_ccr_u, generate_ccr_t, sent, phase_after_update, messages_for_session,
}

module _ (floats : Floats) where
  -- The request of a session with a type and a number
  abbrev pub request_of : DiameterSession → ℕ → ℕ → Outcome (Option Message)
  request_of s request_type request_number = sent floats (
      generate_ccr floats s.session_id request_type (u32 request_number) s.dictionary
        s.diameter_entity.origin_host s.diameter_entity.origin_realm)

  -- Updates with numbers from `first` on
  abbrev pub updates_from : DiameterSession → ℕ → ℕ → List (Outcome (Option Message))
  updates_from s first zero = []
  updates_from s first (suc count) = request_of s 2 first ∷ updates_from s (first + 1) count

  abbrev at : DiameterSession → Phase → ℕ → DiameterSession
  at s p k = record s { phase = p; update_sequence_number = k }

  after_the_end :
      (s : DiameterSession) (k calls : ℕ)
      → messages_for_session floats calls (at s terminating k) ≡ replicate calls (ok none)
  unfolding messages_for_session
  after_the_end s k zero = refl
  after_the_end s k (suc calls) = ap (◌∷◌ (ok none)) (after_the_end s k calls)

  u32-wrapped : (k : ℕ) → u32 ((k + 1) % 2 ^ 64) ≡ u32 (k + 1)
  unfolding u32
  u32-wrapped k = omega arith

  from_terminate :
      (s : DiameterSession) (k calls : ℕ)
      → messages_for_session floats (suc calls) (at s terminate k)
        ≡ request_of s 3 (k + 1) ∷ replicate calls (ok none)
  unfolding messages_for_session generate_ccr_t
  from_terminate s k calls =
      rw (u32-wrapped k) (ap (◌∷◌ (request_of s 3 (k + 1))) (after_the_end s k calls))

  -- One update
  from_updates :
      (s : DiameterSession) (k calls : ℕ) (p : Phase)
      → k + 1 < 2 ^ 64
      → phase_after_update floats (k + 1) s.number_of_updates_to_send ≡ p
      → messages_for_session floats (suc calls) (at s updates k)
        ≡ request_of s 2 (k + 1) ∷ messages_for_session floats calls (at s p (k + 1))
  unfolding messages_for_session generate_ccr_u
  from_updates s k calls p h e =
      let same : (k + 1) % 2 ^ 64 ≡ k + 1 = omega arith in rw (same, e) refl

  -- The updates that are left, at least one
  updates-left :
      (s : DiameterSession) (k left calls : ℕ)
      → k + suc left < 2 ^ 64
      → ((left ≡ 0) × (s.number_of_updates_to_send ≤ k + 1))
        ⊎ (s.number_of_updates_to_send ≡ k + suc left)
      → messages_for_session floats (suc left + suc calls) (at s updates k)
        ≡ updates_from s (k + 1) (suc left)
          ++ (request_of s 3 (k + suc left + 1) ∷ replicate calls (ok none))
  updates-left s k zero calls h e =
      ap (λ (n : ℕ). messages_for_session floats n (at s updates k)) (omega arith)
      ∙ from_updates s k (suc calls) terminate h (ground (arith, e))
      ∙ ap (◌∷◌ (request_of s 2 (k + 1))) (from_terminate s (k + 1) calls)
  updates-left s k (suc left) calls h e =
      ap (λ (n : ℕ). messages_for_session floats n (at s updates k)) (omega arith)
      ∙ from_updates s k (suc left + suc calls) updates (omega arith) (ground (arith, e))
      ∙ ap (◌∷◌ (request_of s 2 (k + 1))) (
          updates-left s (k + 1) left calls (omega arith) (ground (arith, e))
          ∙ ap
              (λ (n : ℕ).
                updates_from s (k + 1 + 1) (suc left)
                ++ (request_of s 3 n ∷ replicate calls (ok none)))
              (omega arith))

  whole_session :
      (now : ℕ) (entity : DiameterEntity) (dictionary : Dictionary) (number left calls : ℕ)
      → suc left < 2 ^ 64
      → ((left ≡ 0) × (number ≤ 1)) ⊎ (number ≡ suc left)
      → let s = new_diameter_session now entity dictionary number in
        messages_for_session floats (suc left + 2 + calls) s
        ≡ request_of s 1 0 ∷ updates_from s 1 (suc left)
          ++ (request_of s 3 (suc left + 1) ∷ replicate calls (ok none))
  unfolding messages_for_session generate_ccr_i
  whole_session now entity dictionary number left calls h e =
      let s = new_diameter_session now entity dictionary number in
      ap (λ (n : ℕ). messages_for_session floats n s) {x = suc left + 2 + calls}
        {y = suc (suc left + suc calls)} (omega arith)
      ∙ ap (◌∷◌ (request_of s 1 0)) (
          updates-left s 0 left calls (omega arith) (ground (arith, e))
          ∙ ap
              (λ (n : ℕ).
                updates_from s 1 (suc left) ++ (request_of s 3 n ∷ replicate calls (ok none)))
              {x = 0 + suc left + 1} {y = suc left + 1} (omega arith))

  -- What the calls for the messages of a session return, if its number of updates is below 2 ^ 64 - 1: the
  -- result of making one initial request with the number 0, then of as many updates as were asked for but
  -- one at least, numbered from 1 on, then of one termination with the next number, then none. The numbers
  -- are written modulo 2 ^ 32. A result is the request, or the panic where the dictionary cannot make it.
  pub messages_for_session_lem :
      (now : ℕ) (entity : DiameterEntity) (dictionary : Dictionary) (number calls : ℕ)
      → number < 2 ^ 64 - 1
      → let s = new_diameter_session now entity dictionary number in
        messages_for_session floats (max 1 number + 2 + calls) s
        ≡ request_of s 1 0 ∷ updates_from s 1 (max 1 number)
          ++ (request_of s 3 (max 1 number + 1) ∷ replicate calls (ok none))
  messages_for_session_lem now entity dictionary number calls h =
      let s = new_diameter_session now entity dictionary number in
      subst
        (λ (m : ℕ).
          messages_for_session floats (m + 2 + calls) s
          ≡ request_of s 1 0 ∷ updates_from s 1 m
            ++ (request_of s 3 (m + 1) ∷ replicate calls (ok none)))
        {x = suc (max 1 number - 1)} {y = max 1 number} (omega arith)
        (whole_session now entity dictionary number (max 1 number - 1) calls (omega arith)
          (grind arith))
