-- ===== src/Sequence/SessionIds.antt =====
-- sequence_generator.go: `GenerateSessionId`. The clock is an argument: the microseconds since the Unix
-- epoch, as a uint64. `%d` prints a number in decimal without leading zeros.
use diameterapi.Common.{
  ℕ, zero, suc, ◌+◌, ◌-◌, ◌*◌, ◌/◌, ◌%◌, ◌^◌, ◌<◌, ◌≤◌, ◌≡◌, sym, ap, ap₂, ◌∙◌, [], ◌∷◌, ◌++◌,
  append_assoc, ◌==◌, ltb, if◌then◌else◌, arith,
}
use native.Mathlib.Decide.{dec_lt}
use mathlib.Core.List.{reverse, reverse-append, reverse-reverse, reverse-cons}
use diameterapi.Wire.{Bytes, u32}

-- The digits from the last to the first
unfoldable pub digits : ℕ → ℕ → Bytes
digits zero n = []
digits (suc fuel) n =
    (48 + n % 10) ∷ (let rest = digits fuel (n / 10) in if ltb n 10 then [] else rest)

-- A uint32 has ten digits at most.
unfoldable pub print_uint32 : ℕ → Bytes
unfolding digits
print_uint32 n = reverse (digits 10 n)

unfoldable pub generate_session_id : ℕ → Bytes → Bytes
unfolding print_uint32
generate_session_id now origin_host =
    origin_host ++ (59 ∷ print_uint32 (u32 (now / 2 ^ 32)) ++ (59 ∷ print_uint32 (u32 now)))

-- A number that stands from its last digit to its first, up to a semicolon; and what follows.
unfoldable pub read_number : Bytes → ℕ × Bytes
read_number [] = (0, [])
read_number (c ∷ cs) =
    let (n, rest) = read_number cs in if c == 59 then (0, cs) else ((c - 48) + 10 * n, rest)

-- The host and the time of a Session-Id, read from its end
unfoldable pub read_session_id : Bytes → Bytes × ℕ
unfolding read_number
read_session_id id =
    let (low, before) = read_number (reverse id) in
    let (high, host) = read_number before in (reverse host, high * 2 ^ 32 + low)

read_number-cons :
    (d n : ℕ) (cs rest : Bytes)
    → d < 10
    → read_number cs ≡ (n, rest)
    → read_number ((48 + d) ∷ cs) ≡ (d + 10 * n, rest)
unfolding read_number
read_number-cons d n cs rest h e = grind (arith, e)

last_digit : (fuel n : ℕ) → n < 10 → digits (suc fuel) n ≡ (48 + n % 10) ∷ []
unfolding digits
last_digit fuel n h = ground arith

digit_before : (fuel n : ℕ) → 10 ≤ n → digits (suc fuel) n ≡ (48 + n % 10) ∷ digits fuel (n / 10)
unfolding digits
digit_before fuel n h = ground arith

read_number-end :
    (n : ℕ) (rest : Bytes) → n < 10 → read_number ((48 + n % 10) ∷ 59 ∷ rest) ≡ (n, rest)
unfolding read_number
read_number-end n rest h = ground arith

read_number-digits :
    (fuel n : ℕ) (rest : Bytes)
    → n < 10 ^ suc fuel
    → read_number (digits (suc fuel) n ++ (59 ∷ rest)) ≡ (n, rest)
read_number-digits zero n rest h = rw (last_digit 0 n h) (read_number-end n rest h)
read_number-digits (suc fuel) n rest h = elim (dec_lt n 10) [
  | yes small ↦ rw (last_digit (suc fuel) n small) (read_number-end n rest small)
  | no big ↦ rw (digit_before (suc fuel) n (omega arith)) (
      read_number-cons (n % 10) (n / 10) (digits (suc fuel) (n / 10) ++ (59 ∷ rest)) rest
        (omega arith) (read_number-digits fuel (n / 10) rest (omega arith))
      ∙ ap (λ (t : ℕ). (t, rest)) (omega arith))
]

reverse-cons_append :
    (c : ℕ) (xs ys : Bytes) → reverse (xs ++ (c ∷ reverse ys)) ≡ ys ++ (c ∷ reverse xs)
reverse-cons_append c xs ys =
    reverse-append xs (c ∷ reverse ys)
    ∙ ap (λ (t : Bytes). t ++ reverse xs)
        (reverse-cons c (reverse ys) ∙ ap (λ (t : Bytes). t ++ (c ∷ [])) (reverse-reverse ys))
    ∙ append_assoc ys (c ∷ []) (reverse xs)

-- The three parts of a Session-Id in the other order
backwards :
    (host high low : Bytes)
    → reverse (host ++ (59 ∷ reverse high ++ (59 ∷ reverse low)))
      ≡ low ++ (59 ∷ high ++ (59 ∷ reverse host))
backwards host high low =
    let tail : Bytes = reverse high ++ (59 ∷ reverse low) in
    let turned : reverse tail ≡ low ++ (59 ∷ high) =
      reverse-cons_append 59 (reverse high) low
      ∙ ap (λ (t : Bytes). low ++ (59 ∷ t)) (reverse-reverse high) in
    ap (λ (t : Bytes). reverse (host ++ (59 ∷ t))) (sym (reverse-reverse tail))
    ∙ reverse-cons_append 59 host (reverse tail)
    ∙ ap (λ (t : Bytes). t ++ (59 ∷ reverse host)) turned
    ∙ append_assoc low (59 ∷ high) (59 ∷ reverse host)

-- From its end a Session-Id is read back: `GenerateSessionId` makes the host and the microseconds
-- since the epoch, a uint64, recoverable from its text, also where the host has semicolons.
pub read_session_id-generate_session_id :
    (now : ℕ) (origin_host : Bytes)
    → now < 2 ^ 64
    → read_session_id (generate_session_id now origin_host) ≡ (origin_host, now)
unfolding read_session_id generate_session_id
read_session_id-generate_session_id now host h =
    let low : read_number
          (digits 10 (u32 now) ++ (59 ∷ digits 10 (u32 (now / 2 ^ 32)) ++ (59 ∷ reverse host)))
        ≡ (u32 now, digits 10 (u32 (now / 2 ^ 32)) ++ (59 ∷ reverse host)) =
      read_number-digits 9 (u32 now) (digits 10 (u32 (now / 2 ^ 32)) ++ (59 ∷ reverse host))
        (unfold u32 in omega arith) in
    let high : read_number (digits 10 (u32 (now / 2 ^ 32)) ++ (59 ∷ reverse host))
        ≡ (u32 (now / 2 ^ 32), reverse host) =
      read_number-digits 9 (u32 (now / 2 ^ 32)) (reverse host) (unfold u32 in omega arith) in
    rw (backwards host (digits 10 (u32 (now / 2 ^ 32))) (digits 10 (u32 now)), low, high)
      (ap₂ (λ (t : Bytes). λ (n : ℕ). (t, n)) (reverse-reverse host) (unfold u32 in omega arith))
