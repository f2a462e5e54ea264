-- ===== src/Common/Results.antt =====
-- What a Go function hands back: a value, an error value, or a run-time panic. `stuck` is no Go
-- outcome: a loop of the model ran out of fuel.
use mathlib.Core.Path.{◌≡◌, refl}
use mathlib.Core.Bool.{Bool, true, false}

-- One constructor for each error that the code makes; the texts are left out.
pub data Error : Type 0 where
  eof unexpected_eof stream_read_failure length_exceeds_input header_exceeds_stream : Error
  unknown_version invalid_version transport_failure : Error
  bad_ip4_length bad_ip6_length : Error
  not_convertible not_utf8 time_before_epoch time_after_limit bad_time_length negative_time : Error
  type_not_valid bad_data_length bad_address group_decode_failure : Error
  yaml_type_invalid avp_not_in_dictionary message_not_in_dictionary : Error
  expected_ccr missing_avp_in_ccr no_local_address : Error
  cca_without_session cca_of_unknown_session unexpected_cca : Error
  missing_mandatory_avp identity_decode_failure expected_cer expected_cea write_cea_failure : Error
  cer_when_connected cea_when_connected dpa_unsolicited : Error
  cer_when_half_closed cea_when_half_closed dpr_when_half_closed : Error
  message_when_disconnected cannot_initiate_disconnect state_machine_message_from_client : Error

pub data Outcome {ℓ} (A : Type ℓ) : Type ℓ where
  ok : A → Outcome A
  err : Error → Outcome A
  panics : Outcome A
  stuck : Outcome A

-- Panics and lack of fuel end a computation like an error does.
module _ {ℓ κ} {A : Type ℓ} {B : Type κ} where
  infixl 5 ◌>>=◌
  abbrev pub ◌>>=◌ : Outcome A → (A → Outcome B) → Outcome B
  stuck >>= next = stuck
  panics >>= next = panics
  err cause >>= next = err cause
  ok value >>= next = next value

-- A bounds check of the run time: it panics where `b` fails.
abbrev pub check : Bool → Outcome (Unit {0})
check false = panics
check true = ok tt

-- `if !b { return nil, cause }`
abbrev pub guard : Bool → Error → Outcome (Unit {0})
guard false cause = err cause
guard true cause = ok tt

module _ {ℓ} {B : Type ℓ} where
  infixl 5 ◌>>◌
  abbrev pub ◌>>◌ : Outcome (Unit {0}) → Outcome B → Outcome B
  test >> rest = test >>= λ _. rest

-- `fmt.Errorf("…: %s", err)` in place of the error of `m`.
abbrev pub wrap_error {ℓ} : {A : Type ℓ} → Error → Outcome A → Outcome A
wrap_error e (ok a) = ok a
wrap_error e (err _) = err e
wrap_error e panics = panics
wrap_error e stuck = stuck

-- `if err != nil { panic(err) }`
abbrev pub must {ℓ} : {A : Type ℓ} → Outcome A → Outcome A
must (err _) = panics
must (ok a) = ok a
must stuck = stuck
must panics = panics

module _ {ℓ κ} {A : Type ℓ} {B : Type κ} where
  pub >>=-eq-ok :
      (m : Outcome A) (next : A → Outcome B) {b : B}
      → (m >>= next) ≡ ok b
      → (a : A) × (m ≡ ok a) × (next a ≡ ok b)
  >>=-eq-ok stuck next h = cc
  >>=-eq-ok panics next h = cc
  >>=-eq-ok (err cause) next h = cc
  >>=-eq-ok (ok a) next h = (a, refl, h)

pub ok_injective {ℓ} : {A : Type ℓ} {x y : A} → ok x ≡ ok y → x ≡ y
ok_injective e = cc

-- To split on a computed outcome and keep the equation.
pub data Cases {ℓ} {A : Type ℓ} (m : Outcome A) : Type ℓ where
  is_ok : (a : A) → m ≡ ok a → Cases m
  is_err : (e : Error) → m ≡ err e → Cases m
  is_panics : m ≡ panics → Cases m
  is_stuck : m ≡ stuck → Cases m

pub cases {ℓ} : {A : Type ℓ} (m : Outcome A) → Cases m
cases (ok a) = is_ok a refl
cases (err e) = is_err e refl
cases panics = is_panics refl
cases stuck = is_stuck refl

-- Inversion of a bind whose continuation always returns.
pub map-eq-stuck {ℓ κ} :
    {A : Type ℓ} {B : Type κ} (m : Outcome A) (f : A → B)
    → (m >>= λ a. ok (f a)) ≡ stuck
    → m ≡ stuck
map-eq-stuck (ok a) f h = cc
map-eq-stuck (err e) f h = cc
map-eq-stuck panics f h = cc
map-eq-stuck stuck f h = refl

-- The value of an outcome, or a default, for runs at concrete inputs.
module _ {ℓ} {A : Type ℓ} where
  abbrev pub value_or : A → Outcome A → A
  value_or d (ok a) = a
  value_or d (err e) = d
  value_or d panics = d
  value_or d stuck = d

  abbrev pub succeeds : Outcome A → Bool
  succeeds (ok a) = true
  succeeds (err e) = false
  succeeds panics = false
  succeeds stuck = false

  pub succeeds_lem : (d : A) (m : Outcome A) → succeeds m ≡ true → m ≡ ok (value_or d m)
  succeeds_lem d (ok a) h = refl
  succeeds_lem d (err e) h = cc
  succeeds_lem d panics h = cc
  succeeds_lem d stuck h = cc
