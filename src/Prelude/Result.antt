-- ===== src/Prelude/Result.antt =====
-- Results of code that may throw, with the errors of cf-core as values.
use indrav.Prelude.{◌≡◌, refl, Bool, true, false, Option, none, some, if◌then◌else◌}

-- One constructor for each `throw`; `type_error` is what reading a property of `undefined` raises.
pub data Error : Type 0 where
  type_error : Error
  invalid_extended_keys : Error
  app_does_not_exist : Error
  no_installed_apps : Error
  no_proposed_apps : Error
  no_app_of_kind : Error
  free_balance_missing : Error
  invalid_xpub : Error
  negative_balance : Error
  invalid_state_object : Error
  agreement_not_found : Error
  incorrect_participants : Error
  inconsistent_app_key : Error
  no_virtual_app_agreement : Error
  invalid_accessor : Error
  different_assets : Error
  unsupported_outcome_type : Error
  unimplemented_interpreter_params : Error
  decode_failed : Error
  no_deposit_found : Error
  undefined_signature : Error
  invalid_signature : Error
  invalid_seq : Error
  no_middleware : Error
  timed_out : Error
  chain_call_failed : Error
  no_multisig_for_counterparties : Error
  no_channel_with_intermediary : Error
  no_channel_with_initiator : Error
  no_channel_with_responder : Error
  unmatched_outcome : Error
  no_state_channel : Error
  no_multisig_for_app : Error
  no_proposal_for_app : Error
  unknown_protocol : Error

pub data Result {ℓ} (A : Type ℓ) : Type ℓ where
  ok : A → Result A
  err : Error → Result A

abbrev pub or_throw {ℓ} : {A : Type ℓ} → Option A → Error → Result A
or_throw none e = err e
or_throw (some a) e = ok a

-- `if (!test) throw e`
abbrev pub guard : Bool → Error → Result (Unit {0})
guard holds e = if holds then ok tt else err e

infixl 5 ◌>>=◌
abbrev pub ◌>>=◌ {ℓ κ} : {A : Type ℓ} {B : Type κ} → Result A → (A → Result B) → Result B
err thrown >>= next = err thrown
ok value >>= next = next value

infixl 5 ◌>>◌
abbrev pub ◌>>◌ {ℓ} : {B : Type ℓ} → Result (Unit {0}) → Result B → Result B
first >> second = first >>= λ _. second

-- A sequence that succeeds has had its first step succeed, and then the second on its result.
pub >>=-eq-ok {ℓ κ} :
    {A : Type ℓ} {B : Type κ} (first : Result A) (next : A → Result B) {result : B}
    → (first >>= next) ≡ ok result
    → (value : A) × (first ≡ ok value) × (next value ≡ ok result)
>>=-eq-ok (err thrown) next h = cc
>>=-eq-ok (ok value) next h = (value, refl, h)

pub guard-eq-ok : (b : Bool) (e : Error) {u : Unit {0}} → guard b e ≡ ok u → b ≡ true
guard-eq-ok true e h = refl
guard-eq-ok false e h = cc

pub or_throw-eq-ok {ℓ} :
    {A : Type ℓ} (o : Option A) (e : Error) {a : A} → or_throw o e ≡ ok a → o ≡ some a
or_throw-eq-ok none e h = cc
or_throw-eq-ok (some a) e h = cc
