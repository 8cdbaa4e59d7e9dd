-- ===== src/Common/Results.antt =====
-- Go's pair of a value and an error, as one value.
use Prim.Native.Nat.{ℕ}
use mathlib.Core.List.{List}
use mathlib.Core.Path.{◌≡◌, refl}
use mathlib.Core.Logic.{◌⊎◌, inl, inr}

-- `external` is an error made by code that is not part of the repository (the database, the JSON
-- library, an RPC node); the other constructors are the errors that the repository makes.
pub data Error : Type 0 where
  external : ℕ → Error
  chain_runtime_not_found : List ℕ → Error
  chain_not_configured : List ℕ → Error
  chain_runtime_nil : Error
  message_nil : Error
  invalid_request : Error
  unknown_event : Error
  unknown_error : Error
  invalid_response : Error
  socket_closed : Error
  gas_limit_exceeded : ℕ → Error
  gas_below_minimum : ℕ → Error
  unknown_event_type : List ℕ → Error
  transaction_failed : Error
  receipt_timeout : ℕ → Error
  step_limit_exceeded : ℕ → Error
  step_below_minimum : ℕ → Error
  topic_length_mismatch : Error
  unknown_topic : Error
  empty_chain_name : Error
  empty_home_dir : Error
  invalid_number : Error
  number_out_of_range : Error
  invalid_hex : Error
  invalid_prefix : Error
  invalid_length : ℕ → Error
  unexpected_event_shape : Error
  no_messages_found : Error
  empty_rpc_url : Error
  retries_exhausted : Error
  chain_exists : Error
  saved_height_too_high : Error

pub data Result {ℓ} (A : Type ℓ) : Type ℓ where
  ok : A → Result A
  err : Error → Result A

infixl 5 ◌>>=◌ ◌>>◌
abbrev pub ◌>>=◌ {ℓ κ} : {A : Type ℓ} {B : Type κ} → Result A → (A → Result B) → Result B
ok a >>= f = f a
err e >>= f = err e

abbrev pub ◌>>◌ {ℓ κ} : {A : Type ℓ} {B : Type κ} → Result A → Result B → Result B
m >> k = m >>= λ _. k

pub Result-cases {ℓ} :
    {A : Type ℓ} (r : Result A) → ((a : A) × (r ≡ ok a)) ⊎ ((e : Error) × (r ≡ err e))
Result-cases (ok a) = inl (a, refl)
Result-cases (err e) = inr (e, refl)

-- A chain that succeeds has a first result that is a value, and what follows from both holds.
pub >>=-gives {ℓ κ μ} :
    {A : Type ℓ} {B : Type κ} {P : Type μ} (r : Result A) (f : A → Result B) (b : B)
    → (r >>= f) ≡ ok b
    → ((a : A) → r ≡ ok a → f a ≡ ok b → P)
    → P
>>=-gives (ok a) f b h k = k a refl h
>>=-gives (err e) f b h k = absurd (cc)

pub err-ne {ℓ} : {A : Type ℓ} (e : Error) (a : A) → err e ≡ ok a → ⊥
err-ne e a h = cc
