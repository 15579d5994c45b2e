-- ===== src/Base/Results.antt =====
-- How a call ends, and calls that pass a state: a value, an error that `?` returns early, or a
-- panic. What was written before an error or a panic stays written.
use Prim.Native.Nat.{ℕ}
use mathlib.Core.Path.{◌≡◌, refl}
use native.Mathlib.Omega.{arith}
use mathlib.Core.Bool.{Bool, true, false}
use mathlib.Core.Option.{Option, none, some}
use mathlib.Core.Logic.{◌⊎◌, inl, inr}
use mathlib.Core.List.{List}

-- The errors that the code makes itself, one constructor for each `anyhow!` text with the values in
-- it, and one for the errors of each library that `?` passes on.
pub data Error : Type 0 where
  -- janus_manager/implementation
  no_session : ℕ → Error
  session_exists : ℕ → Error
  no_session_to_remove : ℕ → Error
  no_task : List ℕ → Error
  many_sessions : List ℕ → Error
  task_conflict : Error
  -- janus_manager/interface/network/consumer
  error_from_leader : ℕ → Error
  error_from_helper : ℕ → Error
  end_failed : ℕ → ℕ → Error
  start_failed : ℕ → ℕ → Error
  no_hostname : Error
  no_port : Error
  vdaf_parameter_refused : Error
  locations_differ : Error
  locations_failed : Error
  -- controller and client
  no_session_to_end : Error
  no_session_created : Error
  no_task_available : Error
  parameters_differ : Error
  wrong_length : ℕ → ℕ → Error
  wrong_type : Error
  not_initialized : Error
  -- core/fixed
  power_not_representable : Error
  not_an_integer : Error
  -- errors that `?` passes on from the libraries
  base64_error : Error
  base64_context : Error
  codec_error : Error
  token_error : Error
  clock_error : Error
  task_error : Error
  datastore_error : Error
  http_error : Error
  json_error : Error
  vdaf_error : Error
  interval_error : Error
  janus_client_error : Error
  janus_collector_error : Error

-- The panics of the code: `todo!()`, `assert!` and the `unwrap` calls.
pub data Panic : Type 0 where
  todo : Panic
  session_ids_differ : Panic
  join_unwrap : Panic
  keypair_unwrap : Panic
  overflow : Panic
  bind_failed : Panic

pub data Outcome {ℓ} (A : Type ℓ) : Type ℓ where
  ok : A → Outcome A
  err : Error → Outcome A
  panic : Panic → Outcome A

abbrev pub is_ok {ℓ} : {A : Type ℓ} → Outcome A → Bool
is_ok (ok _) = true
is_ok _ = false

-- A call on a state.
abbrev pub Action : Type 0 → Type 0 → Type 0
Action S A = S → Outcome A × S

module _ {S A : Type 0} where
  abbrev pub pure : A → Action S A
  pure a s = (ok a, s)

  abbrev pub fail : Error → Action S A
  fail e s = (err e, s)

  abbrev pub abort : Panic → Action S A
  abort p s = (panic p, s)

  abbrev pub gets : (S → A) → Action S A
  gets f s = (ok (f s), s)

  -- `option.ok_or(e)?`
  abbrev pub ok_or : Option A → Error → Action S A
  ok_or none e = fail e
  ok_or (some a) e = pure a

  -- `option.unwrap()`
  abbrev pub unwrap : Option A → Panic → Action S A
  unwrap none p = abort p
  unwrap (some a) p = pure a

  -- A result of code that leaves the state alone.
  abbrev pub lift : Outcome A → Action S A
  lift r s = (r, s)

abbrev pub modify : {S : Type 0} → (S → S) → Action S (Unit {0})
modify f s = (ok tt, f s)

infixl 5 ◌>>=◌ ◌>>◌
abbrev pub ◌>>=◌ : {S A B : Type 0} → Action S A → (A → Action S B) → Action S B
◌>>=◌ m f s =
    let (r, t) = m s in elim r [ ok a ↦ f a t | err e ↦ (err e, t) | panic p ↦ (panic p, t) ]

abbrev pub ◌>>◌ : {S B : Type 0} → Action S (Unit {0}) → Action S B → Action S B
m >> k = m >>= λ _. k

-- Inversion of a successful sequence: both parts succeed.
pub >>=-eq-ok :
    {S A B : Type 0} (m : Action S A) (f : A → Action S B) (s t : S) {b : B}
    → (m >>= f) s ≡ (ok b, t)
    → (a : A) × (s' : S) × (m s ≡ (ok a, s')) × (f a s' ≡ (ok b, t))
>>=-eq-ok {S} {A} {B} m f s t {b} h = by_result (m s).0 refl
  where
    by_result :
        (r : Outcome A)
        → (m s).0 ≡ r
        → (a : A) × (s' : S) × (m s ≡ (ok a, s')) × (f a s' ≡ (ok b, t))
    by_result (ok a) e = (a, (m s).1, ground arith, ground arith)
    by_result (err x) e = ground arith
    by_result (panic x) e = ground arith

-- Inversion of `option.ok_or(e)?`, and of a test that fails on its second branch.
pub ok_or-eq-ok :
    {S A : Type 0} (o : Option A) (e : Error) (s t : S) {a : A}
    → ok_or o e s ≡ (ok a, t)
    → (o ≡ some a) × (s ≡ t)
ok_or-eq-ok none e s t h = cc
ok_or-eq-ok (some x) e s t h = (cc, cc)

-- To split on a computed outcome: a value, or no success.
pub Outcome-cases {ℓ} : {A : Type ℓ} (r : Outcome A) → ((a : A) × (r ≡ ok a)) ⊎ (is_ok r ≡ false)
Outcome-cases (ok a) = inl (a, refl)
Outcome-cases (err e) = inr refl
Outcome-cases (panic p) = inr refl
