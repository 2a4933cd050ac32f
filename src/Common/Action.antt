-- ===== src/Common/Action.antt =====
-- Methods that change a state and may fail: what was written before a failure stays written, so
-- the state comes back beside the error too.

-- The gRPC status codes that client.go and the handlers return.
pub data Code : Type 0 where
  invalid_argument unavailable deadline_exceeded canceled not_found internal : Code

-- `database` is what the SQL driver reports; the others are the program's own errors.
pub data Error : Type 0 where
  database constraint decode_snapshot encode_failed decode_failed : Error
  unsupported_command empty_key missing_option : Error
  status : Code → Error

pub data Result {ℓ} (A : Type ℓ) : Type ℓ where
  ok : A → Result A
  err : Error → Result A

-- The result of a method that returns only an error.
abbrev pub Done : Type 0
Done = Unit

abbrev pub Action {ℓ κ} : Type ℓ → Type κ → Type (ℓ ⊔ κ)
Action S A = S → Result A × S

module _ {ℓ} {S A : Type ℓ} where
  abbrev pub pure : A → Action S A
  pure a s = (ok a, s)

  abbrev pub fail : Error → Action S A
  fail e s = (err e, s)

  abbrev pub gets : (S → A) → Action S A
  gets f s = (ok (f s), s)

module _ {S : Type 0} where
  abbrev pub modify : (S → S) → Action S Done
  modify f s = (ok tt, f s)

module _ {ℓ} {S A B : Type ℓ} where
  abbrev pub resume : Result A → (A → Action S B) → Action S B
  resume (ok a) f s = f a s
  resume (err e) f s = (err e, s)

  infixl 10 ◌>>=◌ ◌>>◌
  abbrev pub ◌>>=◌ : Action S A → (A → Action S B) → Action S B
  ◌>>=◌ m f s = let (r, s') = m s in resume r f s'

  abbrev pub ◌>>◌ : Action S A → Action S B → Action S B
  m >> n = m >>= λ _. n
