-- ===== src/Service/Error.antt =====
-- core/src/error.rs: the errors of the services, without their texts, and the results that carry
-- them.
pub data Retryability : Type 0 where
  permanent transient : Retryability

pub data DepotError : Type 0 where
  storage : Retryability → DepotError
  bad_request unauthorized forbidden conflict not_found not_allowed : DepotError
  upstream data_integrity internal : DepotError

pub data Result {ℓ} (A : Type ℓ) : Type ℓ where
  ok : A → Result A
  err : DepotError → Result A

infixl 5 ◌>>=◌
abbrev pub ◌>>=◌ {ℓ κ} : {A : Type ℓ} {B : Type κ} → Result A → (A → Result B) → Result B
ok a >>= f = f a
err e >>= f = err e
