-- ===== src/Outcome.antt =====
-- What a Python call leaves behind: a value or an exception, by the classes that the program's
-- handlers tell apart. Messages are not modelled.
use agent_relay_auto.Prelude.{◌≡◌, refl, ◌⊎◌, inl, inr, Bool, true, false, Option, none, some}

-- `lock_error`, `revision_conflict` and `illegal_transition` are the subclasses of StateStoreError;
-- `format_error` (StateFormatError), `schema_error` and `value_error` are ValueErrors.
pub data Error : Type 0 where
  revision_conflict illegal_transition store_error lock_error : Error
  format_error schema_error value_error key_error type_error attribute_error os_error
        runtime_error :
      Error

-- A call returns, or it raises an exception.
pub data Result {ℓ} (R : Type ℓ) : Type ℓ where
  ok : R → Result R
  err : Error → Result R

-- A statement that raises ends the block that it stands in.
infixl 6 ◌>>=◌
abbrev pub ◌>>=◌ {ℓ κ} : {R : Type ℓ} {S : Type κ} → Result R → (R → Result S) → Result S
ok returned >>= rest = rest returned
err raised >>= rest = err raised

infixl 6 ◌>>◌
abbrev pub ◌>>◌ {ℓ} : {S : Type ℓ} → Result (Unit {0}) → Result S → Result S
check >> rest = check >>= λ _. rest

-- `if b: raise e`
abbrev pub raise_if : Bool → Error → Result (Unit {0})
raise_if true e = err e
raise_if false e = ok tt

abbrev pub or_raise {ℓ} : {A : Type ℓ} → Option A → Error → Result A
or_raise none e = err e
or_raise (some a) e = ok a

abbrev pub is_ok {ℓ} : {A : Type ℓ} → Result A → Bool
is_ok (ok _) = true
is_ok (err _) = false

pub Result-cases {ℓ} :
    {A : Type ℓ} (r : Result A) → ((e : Error) × (r ≡ err e)) ⊎ ((a : A) × (r ≡ ok a))
Result-cases (ok a) = inr (a, refl)
Result-cases (err e) = inl (e, refl)
