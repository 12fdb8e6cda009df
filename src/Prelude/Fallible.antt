-- ===== src/Prelude/Fallible.antt =====
-- `Result<T, UcError>` of crates/uc-errors/src/lib.rs. An error carries its code; the text of its
-- message, which no operation of the program reads back, is not modelled.
use mathlib.Core.Path.{◌≡◌, refl}
use mathlib.Core.Option.{Option, none, some}
use mathlib.Core.List.{List, [], ◌∷◌}
use native.Mathlib.Omega.{arith}

pub data ErrorCode : Type 0 where
  invalid_argument unsupported_table_format not_found catalog_not_found : ErrorCode
  schema_not_found table_not_found already_exists permission_denied : ErrorCode
  unauthenticated resource_exhausted failed_precondition aborted : ErrorCode
  commit_version_conflict update_requirement_conflict out_of_range unimplemented : ErrorCode
  internal data_loss resource_already_exists catalog_already_exists : ErrorCode
  schema_already_exists table_already_exists storage_credential_already_exists : ErrorCode
  external_location_already_exists : ErrorCode

pub data Result {ℓ} (A : Type ℓ) : Type ℓ where
  ok : A → Result A
  err : ErrorCode → Result A

abbrev pub map_ok {ℓ κ} : {A : Type ℓ} {B : Type κ} → (A → B) → Result A → Result B
map_ok f (ok a) = ok (f a)
map_ok f (err e) = err e

-- `Option::ok_or`
abbrev pub ok_or {ℓ} : {A : Type ℓ} → ErrorCode → Option A → Result A
ok_or e none = err e
ok_or e (some a) = ok a

-- the `?` operator
infixl 5 ◌>>=◌
abbrev pub ◌>>=◌ {ℓ κ} : {A : Type ℓ} {C : Type κ} → Result A → (A → Result C) → Result C
err code >>= next = err code
ok value >>= next = next value

-- `collect::<Result<Vec<_>, _>>()` after a `map`
abbrev pub traverse {ℓ κ} : {A : Type ℓ} {B : Type κ} → (A → Result B) → List A → Result (List B)
traverse f [] = ok []
traverse f (x ∷ xs) = f x >>= λ y. traverse f xs >>= λ ys. ok (y ∷ ys)

-- What a successful bind went through.
pub >>=-eq-ok {ℓ κ} :
    {A : Type ℓ} {C : Type κ} (first : Result A) (next : A → Result C) {c : C}
    → (first >>= next) ≡ ok c
    → (value : A) × (first ≡ ok value) × (next value ≡ ok c)
>>=-eq-ok (err code) next h = cc
>>=-eq-ok (ok value) next h = (value, refl, h)

pub eq_of_ok_or {ℓ} :
    {A : Type ℓ} (e : ErrorCode) (o : Option A) (a : A) → ok_or e o ≡ ok a → o ≡ some a
eq_of_ok_or e none a h = cc
eq_of_ok_or e (some b) a h = ground arith
