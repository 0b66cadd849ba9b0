-- ===== src/Base/Results.antt =====
-- `anyhow::Result`: an outcome or an error. An error is the message class that the code raises.
use Prim.Native.String.{String}
use mathlib.Core.Path.{◌≡◌, refl}
use mathlib.Core.Logic.{◌⊎◌, inl, inr}
use mathlib.Core.Option.{Option, none, some}
use mathlib.Core.List.{List, [], ◌∷◌}

pub data Error : Type 0 where
  -- the mutex is poisoned, or SQLite reports something else than a broken constraint
  storage : String → Error
  -- a broken PRIMARY KEY, UNIQUE or FOREIGN KEY constraint
  unique_violation : Error
  foreign_key_violation : Error
  -- `anyhow::bail!` with the text of the source
  message : String → Error

pub data Result {ℓ} (A : Type ℓ) : Type ℓ where
  ok : A → Result A
  err : Error → Result A

pub Result-cases {ℓ} :
    {A : Type ℓ} (r : Result A) → ((a : A) × (r ≡ ok a)) ⊎ ((e : Error) × (r ≡ err e))
Result-cases (ok a) = inl (a, refl)
Result-cases (err e) = inr (e, refl)

-- `?` on a result.
infixl 5 ◌>>=◌
abbrev pub ◌>>=◌ {ℓ κ} : {A : Type ℓ} {B : Type κ} → Result A → (A → Result B) → Result B
r >>= next = elim r [ err e ↦ err e | ok a ↦ next a ]

abbrev pub or_err {ℓ} : {A : Type ℓ} → Option A → Error → Result A
or_err none e = err e
or_err (some a) e = ok a

-- `collect::<Result<Vec<_>, _>>()` over the rows that `f` reads.
abbrev pub collect {ℓ κ} : {A : Type ℓ} {B : Type κ} → (A → Result B) → List A → Result (List B)
collect f [] = ok []
collect f (x ∷ xs) = do ok ((← f x) ∷ (← collect f xs))

-- `to_string()` of an error.
abbrev pub error_text : Error → String
error_text (storage s) = s
error_text unique_violation = "UNIQUE constraint failed"
error_text foreign_key_violation = "FOREIGN KEY constraint failed"
error_text (message s) = s
