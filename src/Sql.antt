-- ===== src/Sql.antt =====
-- The SQL statements of gorp-core/src/session.rs and gorp-core/src/scheduler.rs, as operations on a
-- table: the list of its rows in the order of their insertion. A WHERE clause is a Boolean test.
pub mod Order
pub mod Laws
use gorp_rs.Base.{
  ℕ, List, [], ◌∷◌, ◌++◌, Bool, not, Option, Result, ok, err, Error, keep, first, length,
  if◌then◌else◌,
}

module _ {A : Type 0} where
  -- UPDATE … SET … WHERE …
  unfoldable pub update : (A → Bool) → (A → A) → List A → List A
  update p f [] = []
  update p f (x ∷ xs) = (if p x then f x else x) ∷ update p f xs

  -- The number of rows that an UPDATE or DELETE reports.
  abbrev pub affected : (A → Bool) → List A → ℕ
  affected p xs = length (keep p xs)

  -- DELETE … WHERE …
  abbrev pub delete : (A → Bool) → List A → List A
  delete p = keep (λ x. not (p x))

  -- INSERT: `taken` tells that a row breaks a PRIMARY KEY or UNIQUE constraint.
  abbrev pub insert : Bool → A → List A → Result (List A)
  insert taken x xs = if taken then err Error.unique_violation else ok (xs ++ x ∷ [])

  -- INSERT … ON CONFLICT DO UPDATE, where `p` finds the row with the key.
  unfoldable pub upsert : (A → Bool) → (A → A) → A → List A → List A
  upsert p f x [] = x ∷ []
  upsert p f x (y ∷ ys) = let rest = upsert p f x ys in if p y then f y ∷ ys else y ∷ rest

  -- INSERT OR REPLACE: the row with the key is deleted, and the new row comes last.
  abbrev pub insert_or_replace : (A → Bool) → A → List A → List A
  insert_or_replace p x xs = delete p xs ++ x ∷ []

  -- SELECT … WHERE …, and the row that `query_row` reads.
  abbrev pub select : (A → Bool) → List A → List A
  select p xs = keep p xs

  abbrev pub query_row : (A → Bool) → List A → Option A
  query_row p xs = first p xs
