-- ===== src/Sql/Laws.antt =====
-- Laws of the table operations: what a query reads after a statement, and which statements keep
-- the keys of a table distinct.
use mathlib.Core.Option
use gorp_rs.Base.{
  List, [], ◌∷◌, ◌++◌, String, Bool, true, false, ◌≡◌, refl, arith, none, some, if◌then◌else◌, ◌==◌,
  eq_iff, first, any, All, has_key, Distinct, ap,
}
use gorp_rs.Sql.{update, delete, upsert}

module _ {A : Type 0} (p : A → Bool) (f : A → A) where
  abbrev pub updated : A → A
  updated x = if p x then f x else x

  pub first-update :
      (q : A → Bool)
      → ((x : A) → q (f x) ≡ q x)
      → (xs : List A) → first q (update p f xs) ≡ Option.map updated (first q xs)
  unfolding update
  first-update q h [] = refl
  first-update q h (x ∷ xs) = ground (arith, h x, first-update q h xs)

  pub any-update :
      (q : A → Bool) → ((x : A) → q (f x) ≡ q x) → (xs : List A) → any q (update p f xs) ≡ any q xs
  unfolding update
  any-update q h [] = refl
  any-update q h (x ∷ xs) = ground (arith, h x, any-update q h xs)

  pub All-update :
      (P : A → Type 0)
      → ((x : A) → P x → P (f x))
      → (xs : List A) → All P xs
      → All P (update p f xs)
  unfolding update
  All-update P h [] a = tt
  All-update P h (x ∷ xs) a = ground (arith, h x, All-update P h xs a.1)

  pub update_none : (xs : List A) → any p xs ≡ false → update p f xs ≡ xs
  unfolding update
  update_none [] h = refl
  update_none (x ∷ xs) h = ground (arith, update_none xs)

module _ {A : Type 0} (q p : A → Bool) where
  -- A query that selects none of the deleted rows reads the same row.
  pub first-delete :
      ((x : A) → q x ≡ true → p x ≡ false) → (xs : List A) → first q (delete p xs) ≡ first q xs
  first-delete h [] = refl
  first-delete h (x ∷ xs) = ground (arith, h x, first-delete h xs)

  pub any-delete_le : (xs : List A) → any q xs ≡ false → any q (delete p xs) ≡ false
  any-delete_le [] h = refl
  any-delete_le (x ∷ xs) h = ground (arith, any-delete_le xs)

module _ {A : Type 0} (p : A → Bool) where
  pub any-delete_self : (xs : List A) → any p (delete p xs) ≡ false
  any-delete_self [] = refl
  any-delete_self (x ∷ xs) = ground (arith, any-delete_self xs)

  pub first-true : (xs : List A) {x : A} → first p xs ≡ some x → p x ≡ true
  first-true [] e = ground arith
  first-true (y ∷ xs) {x} e = ground (arith, first-true xs {x = x})

  pub All-first : (P : A → Type 0) (xs : List A) {x : A} → All P xs → first p xs ≡ some x → P x
  All-first P [] a e = ground arith
  All-first P (y ∷ xs) {x} a e = ground (arith, All-first P xs {x = x} a.1)

  pub first-eq-none_iff : (xs : List A) → first p xs ≡ none → any p xs ≡ false
  first-eq-none_iff [] e = refl
  first-eq-none_iff (x ∷ xs) e = ground (arith, first-eq-none_iff xs)

module _ {A : Type 0} (key : A → String) where
  pub has_key-update :
      (p : A → Bool) (f : A → A)
      → ((x : A) → key (f x) ≡ key x)
      → (k : String) (xs : List A) → has_key key k (update p f xs) ≡ has_key key k xs
  has_key-update p f h k xs = any-update p f (λ x. key x == k) (λ x. ap (λ t. t == k) (h x)) xs

  pub Distinct-update :
      (p : A → Bool) (f : A → A)
      → ((x : A) → key (f x) ≡ key x)
      → (xs : List A) → Distinct key xs
      → Distinct key (update p f xs)
  unfolding update
  Distinct-update p f h [] d = tt
  Distinct-update p f h (x ∷ xs) d =
      ground (arith, h x, has_key-update p f h (key x) xs, Distinct-update p f h xs d.1)

  pub Distinct-delete : (p : A → Bool) (xs : List A) → Distinct key xs → Distinct key (delete p xs)
  Distinct-delete p [] d = tt
  Distinct-delete p (x ∷ xs) d =
      ground (arith, any-delete_le (λ y. key y == key x) p xs d.0, Distinct-delete p xs d.1)

  Distinct_snoc_key :
      (y x : A) (xs : List A)
      → has_key key (key y) xs ≡ false
      → (key y == key x) ≡ false
      → has_key key (key y) (xs ++ x ∷ []) ≡ false
  Distinct_snoc_key y x [] h k = ground (arith, eq_iff (key x) (key y), eq_iff (key y) (key x))
  Distinct_snoc_key y x (z ∷ xs) h k = ground (arith, Distinct_snoc_key y x xs)

  pub Distinct-insert :
      (x : A) (xs : List A)
      → has_key key (key x) xs ≡ false
      → Distinct key xs
      → Distinct key (xs ++ x ∷ [])
  Distinct-insert x [] h d = (refl, tt)
  Distinct-insert x (y ∷ xs) h d =
      ground (arith, Distinct_snoc_key y x xs, Distinct-insert x xs, d.0)

  pub has_key_of_first :
      (k : String) (xs : List A) {x : A} → first (λ y. key y == k) xs ≡ some x → key x ≡ k
  has_key_of_first k xs {x} e = (eq_iff (key x) k).0 (first-true (λ y. key y == k) xs e)

  -- Reading by key after an upsert of a row with key `k` by a change that keeps the key.
  pub first-upsert :
      (k j : String) (f : A → A) (x : A)
      → key x ≡ k
      → ((y : A) → key (f y) ≡ key y)
      → (xs : List A)
      → first (λ y. key y == j) (upsert (λ y. key y == k) f x xs) ≡ (
          if k == j
          then some (elim (first (λ y. key y == k) xs) [ none ↦ x | some y ↦ f y ])
          else first (λ y. key y == j) xs)
  unfolding upsert
  first-upsert k j f x new keeps [] = ground (arith, eq_iff k j, eq_iff (key x) j)
  first-upsert k j f x new keeps (y ∷ ys) = ground (
    arith,
    keeps y,
    eq_iff k j,
    eq_iff (key y) k,
    eq_iff (key y) j,
    first-upsert k j f x new keeps ys,
  )

  -- Reading by key after a DELETE by key.
  pub first-delete_key :
      (k j : String) (xs : List A)
      → first (λ y. key y == j) (delete (λ y. key y == k) xs)
        ≡ (if k == j then none else first (λ y. key y == j) xs)
  first-delete_key k j [] = ground arith
  first-delete_key k j (y ∷ ys) =
      ground (arith, eq_iff k j, eq_iff (key y) k, eq_iff (key y) j, first-delete_key k j ys)
