-- ===== src/Sql/Order.antt =====
-- ORDER BY a TEXT column: SQLite's BINARY collation compares the bytes of the texts, which is the
-- order of their code points. Rows with equal keys keep their order.
use Prim.Native.String.{[], ◌∷◌}
use mathlib.Core.List.{Perm}
use mathlib.Core.List
use mathlib.Core.List.Perm
use gorp_rs.Base.{
  String, Bool, true, false, ◌≡◌, refl, arith, code, ltb, if◌then◌else◌, ◌⊎◌, inl, inr, All,
  Bool-cases, keep, All-keep,
}

unfoldable pub text_le : String → String → Bool
text_le [] t = true
text_le (c ∷ s) [] = false
text_le (c ∷ s) (d ∷ t) =
    let rest = text_le s t in
    if ltb (code c) (code d) then true else if ltb (code d) (code c) then false else rest

pub text_le_total : (s t : String) → (text_le s t ≡ true) ⊎ (text_le t s ≡ true)
unfolding text_le
text_le_total [] t = inl refl
text_le_total (c ∷ s) [] = inr refl
text_le_total (c ∷ s) (d ∷ t) = ground (arith, text_le_total s t)

pub text_le_trans : (s t u : String) → text_le s t ≡ true → text_le t u ≡ true → text_le s u ≡ true
unfolding text_le
text_le_trans [] t u h k = refl
text_le_trans (c ∷ s) [] u h k = ground arith
text_le_trans (c ∷ s) (d ∷ t) [] h k = ground arith
text_le_trans (c ∷ s) (d ∷ t) (e ∷ u) h k = ground (arith, text_le_trans s t u)

module _ {A : Type 0} (key : A → String) where
  unfoldable pub insert_by : A → List.List A → List.List A
  insert_by x List.[] = List.◌∷◌ x List.[]
  insert_by x (List.◌∷◌ y ys) =
      let rest = insert_by x ys in
      if text_le (key x) (key y) then List.◌∷◌ x (List.◌∷◌ y ys) else List.◌∷◌ y rest

  -- ORDER BY key ASC.
  unfoldable pub order_by : List.List A → List.List A
  unfolding insert_by
  order_by List.[] = List.[]
  order_by (List.◌∷◌ x xs) = insert_by x (order_by xs)

  abbrev pub Sorted : List.List A → Type 0
  Sorted List.[] = Unit
  Sorted (List.◌∷◌ x xs) = All (λ y. text_le (key x) (key y) ≡ true) xs × Sorted xs

  All-insert_by :
      (P : A → Type 0) (x : A) (ys : List.List A) → P x → All P ys → All P (insert_by x ys)
  unfolding insert_by
  All-insert_by P x List.[] p h = (p, tt)
  All-insert_by P x (List.◌∷◌ y ys) p h = ground (arith, All-insert_by P x ys p h.1)

  All-le_trans :
      (x y : A) (ys : List.List A)
      → text_le (key x) (key y) ≡ true
      → All (λ z. text_le (key y) (key z) ≡ true) ys
      → All (λ z. text_le (key x) (key z) ≡ true) ys
  All-le_trans x y List.[] h k = tt
  All-le_trans x y (List.◌∷◌ z zs) h k =
      (text_le_trans (key x) (key y) (key z) h k.0, All-le_trans x y zs h k.1)

  insert_by-Sorted : (x : A) (ys : List.List A) → Sorted ys → Sorted (insert_by x ys)
  unfolding insert_by
  insert_by-Sorted x List.[] h = (tt, tt)
  insert_by-Sorted x (List.◌∷◌ y ys) h = ground (
    arith,
    text_le_total (key x) (key y),
    All-le_trans x y ys,
    insert_by-Sorted x ys h.1,
    All-insert_by (λ z. text_le (key y) (key z) ≡ true) x ys,
  )

  pub order_by-Sorted : (xs : List.List A) → Sorted (order_by xs)
  unfolding order_by
  order_by-Sorted List.[] = tt
  order_by-Sorted (List.◌∷◌ x xs) = insert_by-Sorted x (order_by xs) (order_by-Sorted xs)

  insert_by-perm : (x : A) (ys : List.List A) → Perm (insert_by x ys) (List.◌∷◌ x ys)
  unfolding insert_by
  insert_by-perm x List.[] = Perm.refl _
  insert_by-perm x (List.◌∷◌ y ys) = elim (Bool-cases (text_le (key x) (key y))) [
    | inl e ↦ rw e (Perm.refl _)
    | inr e ↦ rw e (Perm.trans (Perm.cons y (insert_by-perm x ys)) (Perm.swap x y ys))
  ]

  pub order_by-perm : (xs : List.List A) → Perm (order_by xs) xs
  unfolding order_by
  order_by-perm List.[] = Perm.refl _
  order_by-perm (List.◌∷◌ x xs) =
      Perm.trans (insert_by-perm x (order_by xs)) (Perm.cons x (order_by-perm xs))

  insert_by_low :
      (x : A) (ys : List.List A)
      → All (λ y. text_le (key x) (key y) ≡ true) ys
      → insert_by x ys ≡ List.◌∷◌ x ys
  unfolding insert_by
  insert_by_low x List.[] h = refl
  insert_by_low x (List.◌∷◌ y ys) h = rw h.0 refl

  keep-insert_by :
      (p : A → Bool) (x : A) (ys : List.List A)
      → Sorted ys
      → keep p (insert_by x ys) ≡ (if p x then insert_by x (keep p ys) else keep p ys)
  unfolding insert_by
  keep-insert_by p x List.[] h = refl
  keep-insert_by p x (List.◌∷◌ y ys) h = elim (Bool-cases (text_le (key x) (key y))) [
    | inl e ↦
        let low =
          insert_by_low x (keep p ys)
            (All-keep (λ z. text_le (key x) (key z) ≡ true) p ys (All-le_trans x y ys e h.0)) in
        rw e (ground (arith, low, e))
    | inr e ↦ rw e (ground (arith, e, keep-insert_by p x ys h.1))
  ]

  -- A WHERE clause before the sorting is one after it.
  pub order_by-keep :
      (p : A → Bool) (xs : List.List A) → order_by (keep p xs) ≡ keep p (order_by xs)
  unfolding order_by
  order_by-keep p List.[] = refl
  order_by-keep p (List.◌∷◌ x xs) =
      ground (arith, order_by-keep p xs, keep-insert_by p x (order_by xs) (order_by-Sorted xs))
