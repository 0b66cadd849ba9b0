-- ===== src/Base/Maps.antt =====
-- A HashMap whose keys are texts: an association list with one entry for each key.
use Prim.Native.String.{String}
use mathlib.Core.Path.{◌≡◌, refl}
use mathlib.Core.Bool.{Bool, false, not}
use mathlib.Core.List.{List, [], ◌∷◌}
use mathlib.Core.Option.{Option, none, some}
use native.Mathlib.Omega.{arith}
use text.Mathlib.Text.{◌==◌}
use text.Mathlib.TextEquality.{eq_iff}
use gorp_rs.Base.Tests.{if◌then◌else◌}
use gorp_rs.Base.Lists.{keep, Distinct, has_key}

module _ {ℓ} {A : Type ℓ} where
  abbrev pub find_key : String → List (String × A) → Option A
  find_key k [] = none
  find_key k (e ∷ m) = let rest = find_key k m in if e.0 == k then some e.1 else rest

  abbrev pub put : String → A → List (String × A) → List (String × A)
  put k v [] = (k, v) ∷ []
  put k v (e ∷ m) = let rest = put k v m in if e.0 == k then (k, v) ∷ m else e ∷ rest

  abbrev pub without : String → List (String × A) → List (String × A)
  without k m = keep (λ e. not (e.0 == k)) m

  abbrev pub DistinctKeys : List (String × A) → Type 0
  DistinctKeys = Distinct (λ (e : String × A). e.0)

  pub find_key-put :
      (k q : String) (v : A) (m : List (String × A))
      → find_key q (put k v m) ≡ (if k == q then some v else find_key q m)
  find_key-put k q v [] = ground (arith, eq_iff k q)
  find_key-put k q v (e ∷ m) =
      ground (arith, eq_iff e.0 k, eq_iff k q, eq_iff e.0 q, find_key-put k q v m)

  pub find_key-without :
      (k q : String) (m : List (String × A))
      → find_key q (without k m) ≡ (if k == q then none else find_key q m)
  find_key-without k q [] = ground (arith, eq_iff k q)
  find_key-without k q (e ∷ m) =
      ground (arith, eq_iff e.0 k, eq_iff k q, eq_iff e.0 q, find_key-without k q m)

  pub find_key-none :
      (k : String) (m : List (String × A))
      → has_key (λ (e : String × A). e.0) k m ≡ false
      → find_key k m ≡ none
  find_key-none k [] h = refl
  find_key-none k (e ∷ m) h = ground (arith, find_key-none k m)

  pub has_key-put :
      (k q : String) (v : A) (m : List (String × A))
      → has_key (λ (e : String × A). e.0) q m ≡ false
      → (k == q) ≡ false
      → has_key (λ (e : String × A). e.0) q (put k v m) ≡ false
  has_key-put k q v [] h d = ground arith
  has_key-put k q v (e ∷ m) h d = ground (arith, eq_iff e.0 k, has_key-put k q v m)

  pub has_key-keep :
      (p : String × A → Bool) (q : String) (m : List (String × A))
      → has_key (λ (e : String × A). e.0) q m ≡ false
      → has_key (λ (e : String × A). e.0) q (keep p m) ≡ false
  has_key-keep p q [] h = refl
  has_key-keep p q (e ∷ m) h = ground (arith, has_key-keep p q m)

  pub DistinctKeys-keep :
      (p : String × A → Bool) (m : List (String × A)) → DistinctKeys m → DistinctKeys (keep p m)
  DistinctKeys-keep p [] d = tt
  DistinctKeys-keep p (e ∷ m) (h, d) =
      ground (arith, has_key-keep p e.0 m h, DistinctKeys-keep p m d)

  pub DistinctKeys-put :
      (k : String) (v : A) (m : List (String × A)) → DistinctKeys m → DistinctKeys (put k v m)
  DistinctKeys-put k v [] d = (refl, tt)
  DistinctKeys-put k v (e ∷ m) (h, d) =
      ground (arith, eq_iff e.0 k, eq_iff k e.0, has_key-put k e.0 v m h, DistinctKeys-put k v m d)

  -- Filtering a map with one entry for each key.
  pub find_key-keep :
      (p : String × A → Bool) (k : String) (m : List (String × A))
      → DistinctKeys m
      → find_key k (keep p m)
        ≡ (elim (find_key k m) [ none ↦ none | some v ↦ if p (k, v) then some v else none ])
  find_key-keep p k [] d = refl
  find_key-keep p k (e ∷ m) (h, d) =
      ground (arith, eq_iff e.0 k, find_key-keep p k m d, find_key-none e.0 m h)
