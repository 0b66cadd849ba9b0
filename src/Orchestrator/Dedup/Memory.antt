-- ===== src/Orchestrator/Dedup/Memory.antt =====
-- src/orchestrator.rs: how long a message ID is remembered, and how many are.
use mathlib.Core.List.{append_assoc}
use gorp_rs.Base.{
  ℕ, zero, suc, ◌+◌, ◌/◌, ◌≤◌, String, Bool, true, false, ◌==◌, ◌≡◌, refl, ap, ◌∙◌, List, [], ◌∷◌,
  ◌++◌, length, leb, leb→le, arith, eq_refl, Distinct, if◌then◌else◌, Bool-cases, inl, inr,
  any-append, length-append, not,
}
use gorp_rs.Sql.Laws.{Distinct-insert}
use gorp_rs.Orchestrator.Dedup.{Seen, member, remove, evict, see}

abbrev pub drop : {A : Type 0} → ℕ → List A → List A
drop zero xs = xs
drop (suc n) [] = []
drop (suc n) (x ∷ xs) = drop n xs

abbrev IsDistinct : List String → Type 0
IsDistinct = Distinct (λ (x : String). x)

-- The set and the queue hold the same IDs.
abbrev both : List String → Seen
both xs = record { set = xs; order = xs }

remove_none : (id : String) (xs : List String) → member id xs ≡ false → remove id xs ≡ xs
remove_none id [] h = refl
remove_none id (x ∷ xs) h = ground (arith, remove_none id xs)

remove_head : (id : String) (xs : List String) → member id xs ≡ false → remove id (id ∷ xs) ≡ xs
remove_head id xs h = rw (eq_refl id) (remove_none id xs h)

evict-drop : (n : ℕ) (xs : List String) → IsDistinct xs → evict n (both xs) ≡ both (drop n xs)
unfolding evict
evict-drop zero xs d = refl
evict-drop (suc n) [] d = evict-drop n [] d ∙ ap both (nothing n)
  where
    nothing : (n : ℕ) → drop {A = String} n [] ≡ []
    nothing zero = refl
    nothing (suc n) = refl
evict-drop (suc n) (x ∷ xs) d =
    ap (λ s. evict n (record { set = s; order = xs })) (remove_head x xs d.0) ∙ evict-drop n xs d.1

member-drop :
    (id : String) (n : ℕ) (xs : List String) → member id xs ≡ false → member id (drop n xs) ≡ false
member-drop id zero xs h = h
member-drop id (suc n) [] h = h
member-drop id (suc n) (x ∷ xs) h = member-drop id n xs (ground arith)

Distinct-drop : (n : ℕ) (xs : List String) → IsDistinct xs → IsDistinct (drop n xs)
Distinct-drop zero xs d = d
Distinct-drop (suc n) [] d = d
Distinct-drop (suc n) (x ∷ xs) d = Distinct-drop n xs d.1

length-drop :
    {A : Type 0} (n : ℕ) (xs : List A) → n ≤ length xs → length (drop n xs) + n ≡ length xs
length-drop zero xs h = omega arith
length-drop (suc n) [] h = omega (arith, h)
length-drop (suc n) (x ∷ xs) h = omega (arith, length-drop n xs (omega (arith, h)))

drop-append :
    {A : Type 0} (n : ℕ) (xs ys : List A) → n ≤ length xs → drop n (xs ++ ys) ≡ drop n xs ++ ys
drop-append zero xs ys h = refl
drop-append (suc n) [] ys h = absurd (omega (arith, h))
drop-append (suc n) (x ∷ xs) ys h = drop-append n xs ys (omega (arith, h))

-- The IDs that are kept when a new one comes.
abbrev room : ℕ → List String → List String
room limit xs = if leb limit (length xs) then drop (limit / 2) xs else xs

see_known :
    (limit : ℕ) (id : String) (seen : Seen)
    → member id seen.set ≡ true
    → see limit id seen ≡ (seen, false)
unfolding see
see_known limit id seen h = rw (h, see) refl

see_new :
    (limit : ℕ) (id : String) (xs : List String)
    → IsDistinct xs
    → member id xs ≡ false
    → see limit id (both xs) ≡ (both (room limit xs ++ id ∷ []), true)
unfolding see
see_new limit id xs d h = elim (Bool-cases (leb limit (length xs))) [
  | inl full ↦ rw (h, full, evict-drop (limit / 2) xs d, member-drop id (limit / 2) xs h) refl
  | inr free ↦ rw (h, free) (rw h refl)
]

-- The IDs that are remembered after one more.
abbrev pub next : ℕ → String → List String → List String
next limit id xs = if member id xs then xs else room limit xs ++ id ∷ []

abbrev pub IsMemory : ℕ → List String → Type 0
IsMemory limit xs = IsDistinct xs × (length xs ≤ limit)

see_eq :
    (limit : ℕ) (id : String) (xs : List String)
    → IsDistinct xs
    → see limit id (both xs) ≡ (both (next limit id xs), not (member id xs))
see_eq limit id xs d = elim (Bool-cases (member id xs)) [
  | inl old ↦ rw (see_known limit id (both xs) old) (rw old refl)
  | inr new ↦ rw (see_new limit id xs d new) (rw new refl)
]

length-room :
    (limit : ℕ) (xs : List String)
    → 2 ≤ limit
    → length xs ≤ limit
    → suc (length (room limit xs)) ≤ limit
length-room limit xs h k = elim (Bool-cases (leb limit (length xs))) [
  | inl full ↦ rw full (
      omega (
        arith,
        h,
        k,
        leb→le limit (length xs) full,
        length-drop (limit / 2) xs (omega (arith, h, leb→le limit (length xs) full)),
      ))
  | inr free ↦ rw free (ground (arith, k, free))
]

Distinct-room : (limit : ℕ) (xs : List String) → IsDistinct xs → IsDistinct (room limit xs)
Distinct-room limit xs d = elim (Bool-cases (leb limit (length xs))) [
  | inl full ↦ rw full (Distinct-drop (limit / 2) xs d)
  | inr free ↦ rw free d
]

member-room :
    (limit : ℕ) (id : String) (xs : List String)
    → member id xs ≡ false
    → member id (room limit xs) ≡ false
member-room limit id xs h = elim (Bool-cases (leb limit (length xs))) [
  | inl full ↦ rw full (member-drop id (limit / 2) xs h)
  | inr free ↦ rw free h
]

next-IsMemory :
    (limit : ℕ) (id : String) (xs : List String)
    → 2 ≤ limit
    → IsMemory limit xs
    → IsMemory limit (next limit id xs)
next-IsMemory limit id xs two (d, h) = elim (Bool-cases (member id xs)) [
  | inl old ↦ rw old (d, h)
  | inr new ↦ rw new (
    Distinct-insert (λ x. x) id (room limit xs) (member-room limit id xs new)
        (Distinct-room limit xs d),
    rw (length-append (room limit xs) (id ∷ [])) (omega (arith, length-room limit xs two h)),
  )
]

-- The ID is in the queue, with at most `n` IDs behind it.
abbrev Recent : String → ℕ → List String → Type 0
Recent id n xs =
    (older : List String) × (newer : List String) × (xs ≡ older ++ id ∷ newer) × (length newer ≤ n)

Recent-member : (id : String) (n : ℕ) (xs : List String) → Recent id n xs → member id xs ≡ true
Recent-member id n xs (older, newer, e, h) =
    rw (e, any-append (λ x. x == id) older (id ∷ newer), eq_refl id) (ground arith)

Recent-room :
    (limit n : ℕ) (id : String) (xs : List String)
    → suc n + limit / 2 ≤ limit
    → Recent id n xs
    → Recent id n (room limit xs)
Recent-room limit n id xs k (older, newer, e, h) = elim (Bool-cases (leb limit (length xs))) [
  | inr free ↦ rw free (older, newer, e, h)
  | inl full ↦
      let size : length xs ≡ length older + suc (length newer) =
        ap length e ∙ length-append older (id ∷ newer) in
      rw full (
        drop (limit / 2) older,
        newer,
        ap (drop (limit / 2)) e
            ∙ drop-append (limit / 2) older (id ∷ newer)
                (omega (arith, size, h, k, leb→le limit (length xs) full)),
        h,
      )
]

Recent-next :
    (limit n : ℕ) (id other : String) (xs : List String)
    → suc n + limit / 2 ≤ limit
    → Recent id n xs
    → Recent id (suc n) (next limit other xs)
Recent-next limit n id other xs k r = elim (Bool-cases (member other xs)) [
  | inl old ↦ rw old (r.0, r.1, r.2, omega (arith, r.3))
  | inr new ↦
      let (older, newer, e, h) = Recent-room limit n id xs k r in
      rw new (
        older,
        newer ++ other ∷ [],
        ap (λ ys. ys ++ other ∷ []) e ∙ append_assoc older (id ∷ newer) (other ∷ []),
        rw (length-append newer (other ∷ [])) (omega (arith, h)),
      )
]

-- The memory after a sequence of messages.
abbrev pub see_all : ℕ → List String → Seen → Seen
see_all limit [] seen = seen
see_all limit (id ∷ ids) seen = see_all limit ids (see limit id seen).0

abbrev pub next_all : ℕ → List String → List String → List String
next_all limit [] xs = xs
next_all limit (id ∷ ids) xs = next_all limit ids (next limit id xs)

abbrev pub empty : Seen
empty = both []

module _ (limit : ℕ) (two : 2 ≤ limit) where
  see_all_eq :
      (ids : List String) (xs : List String)
      → IsMemory limit xs
      → (see_all limit ids (both xs) ≡ both (next_all limit ids xs))
        × IsMemory limit (next_all limit ids xs)
  see_all_eq [] xs m = (refl, m)
  see_all_eq (id ∷ ids) xs m =
      let rest = see_all_eq ids (next limit id xs) (next-IsMemory limit id xs two m) in
      (ap (λ r. see_all limit ids r.0) (see_eq limit id xs m.0) ∙ rest.0, rest.1)

  Recent-next_all :
      (ids : List String) (n : ℕ) (id : String) (xs : List String)
      → n + length ids + limit / 2 ≤ limit
      → Recent id n xs
      → Recent id (n + length ids) (next_all limit ids xs)
  Recent-next_all [] n id xs k r = (r.0, r.1, r.2, omega (arith, r.3))
  Recent-next_all (other ∷ ids) n id xs k r =
      let (older, newer, e, h) =
        Recent-next_all ids (suc n) id (next limit other xs) (omega (arith, k))
          (Recent-next limit n id other xs (omega (arith, k)) r) in
      (older, newer, e, omega (arith, h))

  see_new-Recent :
      (id : String) (xs : List String) → member id xs ≡ false → Recent id 0 (next limit id xs)
  see_new-Recent id xs new = rw new (room limit xs, [], refl, omega arith)

  told :
      (id : String) (seen : Seen) (xs : List String)
      → seen ≡ both xs
      → IsMemory limit xs
      → (see limit id seen).1 ≡ not (member id xs)
  told id seen xs e m =
      ap (λ s. (see limit id s).1) e ∙ ap (λ (r : Seen × Bool). r.1) (see_eq limit id xs m.0)

  remembered :
      (id : String) (seen : Seen) (xs : List String)
      → seen ≡ both xs
      → IsMemory limit xs
      → (see limit id seen).0 ≡ both (next limit id xs)
  remembered id seen xs e m =
      ap (λ s. (see limit id s).0) e ∙ ap (λ (r : Seen × Bool). r.0) (see_eq limit id xs m.0)

  -- With a limit of at least 2, the memory never holds more IDs than the limit, and a message that was
  -- taken as new is not taken as new again when its ID comes back after at most as many messages as the
  -- limit exceeds its half.
  pub see-again :
      (before between : List String) (id : String)
      → length between + limit / 2 ≤ limit
      → let earlier = see_all limit before empty in
        (see limit id earlier).1 ≡ true
        → (length earlier.set ≤ limit)
          × ((see limit id (see_all limit between (see limit id earlier).0)).1 ≡ false)
  see-again before between id k new =
      let xs = next_all limit before [] in
      let (start, m) = see_all_eq before [] (tt, omega arith) in
      let absent : member id xs ≡ false =
        ground (arith, told id (see_all limit before empty) xs start m, new) in
      let m' = next-IsMemory limit id xs two m in
      let (end, m'') = see_all_eq between (next limit id xs) m' in
      let (older, newer, e, h) =
        Recent-next_all between 0 id (next limit id xs) (omega (arith, k))
          (see_new-Recent id xs absent) in
      let there =
        Recent-member id (0 + length between) (next_all limit between (next limit id xs))
          (older, newer, e, h) in
      (
        rw start m.1,
        told id (see_all limit between (see limit id (see_all limit before empty)).0)
              (next_all limit between (next limit id xs))
              (ap (see_all limit between) (remembered id (see_all limit before empty) xs start m)
                ∙ end)
              m''
            ∙ ap not there,
      )
