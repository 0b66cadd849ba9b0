-- ===== src/Orchestrator/Dedup.antt =====
-- src/orchestrator.rs, lines 143-215: the memory of the message IDs that were seen. A HashSet is the list
-- of its elements in the order of their insertion.
pub mod Memory
use gorp_rs.Base.{
  ℕ, ◌/◌, zero, suc, String, Bool, true, false, ◌==◌, ltb, leb, List, [], ◌∷◌, ◌++◌, any, keep, not,
  length, if◌then◌else◌,
}

-- DEDUP_CAP
abbrev pub dedup_cap : ℕ
dedup_cap = 10000

abbrev pub Set : Type 0
Set = List String

abbrev pub member : String → Set → Bool
member id = any (λ x. x == id)

abbrev pub remove : String → Set → Set
remove id = keep (λ x. not (x == id))

abbrev pub add : String → Set → Set
add id set = if member id set then set else set ++ id ∷ []

pub record Seen : Type 0 where
  pub set : Set
  pub order : List String

-- `for _ in 0..n`: the oldest ID goes, if there is one.
unfoldable pub evict : ℕ → Seen → Seen
evict zero seen = seen
evict (suc n) seen = evict n (elim seen.order [
  | [] ↦ seen
  | old ∷ order ↦ record { set = remove old seen.set; order = order }
])

-- Whether a message is new; a new ID is remembered, after the oldest half is evicted at the limit.
unfoldable pub see : ℕ → String → Seen → Seen × Bool
unfolding evict
see limit id seen =
    let room = evict (limit / 2) seen in
    let kept = if leb limit (length seen.set) then room else seen in
    if member id seen.set
    then (seen, false)
    else (record { set = add id kept.set; order = kept.order ++ id ∷ [] }, true)
