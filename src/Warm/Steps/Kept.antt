-- ===== src/Warm/Steps/Kept.antt =====
-- gorp-core/src/warm_session.rs: how long a channel keeps its session, whatever tasks do.
use gorp_rs.Base.{ℕ, ◌<◌, String, ◌≡◌, length, Option, none, some, ◌⊎◌}
use gorp_rs.Warm.{Agents, get_existing_session}
use gorp_rs.Warm.Entries.{IsValid}
use gorp_rs.Warm.Steps.{Manager, Step, Run}
use gorp_rs.Warm.Steps.Frames.{Ended}

module _ (a : Agents) (name : String) where
  abbrev at_name : Manager a → Option ℕ
  at_name w = get_existing_session a name w

  -- The channel has no session, or a later one.
  abbrev Newer : ℕ → Manager a → Type 0
  Newer i w = (at_name w ≡ none) ⊎ ((j : ℕ) × (at_name w ≡ some j) × (i < j))

  -- On the way a step gave the session up.
  abbrev pub GivenUp : ℕ → Manager a → Manager a → Type 0
  GivenUp i w w' =
      (v : Manager a) × (v' : Manager a) × Run a w v
      × (at_name v ≡ some i)
      × Step a v v'
      × Ended a name i v v'
      × Run a v' w'

  abbrev Tracked : ℕ → Manager a → Manager a → Type 0
  Tracked i w w' =
      IsValid a w' × (i < length w'.cells) × ((at_name w' ≡ some i) ⊎ (Newer i w' × GivenUp i w w'))
