-- ===== src/Session/Tasks/Claims.antt =====
-- Claiming tasks, gorp-core/src/session.rs, lines 1089-1110.
use gorp_rs.Base.{
  ℕ, zero, suc, ◌<◌, String, Bool, true, false, ◌≡◌, ◌≢◌, refl, sym, none, ok, arith, List, [], ◌∷◌,
  any, Bool-cases, inl, inr,
}
use gorp_rs.Sql.{update, affected}
use gorp_rs.Database.{Db, TaskRow, Op, ◌>>=◌, return, execute}
use gorp_rs.Session.Tasks.{DispatchTaskStatus, to_string, claimable, claim_dispatch_task}
use gorp_rs.Session.Tasks.Status.{to_string_ne}

-- The outcomes of `n` claims of one task in a row, whoever makes them.
abbrev pub attempts : String → DispatchTaskStatus → DispatchTaskStatus → ℕ → Op (List Bool)
attempts id s t zero = return []
attempts id s t (suc n) =
    claim_dispatch_task id s t >>= λ won. attempts id s t n >>= λ rest. return (won ∷ rest)

abbrev pub repeat : ℕ → Bool → List Bool
repeat zero b = []
repeat (suc n) b = b ∷ repeat n b

module _ (id : String) (s t : DispatchTaskStatus) (ne : s ≢ t) where
  -- After a claim no row of the task is left in the expected status.
  none_claimable :
      (rows : List TaskRow)
      → any (claimable id s) (update (claimable id s) (λ r. record r { status = to_string t }) rows)
        ≡ false
  unfolding update
  none_claimable [] = refl
  none_claimable (r ∷ rows) =
      ground (arith, to_string_ne t s (λ e. ne (sym e)), none_claimable rows)

  affected_none :
      (rows : List TaskRow) → any (claimable id s) rows ≡ false → affected (claimable id s) rows ≡ 0
  affected_none [] h = refl
  affected_none (r ∷ rows) h = ground (arith, affected_none rows)

  affected_some :
      (rows : List TaskRow) → any (claimable id s) rows ≡ true → 0 < affected (claimable id s) rows
  affected_some [] h = cc
  affected_some (r ∷ rows) h = ground (arith, affected_some rows)

  claim_lost :
      (db : Db)
      → db.fault ≡ none
      → any (claimable id s) db.dispatch_tasks ≡ false
      → (claim_dispatch_task id s t db).1 ≡ ok false
  unfolding claim_dispatch_task execute
  claim_lost db sound h = ground (arith, affected_none db.dispatch_tasks h)

  claim_won :
      (db : Db)
      → db.fault ≡ none
      → any (claimable id s) db.dispatch_tasks ≡ true
      → (claim_dispatch_task id s t db).1 ≡ ok true
  unfolding claim_dispatch_task execute
  claim_won db sound h = ground (arith, affected_some db.dispatch_tasks h)

  claim-fault : (db : Db) → db.fault ≡ none → (claim_dispatch_task id s t db).0.fault ≡ none
  unfolding claim_dispatch_task execute
  claim-fault db sound = ground arith

  claim-none-claimable :
      (db : Db)
      → db.fault ≡ none
      → any (claimable id s) (claim_dispatch_task id s t db).0.dispatch_tasks ≡ false
  unfolding claim_dispatch_task execute
  claim-none-claimable db sound = rw sound (none_claimable db.dispatch_tasks)

  attempts_lost :
      (n : ℕ) (db : Db)
      → db.fault ≡ none
      → any (claimable id s) db.dispatch_tasks ≡ false
      → (attempts id s t n db).1 ≡ ok (repeat n false)
  attempts_lost zero db sound h = refl
  attempts_lost (suc n) db sound h = ground (
    arith,
    claim_lost db sound h,
    attempts_lost n (claim_dispatch_task id s t db).0 (claim-fault db sound)
        (claim-none-claimable db sound),
  )

  -- However many workers claim a task one after the other over a sound connection, from one status
  -- to a different one, the first takes it if the row of the task has the expected status, and
  -- nobody else does.
  pub attempts_once :
      (n : ℕ) (db : Db)
      → db.fault ≡ none
      → (attempts id s t (suc n) db).1
        ≡ ok (any (claimable id s) db.dispatch_tasks ∷ repeat n false)
  attempts_once n db sound =
      let later =
        attempts_lost n (claim_dispatch_task id s t db).0 (claim-fault db sound)
          (claim-none-claimable db sound) in
      elim (Bool-cases (any (claimable id s) db.dispatch_tasks)) [
        | inl h ↦ ground (arith, claim_won db sound h, later)
        | inr h ↦ ground (arith, claim_lost db sound h, later)
      ]
