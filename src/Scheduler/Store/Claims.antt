-- ===== src/Scheduler/Store/Claims.antt =====
-- gorp-core/src/scheduler.rs, claim_due_schedules: which schedules a claim hands out, and that no two
-- claims hand out the same one.
use gorp_rs.Base.{
  ◌<◌, String, Bool, false, ◌==◌, ◌≡◌, ◌≢◌, refl, ap, ◌∙◌, List, [], ◌∷◌, none, Result, ok, arith,
  eq_iff, eq_refl, any, map, All, Distinct, has_key, collect, Bool-cases, inl, inr,
}
use gorp_rs.Sql.{update, select}
use gorp_rs.Sql.Laws.{has_key-update, All-update}
use gorp_rs.Database.{Db, ScheduleRow, execute, query}
use gorp_rs.Scheduler.Status.{executing}
use gorp_rs.Scheduler.Store.{
  ScheduledPrompt, claim_due_schedules, is_due, mark_claimed, is_claimed, read_claimed, schedule_of,
  i32_limit,
}

-- The rows after the UPDATE of a claim.
abbrev pub claimed_rows : String → List ScheduleRow → List ScheduleRow
claimed_rows now rows = update (is_due now) (mark_claimed now) rows

abbrev pub InRange : ScheduleRow → Type 0
InRange r = r.execution_count < i32_limit

claim_eq :
    (now : String) (db : Db)
    → db.fault ≡ none
    → claim_due_schedules now db ≡ (
      record db { scheduled_prompts = claimed_rows now db.scheduled_prompts },
      collect read_claimed (select (is_claimed now) (claimed_rows now db.scheduled_prompts)),
    )
unfolding claim_due_schedules execute query
claim_eq now db sound = ground arith

-- Under a fresh token the SELECT finds the rows that the UPDATE marked.
select-claimed :
    (now : String) (rows : List ScheduleRow)
    → any (is_claimed now) rows ≡ false
    → select (is_claimed now) (claimed_rows now rows)
      ≡ map (mark_claimed now) (select (is_due now) rows)
unfolding update
select-claimed now [] fresh = refl
select-claimed now (r ∷ rows) fresh = elim (Bool-cases (is_due now r)) [
  | inl due ↦ rw (due, eq_refl now) (ground (arith, select-claimed now rows))
  | inr idle ↦ rw idle (ground (arith, select-claimed now rows))
]

collect-claimed :
    (now : String) (rows : List ScheduleRow)
    → All InRange rows
    → collect read_claimed (map (mark_claimed now) rows)
      ≡ ok (map (schedule_of executing none) rows)
unfolding read_claimed
collect-claimed now [] h = refl
collect-claimed now (r ∷ rows) h = ground (arith, collect-claimed now rows h.1)

All-select :
    (now : String) (rows : List ScheduleRow)
    → All InRange rows
    → All InRange (select (is_due now) rows)
All-select now [] h = tt
All-select now (r ∷ rows) h = ground (arith, All-select now rows h.1)

-- A claim whose token no row bears hands out exactly the active schedules that are due, in the order of
-- the table, and marks those rows and no others. (The connection is sound and each counter is an i32.)
pub claim_due-exact :
    (now : String) (db : Db)
    → db.fault ≡ none
    → any (is_claimed now) db.scheduled_prompts ≡ false
    → All InRange db.scheduled_prompts
    → claim_due_schedules now db ≡ (
      record db { scheduled_prompts = claimed_rows now db.scheduled_prompts },
      ok (map (schedule_of executing none) (select (is_due now) db.scheduled_prompts)),
    )
claim_due-exact now db sound fresh range = rw (
  claim_eq now db sound,
  select-claimed now db.scheduled_prompts fresh,
  collect-claimed now (select (is_due now) db.scheduled_prompts)
      (All-select now db.scheduled_prompts range),
)

module _ (now later : String) where
  -- A row that a claim has marked is due no more.
  marked_not_due : (r : ScheduleRow) → is_due later (mark_claimed now r) ≡ false
  unfolding is_due
  marked_not_due r = refl

  has_key-select :
      (k : String) (p : ScheduleRow → Bool) (rows : List ScheduleRow)
      → has_key (λ r. r.id) k rows ≡ false
      → has_key (λ r. r.id) k (select p rows) ≡ false
  has_key-select k p [] h = refl
  has_key-select k p (r ∷ rows) h = ground (arith, has_key-select k p rows)

  not_in :
      (k : String) (rows : List ScheduleRow)
      → has_key (λ r. r.id) k rows ≡ false
      → All (λ s. (k == s.id) ≡ false) rows
  not_in k [] h = tt
  not_in k (r ∷ rows) h = ground (arith, eq_iff k r.id, eq_iff r.id k, not_in k rows)

  All-and :
      (P Q R : ScheduleRow → Type 0)
      → ((s : ScheduleRow) → P s → Q s → R s)
      → (rows : List ScheduleRow) → All P rows
      → All Q rows
      → All R rows
  All-and P Q R f [] h k = tt
  All-and P Q R f (r ∷ rows) h k = (f r h.0 k.0, All-and P Q R f rows h.1 k.1)

  -- No row that is due after the first claim has the ID of a row that the first claim took.
  abbrev Apart : List ScheduleRow → ScheduleRow → Type 0
  Apart taken s = has_key (λ r. r.id) s.id taken ≡ false

  due_later :
      (rows : List ScheduleRow)
      → Distinct (λ r. r.id) rows
      → All (Apart (select (is_due now) rows)) (select (is_due later) (claimed_rows now rows))
  unfolding update
  due_later [] u = tt
  due_later (r ∷ rows) u = elim (Bool-cases (is_due now r)) [
    | inl due ↦
        rw (due, marked_not_due r)
          (All-and (λ s. (r.id == s.id) ≡ false) (Apart (select (is_due now) rows))
            (Apart (r ∷ select (is_due now) rows)) (λ s e f. rw (e, f))
            (select (is_due later) (claimed_rows now rows))
            (not_in r.id (select (is_due later) (claimed_rows now rows)) (
              has_key-select r.id (is_due later) (claimed_rows now rows) (
                has_key-update (λ s. s.id) (is_due now) (mark_claimed now) (λ s. refl) r.id rows
                ∙ u.0)))
            (due_later rows u.1))
    | inr idle ↦
        let rest = due_later rows u.1 in
        let apart = has_key-select r.id (is_due now) rows u.0 in
        rw idle (ground (arith, rest, apart))
  ]

fresh-claimed :
    (now later : String) (rows : List ScheduleRow)
    → now ≢ later
    → any (is_claimed later) rows ≡ false
    → any (is_claimed later) (claimed_rows now rows) ≡ false
unfolding update
fresh-claimed now later [] differ fresh = refl
fresh-claimed now later (r ∷ rows) differ fresh = elim (Bool-cases (is_due now r)) [
  | inl due ↦ rw due (ground (arith, eq_iff now later, fresh-claimed now later rows differ))
  | inr idle ↦ rw idle (ground (arith, fresh-claimed now later rows differ))
]

abbrev handed : List ScheduleRow → List ScheduledPrompt
handed rows = map (schedule_of executing none) rows

has_key-handed :
    (k : String) (rows : List ScheduleRow)
    → has_key (λ r. r.id) k rows ≡ false
    → has_key (λ t. t.id) k (handed rows) ≡ false
has_key-handed k [] h = refl
has_key-handed k (r ∷ rows) h = ground (arith, has_key-handed k rows)

Apart-handed :
    (taken rows : List ScheduleRow)
    → All (λ s. has_key (λ r. r.id) s.id taken ≡ false) rows
    → All (λ s. has_key (λ t. t.id) s.id (handed taken) ≡ false) (handed rows)
Apart-handed taken [] h = tt
Apart-handed taken (r ∷ rows) h = (has_key-handed r.id taken h.0, Apart-handed taken rows h.1)

-- Over a sound connection, two claims with different fresh tokens hand out no schedule twice: the
-- ID of each schedule of the second claim is missing from the first. (The IDs are distinct, as the
-- primary key ensures, and each counter is an i32.)
pub claim-claim_apart :
    (now later : String) (db : Db) (first_claim second_claim : List ScheduledPrompt)
    → db.fault ≡ none
    → Distinct (λ r. r.id) db.scheduled_prompts
    → All InRange db.scheduled_prompts
    → any (is_claimed now) db.scheduled_prompts ≡ false
    → any (is_claimed later) db.scheduled_prompts ≡ false
    → now ≢ later
    → (claim_due_schedules now db).1 ≡ ok first_claim
    → (claim_due_schedules later (claim_due_schedules now db).0).1 ≡ ok second_claim
    → All (λ s. has_key (λ t. t.id) s.id first_claim ≡ false) second_claim
claim-claim_apart now later db xs ys sound ids range fresh fresh' differ hx hy =
    let rows = db.scheduled_prompts in
    let db' = record db { scheduled_prompts = claimed_rows now rows } in
    let one = claim_due-exact now db sound fresh range in
    let two =
      claim_due-exact later db' sound (fresh-claimed now later rows differ fresh')
        (All-update (is_due now) (mark_claimed now) InRange (λ r h. h) rows range) in
    let taken : xs ≡ handed (select (is_due now) rows) =
      cc (hx, ap (λ (r : Db × Result (List ScheduledPrompt)). r.1) one) in
    let left : ys ≡ handed (select (is_due later) (claimed_rows now rows)) =
      cc (rw one at hy, ap (λ (r : Db × Result (List ScheduledPrompt)). r.1) two) in
    rw (taken, left)
      (Apart-handed (select (is_due now) rows) (select (is_due later) (claimed_rows now rows))
        (due_later now later rows ids))
