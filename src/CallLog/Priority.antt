-- ===== src/CallLog/Priority.antt =====
-- The ranking of the numbers that need research.
use mathlib.Core.List.{Permᴰ}
use mathlib.Core.List.Permᴰ
use vn_phone_dp.Prelude.{
  ℕ, suc, ◌+◌, ◌-◌, ◌*◌, ◌/◌, ◌<◌, ◌⊎◌, inl, inr, ltb, ◌==◌, if◌then◌else◌, ◌≤◌, ◌≡◌, refl, List,
  [], ◌∷◌, map, arith, leb, All,
}
use vn_phone_dp.Prelude.Sorting.{sort_by-perm, sort_by-IsOrdered, IsOrdered, All-perm}
use vn_phone_dp.Schema.{Day, Timestamp, PersonalCallLog}
use vn_phone_dp.CallLog.{
  Orders, Identities, CallGroup, scored, priority_score, get_unknown_numbers,
  get_unknown_numbers_priority,
}

-- The milliseconds of a day.
abbrev pub day : ℕ
day = 86400000

-- A row with one call more, and one on one day more.
abbrev pub called_more : CallGroup → CallGroup
called_more r = record r { total_calls = suc r.total_calls }

abbrev pub repeated_more : CallGroup → CallGroup
repeated_more r = record r { days_called = suc r.days_called }

-- What one call more and one day more add to a score.
abbrev pub call_step : ℕ → ℕ
call_step calls = if ltb calls 10 then 5 else 0

abbrev pub repeat_step : ℕ → ℕ
repeat_step days = if ltb days 6 then 3 else if days == 6 then 2 else 0

-- The whole days that have passed since a date, none when it lies in the future.
abbrev pub IsPassed : ℕ → Timestamp → Timestamp → Type 0
IsPassed passed last now =
    ((passed ≡ 0) ⊎ (last + passed * day ≤ now)) × (now < last + suc passed * day)

days_since : (passed last now : ℕ) → IsPassed passed last now → (now - last) / day ≡ passed
days_since passed last now (inl none, short) = omega arith
days_since passed last now (inr long, short) = omega arith

-- By the whole days that have passed since the last date of a number, none for a date in the future:
-- without calls it scores 30 less those days, and 0 after 30 days. From there, each of its first ten
-- calls adds 5, and no further one anything; each of its first six days with calls adds 3, the
-- seventh 2, and no further one anything.
pub priority_score-steps :
    (time : Day → Timestamp) (now : Timestamp) (r : CallGroup) (passed : ℕ)
    → IsPassed passed (time r.last_call_date) now
    → (priority_score time now (record r { total_calls = 0; days_called = 0 }) ≡ 30 - passed)
      × (priority_score time now (called_more r)
          ≡ priority_score time now r + call_step r.total_calls)
      × (priority_score time now (repeated_more r)
          ≡ priority_score time now r + repeat_step r.days_called)
unfolding priority_score
priority_score-steps time now r passed h =
    let since = days_since passed (time r.last_call_date) now h in
    rw since (omega arith, ground arith, ground arith)

All-scored :
    (time : Day → Timestamp) (now : Timestamp) (rows : List CallGroup)
    → All
        (λ p. (p.priority_score ≡ priority_score time now p.calls) × (p.priority_score ≤ 100))
        (map (scored time now) rows)
unfolding priority_score
All-scored time now [] = tt
All-scored time now (r ∷ rows) = ((refl, omega arith), All-scored time now rows)

-- The list is a rearrangement of the unknown numbers, each with its score, which is at most 100; and
-- it has the highest scores first.
pub get_unknown_numbers_priority-IsRanked :
    (time : Day → Timestamp) (now : Timestamp) (o : Orders) (t : Identities)
    (logs : List PersonalCallLog)
    → Permᴰ
        (get_unknown_numbers_priority time now o t logs)
        (map (scored time now) (get_unknown_numbers o t logs))
      × All
          (λ p. (p.priority_score ≡ priority_score time now p.calls) × (p.priority_score ≤ 100))
          (get_unknown_numbers_priority time now o t logs)
      × IsOrdered
          (λ a b. b.priority_score ≤ a.priority_score)
          (get_unknown_numbers_priority time now o t logs)
unfolding get_unknown_numbers_priority
get_unknown_numbers_priority-IsRanked time now o t logs =
    let rows = map (scored time now) (get_unknown_numbers o t logs) in
    let same = sort_by-perm (λ a b. leb b.priority_score a.priority_score) rows in
    (
      same,
      All-perm _ (Permᴰ.symm same) (All-scored time now (get_unknown_numbers o t logs)),
      sort_by-IsOrdered _ _ (λ x y z h k. omega arith) (λ x y h. ground arith)
          (λ x y h. ground arith) rows,
    )
