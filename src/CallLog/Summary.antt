-- ===== src/CallLog/Summary.antt =====
-- What the grouped queries keep: every call, in one group.
use mathlib.Core.List.{Permᴰ}
use vn_phone_dp.Prelude.{
  ◌+◌, ◌≤◌, ◌≡◌, ◌↔◌, refl, ◌∙◌, true, ◌&&◌, List, [], ◌∷◌, arith, text_eq, text_eq_iff, filter,
  leb, option_eq_iff,
}
use vn_phone_dp.Prelude.Groups.{distinct}
use vn_phone_dp.Prelude.Sorting.{total, total-perm, sort_by-perm, sort_by-IsOrdered, IsOrdered}
use vn_phone_dp.Prelude.Members.{total-map, IsOrdered-map, total-groups}
use vn_phone_dp.Schema.{Day, PersonalCallLog}
use vn_phone_dp.CallLog.{
  Orders, Identities, CallGroup, GroupKey, key_eq, group_key, of_key, add_group, call_group,
  groups_of, grouped, keys, summary_row, between, get_call_log_summary,
}

-- The orders rearrange the rows and add or lose none.
pub record IsOrders (o : Orders) : Type 0 where
  pub identities : (xs : _) → Permᴰ (o.identities xs) xs
  pub logs : (xs : _) → Permᴰ (o.logs xs) xs
  pub groups : (xs : _) → Permᴰ (o.groups xs) xs

pub key_eq_iff : (a b : GroupKey) → (key_eq a b ≡ true) ↔ (a ≡ b)
key_eq_iff (p, n) (q, m) = ground (arith, text_eq_iff p q, option_eq_iff text_eq text_eq_iff n m)

total-add_group :
    (rows : List PersonalCallLog) (groups : List CallGroup)
    → total (λ g. g.total_calls) (add_group rows groups)
      ≡ total (λ r. r.call_count) rows + total (λ g. g.total_calls) groups
unfolding call_group
total-add_group [] groups = omega arith
total-add_group (r ∷ rows) groups = omega arith

module _ (o : Orders) (orders : IsOrders o) where
  total-groups_of :
      (logs : List PersonalCallLog) (ks : List GroupKey)
      → total (λ g. g.total_calls) (groups_of o logs ks)
        ≡ total (λ k. total (λ r. r.call_count) (of_key k logs)) ks
  unfolding groups_of
  total-groups_of logs [] = refl
  total-groups_of logs (k ∷ ks) = omega (
    arith,
    total-add_group (o.logs (of_key k logs)) (groups_of o logs ks),
    total-perm (λ r. r.call_count) (orders.logs (of_key k logs)),
    total-groups_of logs ks,
  )

  -- The groups together have the calls of the rows.
  pub grouped-total :
      (logs : List PersonalCallLog)
      → total (λ g. g.total_calls) (grouped o logs) ≡ total (λ r. r.call_count) logs
  unfolding grouped
  grouped-total logs =
      let groups = groups_of o logs (distinct key_eq (keys logs)) in
      omega (
        arith,
        total-perm (λ g. g.total_calls)
            (sort_by-perm (λ a b. leb b.total_calls a.total_calls) (o.groups groups)),
        total-perm (λ g. g.total_calls) (orders.groups groups),
        total-groups_of logs (distinct key_eq (keys logs)),
        total-groups key_eq key_eq_iff (λ r. group_key r) (λ r. r.call_count) logs,
      )

  pub grouped-IsOrdered :
      (logs : List PersonalCallLog)
      → IsOrdered (λ a b. b.total_calls ≤ a.total_calls) (grouped o logs)
  unfolding grouped
  grouped-IsOrdered logs =
      sort_by-IsOrdered _ _ (λ x y z h k. omega arith) (λ x y h. ground arith)
        (λ x y h. ground arith) _

  -- For rows whose orders are only rearranged, the summary of a period has each call of the log in
  -- the period once: the total calls of its rows add up to the calls logged from the first to the
  -- last day; and its rows come with the most calls first.
  pub get_call_log_summary-total :
      (t : Identities) (logs : List PersonalCallLog) (from to : Day)
      → (total (λ s. s.calls.total_calls) (get_call_log_summary o t logs from to)
          ≡ total
              (λ r. r.call_count)
              (filter (λ r. leb from r.call_date && leb r.call_date to) logs))
        × IsOrdered
            (λ a b. b.calls.total_calls ≤ a.calls.total_calls)
            (get_call_log_summary o t logs from to)
  unfolding get_call_log_summary between summary_row
  get_call_log_summary-total t logs from to = (
    total-map (summary_row o t) (λ s. s.calls.total_calls) (grouped o (between from to logs))
        ∙ grouped-total (between from to logs),
    IsOrdered-map (summary_row o t) (λ a b. b.calls.total_calls ≤ a.calls.total_calls)
        (grouped o (between from to logs)) (grouped-IsOrdered (between from to logs)),
  )
