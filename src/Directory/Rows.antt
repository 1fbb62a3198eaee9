-- ===== src/Directory/Rows.antt =====
-- The map of the best row of each number, which getSpamFlags builds row by row.
use mathlib.Core.List.{Memᴰ}
use vn_phone_dp.Prelude.{
  ℕ, ◌+◌, ◌≤◌, ◌<◌, ◌≡◌, ◌⊎◌, inl, inr, refl, ap, ◌∙◌, true, Option, none, some, List, [], ◌∷◌,
  arith, Text, text_eq, text_eq_iff, All, ltb, if◌then◌else◌, Bool-cases,
}
use vn_phone_dp.Directory.{FlagRow, TopFlag, top_flag, note_row, note_rows, lookup}

-- Lookups in a map.
module _ {ℓ} {V : Type ℓ} where
  pub mem-lookup :
      (key : Text) (entries : List (Text × V)) (v : V)
      → lookup key entries ≡ some v
      → Memᴰ (key, v) entries
  unfolding lookup
  mem-lookup key [] v h = absurd (ground arith)
  mem-lookup key ((k, w) ∷ entries) v h = elim (Bool-cases (text_eq k key)) [
    | inl same ↦ Memᴰ.head (ground (arith, text_eq_iff k key))
    | inr other ↦ Memᴰ.tail (mem-lookup key entries v (ground arith))
  ]

-- The better of what the map holds for a number and a new row on it.
better : Option TopFlag → FlagRow → TopFlag
better none row = top_flag row
better (some existing) row =
    if ltb existing.top_count row.category_count then top_flag row else existing

lookup-note_row :
    (key : Text) (flags : List (Text × TopFlag)) (row : FlagRow)
    → lookup key (note_row flags row) ≡ (
        if text_eq row.phone_normalized key
        then some (better (lookup key flags) row)
        else lookup key flags)
unfolding lookup note_row better
lookup-note_row key [] row = refl
lookup-note_row key ((phone, existing) ∷ flags) row = ground (
  arith,
  lookup-note_row key flags row,
  text_eq_iff phone row.phone_normalized,
  text_eq_iff phone key,
  text_eq_iff row.phone_normalized key,
)

-- One more than the count that a number's entry holds; 0 if it has none.
abbrev pub level : Option TopFlag → ℕ
level none = 0
level (some f) = f.top_count + 1

pub record IsBest (key : Text) (rows : List FlagRow) (before after : Option TopFlag) : Type 0 where
  pub bound : All (λ r. text_eq r.phone_normalized key ≡ true → r.category_count < level after) rows
  pub grows : level before ≤ level after
  pub from :
      (after ≡ before)
      ⊎ ((r : FlagRow) × Memᴰ r rows
          × (text_eq r.phone_normalized key ≡ true)
          × (after ≡ some (top_flag r)))

better_lem :
    (o : Option TopFlag) (row : FlagRow)
    → (row.category_count < level (some (better o row)))
      × (level o ≤ level (some (better o row)))
      × ((some (better o row) ≡ o) ⊎ (better o row ≡ top_flag row))
unfolding better
better_lem none row = ground arith
better_lem (some f) row = ground arith

pub note_rows-IsBest :
    (key : Text) (flags : List (Text × TopFlag)) (rows : List FlagRow)
    → IsBest key rows (lookup key flags) (lookup key (note_rows flags rows))
unfolding note_rows
note_rows-IsBest key flags [] = record { bound = tt; grows = omega arith; from = inl refl }
note_rows-IsBest key flags (row ∷ rows) =
    let later = note_rows-IsBest key (note_row flags row) rows in
    let step = lookup-note_row key flags row in
    let (below, up, choice) = better_lem (lookup key flags) row in
    elim (Bool-cases (text_eq row.phone_normalized key)) [
      | inl here ↦
          let now = rw here at step in
          let grown = rw now at later.grows in
          record {
            bound = ((λ _. omega arith), later.bound);
            grows = omega arith;
            from = elim later.from [
              | inl same ↦ elim choice [
                | inl old ↦ inl (same ∙ now ∙ old)
                | inr new ↦ inr (row, Memᴰ.head refl, here, same ∙ now ∙ ap some new)
              ]
              | inr (r, m, is, found) ↦ inr (r, Memᴰ.tail m, is, found)
            ];
          }
      | inr away ↦
          let now = rw away at step in
          let grown = rw now at later.grows in
          record {
            bound = ((λ is. absurd (ground arith)), later.bound);
            grows = grown;
            from = elim later.from [
              | inl same ↦ inl (same ∙ now)
              | inr (r, m, is, found) ↦ inr (r, Memᴰ.tail m, is, found)
            ];
          }
    ]
