-- ===== src/Tests/Growth.antt =====
-- The counts of the dashboard over the tables that an aggregation leaves.
use vn_phone_dp.Prelude.{◌≤◌, ◌≡◌, refl, none, [], ◌∷◌, map, length}
use vn_phone_dp.Prelude.Sorting.{total}
use mathlib.Core.List.Permᴰ
use vn_phone_dp.Directory.{identity_rows}
use vn_phone_dp.Aggregation.{run_aggregation}
use vn_phone_dp.Statistics.{
  source_names_of_document, source_names_in, observed_source_names, top_sources,
}
use vn_phone_dp.Monitoring.Growth.{is_production, get_data_growth, get_data_growth_time_series}
use vn_phone_dp.Monitoring.Exported.{get_data_growth-counted}
use vn_phone_dp.Tests.Identities.{after}
use vn_phone_dp.Tests.Program.{program}

grown : (get_data_growth none 3600000 after).total_numbers ≡ 1
unfolding program is_production get_data_growth
grown = refl

top : map (λ s. s.phone_count) (top_sources (λ ss. ss) after) ≡ 2 ∷ []
unfolding program source_names_of_document source_names_in observed_source_names top_sources
top = refl

get_data_growth-counted_example :
    ((get_data_growth none 3600000 after).total_numbers
      ≡ length (identity_rows (λ is. is) after after.phone_numbers))
    × ((get_data_growth none 3600000 after).added_1h
        ≤ (get_data_growth none 3600000 after).added_3h)
    × ((get_data_growth none 3600000 after).added_3h
        ≤ (get_data_growth none 3600000 after).added_6h)
    × ((get_data_growth none 3600000 after).added_6h
        ≤ (get_data_growth none 3600000 after).added_9h)
    × ((get_data_growth none 3600000 after).added_9h
        ≤ (get_data_growth none 3600000 after).added_12h)
    × ((get_data_growth none 3600000 after).added_12h
        ≤ (get_data_growth none 3600000 after).added_24h)
    × ((get_data_growth none 3600000 after).added_24h
        ≤ (get_data_growth none 3600000 after).total_numbers)
    × (total (λ b. b.count) (get_data_growth_time_series 24 3600000 after)
        ≡ (get_data_growth none 3600000 after).added_24h)
unfolding run_aggregation
get_data_growth-counted_example =
    get_data_growth-counted (λ is. is) (λ is. Permᴰ.refl is) none 3600000 after ((tt), tt)
