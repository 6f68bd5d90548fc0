-- ===== src/Rollup/Tests.antt =====
-- The writes to the buffer on bitmaps that are lists.
use inoxset.Prelude.{ℕ, bytes, true, not, ◌&&◌, ◌||◌, List, [], ◌∷◌, ◌≡◌}
use inoxset.Types.{Granularity, Period, Rollup, EventConfig, new_config}
use inoxset.Roaring.Instance.{list_roaring, member}
use inoxset.MemPart.{Key, MemPart}
use inoxset.MemPart.Content.{added, removed}
use inoxset.Rollup.{each, put_buffer, remove_buffer, put_range_buffer, remove_range_buffer}
use inoxset.Roaring.{is_among}
use inoxset.Rollup.View.{reaches, visible, put_buffer-visible, remove_buffer-visible}
use inoxset.Rollup.Ranges.Buckets.{put_range_buffer-each, remove_range_buffer-each}

-- A buffer with a bit written and a pending remove of it, at the month above.
abbrev buffer : MemPart (List ℕ)
buffer = record {
  bitmaps = ((bytes "a", Period.day 2024 2 28), 7 ∷ []) ∷ [];
  deltas = ((bytes "a", Period.month 2024 2), 7 ∷ 9 ∷ []) ∷ [];
  size_bytes = 0;
}

abbrev config : EventConfig
config = new_config (bytes "a") Granularity.day Rollup.auto

abbrev month_key : Key
month_key = (bytes "a", Period.month 2024 2)

put_buffer-visible_example :
    visible list_roaring true
      (put_buffer list_roaring buffer (bytes "a") config (Period.day 2024 2 29) (7 ∷ []))
      month_key
      7
    ≡ (reaches (bytes "a") config (Period.day 2024 2 29) month_key && member (7 ∷ []) 7
        || visible list_roaring true buffer month_key 7)
put_buffer-visible_example =
    put_buffer-visible list_roaring buffer (bytes "a") config (Period.day 2024 2 29) month_key 7
      true (7 ∷ [])

remove_buffer-visible_example :
    visible list_roaring true
      (remove_buffer list_roaring buffer (bytes "a") config (Period.day 2024 2 29) (8 ∷ []))
      month_key
      8
    ≡ (visible list_roaring true buffer month_key 8
        && not (reaches (bytes "a") config (Period.day 2024 2 29) month_key && is_among 8 (8 ∷ [])))
remove_buffer-visible_example =
    remove_buffer-visible list_roaring buffer (bytes "a") config (Period.day 2024 2 29) month_key 8
      true (8 ∷ [])

abbrev days : List Period
days = Period.day 2024 2 28 ∷ Period.day 2024 2 29 ∷ []

put_range_buffer-each_example :
    (added list_roaring
        (put_range_buffer list_roaring buffer config.name config days (7 ∷ []))
        month_key
        7
      ≡ added list_roaring
          (each (λ m p. put_buffer list_roaring m config.name config p (7 ∷ [])) days buffer)
          month_key
          7)
    × (removed list_roaring
          (put_range_buffer list_roaring buffer config.name config days (7 ∷ []))
          month_key
          7
        ≡ removed list_roaring
            (each (λ m p. put_buffer list_roaring m config.name config p (7 ∷ [])) days buffer)
            month_key
            7)
put_range_buffer-each_example =
    put_range_buffer-each list_roaring config month_key 7 (7 ∷ []) days buffer

remove_range_buffer-each_example :
    visible list_roaring true
      (remove_range_buffer list_roaring buffer config.name config days (8 ∷ []))
      month_key
      8
    ≡ visible list_roaring true
        (each (λ m p. remove_buffer list_roaring m config.name config p (8 ∷ [])) days buffer)
        month_key
        8
remove_range_buffer-each_example =
    remove_range_buffer-each list_roaring config month_key 8 true (8 ∷ []) days buffer
