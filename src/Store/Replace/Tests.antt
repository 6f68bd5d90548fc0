-- ===== src/Store/Replace/Tests.antt =====
-- The bitmap of a period with a part, replaced, on bitmaps that are lists.
use inoxset.Prelude.{
  ℕ, Bytes, bytes, some, List, [], ◌∷◌, ◌≡◌, refl, ap, sym, subst, ◌∙◌, arith, if◌then◌else◌,
}
use inoxset.Prelude.Eq.{text_eq, text_beq}
use inoxset.Types.{Granularity, Period, PartKind, new_config}
use inoxset.Error.{ok}
use inoxset.Period.{granularity, catalog_key}
use inoxset.Codec.Utf8.{is_utf8}
use inoxset.Codec.Part.RoundTrip.{Fits}
use inoxset.PartStore.{part_file_path}
use inoxset.Roaring.Instance.{list_roaring, member, count}
use inoxset.Catalog.Txn.{or_one}
use inoxset.Merge.{tag}
use inoxset.Store.{Store}
use inoxset.Store.Content.{Content}
use inoxset.Store.Stored.{ids, Stored-counter}
use inoxset.Store.Disk.{read_disk}
use inoxset.Store.Flush.{new_part}
use inoxset.Store.Step.{Holds, add_data, flush_data-Holds}
use inoxset.Store.Commit.{IsReady, IsConsistent}
use inoxset.Store.Replace.{replace_old}
use inoxset.Store.Swap.{is_apart, replaced, IsApart}
use inoxset.Store.Replace.Content.{replace_old-read_disk}
use inoxset.Store.Sample.{
  settings, store, no_catalog, logins, nothing, nothing-Stored, config, logins-Fits, data-IsReady,
}

path-Fits : Fits (
    part_file_path
      (bytes "parts")
      (bytes "logins")
      Granularity.day
      (Period.day 2024 1 5)
      2
      PartKind.additive)
unfolding is_utf8 part_file_path
path-Fits = record { short = omega arith; utf8 = refl }

new-IsReady :
    IsReady list_roaring settings 1700000000 PartKind.additive config logins 2 (2 ∷ 5 ∷ [])
unfolding new_part count new_config
new-IsReady = record {
  can_write = refl;
  can_store = record {
    part_id = omega arith;
    size_bytes = omega arith;
    cardinality = omega arith;
    created_at = omega arith;
    period = omega arith;
    event = logins-Fits;
    path = path-Fits;
  };
}

-- The counter after one part, and no part yet.
abbrev started : Store (List ℕ)
started = record store { catalog = record no_catalog { next_part_id = some 2 } }

started-Holds : Holds list_roaring started nothing 1
unfolding Holds
started-Holds key =
    Stored-counter list_roaring no_catalog [] (some 2) key (nothing key) 1 (nothing-Stored key)

abbrev key : Bytes
key = catalog_key (bytes "logins") (granularity (Period.day 2024 1 5)) (Period.day 2024 1 5)

abbrev parts : Bytes → Content (List ℕ)
parts = add_data list_roaring nothing key 1 (1 ∷ 2 ∷ [])

flushed : (t : Store (List ℕ)) × Holds list_roaring t parts 2 × (t.catalog.next_part_id ≡ some 2)
flushed =
    let (t, done, holds, rest) =
      flush_data-Holds list_roaring settings 1700000000 config (bytes "logins")
        (Period.day 2024 1 5) 1 (1 ∷ 2 ∷ []) started nothing started-Holds (omega arith)
        data-IsReady.can_write data-IsReady.can_store in
    (t, holds, rest.counter)

-- A store with one part, and one after it with the next id.
abbrev one_part : Store (List ℕ)
one_part = flushed.0

next_two : or_one one_part.catalog.next_part_id ≡ 2
next_two = ap or_one flushed.2 ∙ (unfold or_one in refl)

one_part-IsConsistent : IsConsistent list_roaring one_part parts
unfolding IsConsistent
one_part-IsConsistent = subst (λ n. Holds list_roaring one_part parts n) (sym next_two) flushed.1

one_part-IsApart : IsApart list_roaring parts key
unfolding add_data ids tag is_apart
one_part-IsApart j other = rw other refl

replace_old-read_disk_example :
    (t : Store (List ℕ)) × (replace_old list_roaring settings 1700000000 config
        (bytes "logins")
        (Period.day 2024 1 5)
        (2 ∷ 5 ∷ [])
        (record {
          cat_key = key;
          data_ids = ids (parts key).data_parts;
          delta_ids = ids (parts key).delta_parts;
        })
        one_part
      ≡ (ok tt, t))
    × IsConsistent list_roaring t
        (replaced list_roaring parts key (or_one one_part.catalog.next_part_id) (2 ∷ 5 ∷ []))
    × ((j : Bytes)
        → (m n : List ℕ) × (read_disk list_roaring one_part.catalog one_part.files j ≡ ok m)
          × (read_disk list_roaring t.catalog t.files j ≡ ok n)
          × ((x : ℕ) → member n x ≡ (if text_beq key j then member (2 ∷ 5 ∷ []) x else member m x)))
replace_old-read_disk_example =
    replace_old-read_disk list_roaring settings 1700000000 config (bytes "logins")
      (Period.day 2024 1 5) (2 ∷ 5 ∷ []) one_part parts one_part-IsConsistent
      (rw next_two (omega arith)) one_part-IsApart (rw next_two new-IsReady)
