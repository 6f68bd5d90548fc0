-- ===== src/Store/Sample/Flushed.antt =====
-- A store with a data part and a newer delta part of one period, on bitmaps that are lists.
use inoxset.Prelude.{ℕ, Bytes, bytes, some, List, [], ◌∷◌, ◌≡◌, refl, ap, sym, subst, ◌∙◌, arith}
use inoxset.Prelude.Eq.{text_eq}
use inoxset.Types.{Granularity, Period, PartKind, new_config}
use inoxset.Period.{granularity, catalog_key}
use inoxset.Codec.Utf8.{is_utf8}
use inoxset.Codec.Part.RoundTrip.{Fits}
use inoxset.PartStore.{part_file_path}
use inoxset.Roaring.Instance.{list_roaring, count}
use inoxset.Catalog.Txn.{or_one}
use inoxset.Merge.{tag}
use inoxset.Store.{Store}
use inoxset.Store.Content.{Content}
use inoxset.Store.Stored.{ids, Stored-counter}
use inoxset.Store.Flush.{new_part}
use inoxset.Store.Step.{Holds, add_data, add_delta, flush_data-Holds, flush_delta-Holds}
use inoxset.Store.Commit.{IsReady, IsConsistent}
use inoxset.Store.Swap.{is_apart, IsApart}
use inoxset.Store.Sample.{
  settings, store, no_catalog, logins, nothing, nothing-Stored, config, logins-Fits, data-IsReady,
}

-- The counter after two parts, and no part yet.
abbrev started : Store (List ℕ)
started = record store { catalog = record no_catalog { next_part_id = some 3 } }

started-Holds : Holds list_roaring started nothing 1
unfolding Holds
started-Holds key =
    Stored-counter list_roaring no_catalog [] (some 3) key (nothing key) 1 (nothing-Stored key)

delta_path-Fits : Fits (
    part_file_path
      (bytes "parts")
      (bytes "logins")
      Granularity.day
      (Period.day 2024 1 5)
      2
      PartKind.delta)
unfolding is_utf8 part_file_path
delta_path-Fits = record { short = omega arith; utf8 = refl }

delta-IsReady : IsReady list_roaring settings 1700000000 PartKind.delta config logins 2 (2 ∷ [])
unfolding new_part count new_config
delta-IsReady = record {
  can_write = refl;
  can_store = record {
    part_id = omega arith;
    size_bytes = omega arith;
    cardinality = omega arith;
    created_at = omega arith;
    period = omega arith;
    event = logins-Fits;
    path = delta_path-Fits;
  };
}

abbrev pub key : Bytes
key = catalog_key (bytes "logins") (granularity (Period.day 2024 1 5)) (Period.day 2024 1 5)

abbrev pub parts : Bytes → Content (List ℕ)
parts = add_delta list_roaring (add_data list_roaring nothing key 1 (1 ∷ 2 ∷ [])) key 2 (2 ∷ [])

pub flushed :
    (t : Store (List ℕ)) × Holds list_roaring t parts 3 × (t.catalog.next_part_id ≡ some 3)
flushed =
    let (t, done, holds, rest) =
      flush_data-Holds list_roaring settings 1700000000 config (bytes "logins")
        (Period.day 2024 1 5) 1 (1 ∷ 2 ∷ []) started nothing started-Holds (omega arith)
        data-IsReady.can_write data-IsReady.can_store in
    let (u, also, held, left) =
      flush_delta-Holds list_roaring settings 1700000000 config (bytes "logins")
        (Period.day 2024 1 5) 2 (2 ∷ []) t (add_data list_roaring nothing key 1 (1 ∷ 2 ∷ [])) holds
        (omega arith) delta-IsReady.can_write delta-IsReady.can_store in
    (u, held, left.counter ∙ rest.counter)

-- A store with the two parts, and the counter past them.
abbrev pub two_parts : Store (List ℕ)
two_parts = flushed.0

pub next_three : or_one two_parts.catalog.next_part_id ≡ 3
next_three = ap or_one flushed.2 ∙ (unfold or_one in refl)

pub two_parts-IsConsistent : IsConsistent list_roaring two_parts parts
unfolding IsConsistent
two_parts-IsConsistent =
    subst (λ n. Holds list_roaring two_parts parts n) (sym next_three) flushed.1

pub two_parts-IsApart : IsApart list_roaring parts key
unfolding add_data add_delta ids tag is_apart
two_parts-IsApart j other = rw other refl
