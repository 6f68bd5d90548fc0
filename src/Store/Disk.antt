-- ===== src/Store/Disk.antt =====
-- `get` of src/lib.rs: the read index, and where it has no entry the fold of the parts of the
-- catalog in the order of their ids.
use inoxset.Prelude.{ℕ, Bytes, Bool, true, false, Option, some, List, [], ◌∷◌, ◌++◌, if◌then◌else◌}
use inoxset.Prelude.HashMap
use inoxset.Prelude.HashMap.{HashMap}
use inoxset.Prelude.Eq.{text_eq, pair_eq}
use inoxset.Types.{Period, Part}
use inoxset.Types.Order.{period_eq}
use inoxset.Error.{Result, ok, err, closed, ◌>>=◌}
use inoxset.Period.{granularity, catalog_key}
use inoxset.Roaring.{Roaring}
use inoxset.MemPart.{get_bitmap, get_delta}
use inoxset.Catalog.{Catalog, get_period_parts, get_period_deltas, get_part}
use inoxset.Merge.{Ordered, sort_by_id, apply_part}
use inoxset.Read.{or_some, minus_some, overlay}
use inoxset.Store.{Store}
use inoxset.Store.Index.{mmap_read_part}

-- `ids.iter().map(|&pid| (pid, is_delta))`
unfoldable pub tag_ids : Bool → List ℕ → List (Ordered (Unit {0}))
tag_ids is_delta [] = []
tag_ids is_delta (pid ∷ ids) =
    record { id = pid; is_delta = is_delta; path = tt } ∷ tag_ids is_delta ids

module _ (R : Roaring) where
  open R use {Bitmap}

  -- One round of the loop: a part without a record is passed over.
  apply_found : HashMap Bytes Bitmap → Bool → Bitmap → Option Part → Result Bitmap
  apply_found files is_delta result Option.none = ok result
  apply_found files is_delta result (some part) = do
    bm ← mmap_read_part R files part.file_path
    ok (apply_part R is_delta result bm)

  unfoldable pub fold_ids :
      Catalog → HashMap Bytes Bitmap → List (Ordered (Unit {0})) → Bitmap → Result Bitmap
  unfolding apply_found
  fold_ids cat files [] result = ok result
  fold_ids cat files (p ∷ ordered) result = do
    part ← get_part cat p.id
    applied ← apply_found files p.is_delta result part
    fold_ids cat files ordered applied

  unfoldable pub read_disk : Catalog → HashMap Bytes Bitmap → Bytes → Result Bitmap
  unfolding tag_ids fold_ids
  read_disk cat files cat_key = do
    data_ids ← get_period_parts cat cat_key
    delta_ids ← get_period_deltas cat cat_key
    fold_ids cat files (sort_by_id (tag_ids false data_ids ++ tag_ids true delta_ids)) R.new

  unfoldable pub get_from : Option Bitmap → Store Bitmap → Bytes → Period → Result Bitmap
  unfolding read_disk
  get_from (some cached) s event period =
      ok (overlay R cached (get_bitmap R s.writer event period) (get_delta R s.writer event period))
  get_from Option.none s event period = do
    result ← read_disk s.catalog s.files (catalog_key event (granularity period) period)
    ok (
        minus_some R (or_some R result (get_bitmap R s.writer event period))
          (get_delta R s.writer event period))

  unfoldable pub get : Store Bitmap → Bytes → Period → Result Bitmap
  unfolding get_from
  get s event period =
      if s.is_closed
      then err closed
      else get_from (HashMap.get s.bitmap_cache (event, period)) s event period
