-- ===== src/Store/Query.antt =====
-- The reads of src/lib.rs that are built on `get`. `get_shared` returns a shared bitmap, which is
-- the bitmap.
use inoxset.Prelude.{
  ℕ, Bytes, Bool, true, false, not, ◌||◌, Option, some, List, [], ◌∷◌, if◌then◌else◌,
}
use inoxset.Prelude.HashMap
use inoxset.Prelude.Eq.{text_eq, pair_eq}
use inoxset.Types.{Period, Part, EventConfig, SetExpr, ref, and, or}
use inoxset.Types.Order.{period_eq}
use inoxset.Error.{Result, ok, err, closed, ◌>>=◌, ◌>>◌}
use inoxset.Period.{granularity, validate, catalog_key}
use inoxset.Range.{enumerate_periods, limit_range}
use inoxset.Roaring.{Roaring}
use inoxset.MemPart.{get_bitmap, get_delta}
use inoxset.Catalog.{get_event, get_part, get_period_parts, get_period_deltas, get_period_state}
use inoxset.Read.{overlay, query}
use inoxset.Store.{Store}
use inoxset.Store.Write.{is_compacted}
use inoxset.Store.Disk.{get}

unfoldable pub is_some {ℓ} : {A : Type ℓ} → Option A → Bool
is_some Option.none = false
is_some (some a) = true

-- `data_ids.len() == 1 && delta_ids.is_empty()`, with the id
unfoldable pub only_part : List ℕ → List ℕ → Option ℕ
only_part (id ∷ []) [] = some id
only_part _ _ = Option.none

module _ (R : Roaring) where
  open R use {Bitmap}

  unfoldable pub shared_from : Option Bitmap → Store Bitmap → Bytes → Period → Result Bitmap
  shared_from (some cached) s event period =
      ok (overlay R cached (get_bitmap R s.writer event period) (get_delta R s.writer event period))
  shared_from Option.none s event period = get R s event period

  unfoldable pub get_shared : Store Bitmap → Bytes → Period → Result Bitmap
  unfolding shared_from
  get_shared s event period =
      if s.is_closed
      then err closed
      else shared_from (HashMap.get s.bitmap_cache (event, period)) s event period

  -- The loop of `get_range`.
  unfoldable pub gather : Store Bitmap → Bytes → List Period → Result (List (Period × Bitmap))
  gather s event [] = ok []
  gather s event (p ∷ periods) = do
    bm ← get R s event p
    results ← gather s event periods
    ok (if R.is_empty bm then results else (p, bm) ∷ results)

  unfoldable pub get_range :
      Store Bitmap → Bytes → Period → Period → Result (List (Period × Bitmap))
  unfolding gather
  get_range s event start end = if s.is_closed then err closed else do
    validate start
    validate end
    periods ← enumerate_periods start end
    limited ← limit_range periods
    gather s event limited

  -- The loop of `cardinality_range`.
  unfoldable pub gather_len : Store Bitmap → Bytes → List Period → Result (List (Period × ℕ))
  gather_len s event [] = ok []
  gather_len s event (p ∷ periods) = do
    bm ← get R s event p
    results ← gather_len s event periods
    ok (if R.is_empty bm then results else (p, R.len bm) ∷ results)

  unfoldable pub cardinality_range :
      Store Bitmap → Bytes → Period → Period → Result (List (Period × ℕ))
  unfolding gather_len
  cardinality_range s event start end = if s.is_closed then err closed else do
    validate start
    validate end
    periods ← enumerate_periods start end
    limited ← limit_range periods
    gather_len s event limited

  -- The cardinality that the catalog has for a compacted period with a single part.
  part_cardinality : Option Part → Option ℕ
  part_cardinality Option.none = Option.none
  part_cardinality (some part) = some part.cardinality

  unfoldable pub from_part : Store Bitmap → Option ℕ → Result (Option ℕ)
  unfolding part_cardinality
  from_part s Option.none = ok Option.none
  from_part s (some id) = do part ← get_part s.catalog id; ok (part_cardinality part)

  unfoldable pub compacted_cardinality : Store Bitmap → Bytes → Result (Option ℕ)
  unfolding is_compacted only_part from_part
  compacted_cardinality s cat_key = do
    state ← get_period_state s.catalog cat_key
    if not (is_compacted state) then ok Option.none else do
      data_ids ← get_period_parts s.catalog cat_key
      delta_ids ← get_period_deltas s.catalog cat_key
      from_part s (only_part data_ids delta_ids)

  known_cardinality : Store Bitmap → Bytes → Option EventConfig → Result (Option ℕ)
  unfolding compacted_cardinality
  known_cardinality s cat_key Option.none = ok Option.none
  known_cardinality s cat_key (some config) = compacted_cardinality s cat_key

  event_cardinality : Store Bitmap → Bytes → Bytes → Result (Option ℕ)
  unfolding known_cardinality
  event_cardinality s event cat_key = do
    found ← get_event s.catalog event
    known_cardinality s cat_key found

  unfoldable pub fast_cardinality : Store Bitmap → Bytes → Period → Result (Option ℕ)
  unfolding is_some event_cardinality
  fast_cardinality s event period =
      if is_some (get_bitmap R s.writer event period) || is_some (get_delta R s.writer event period)
      then ok Option.none
      else event_cardinality s event (catalog_key event (granularity period) period)

  unfoldable pub len_of : Result Bitmap → Result ℕ
  len_of r = do bm ← r; ok (R.len bm)

  or_merge : Store Bitmap → Bytes → Period → Option ℕ → Result ℕ
  unfolding len_of
  or_merge s event period (some cardinality) = ok cardinality
  or_merge s event period Option.none = len_of (get R s event period)

  unfoldable pub cardinality : Store Bitmap → Bytes → Period → Result ℕ
  unfolding fast_cardinality or_merge
  cardinality s event period =
      if s.is_closed
      then err closed
      else do fast ← fast_cardinality s event period; or_merge s event period fast

  unfoldable pub exists : Store Bitmap → Bytes → Period → Result Bool
  exists s event period = do bm ← get R s event period; ok (not (R.is_empty bm))

  unfoldable pub intersect_cardinality : Store Bitmap → Bytes → Period → Bytes → Period → Result ℕ
  unfolding get_shared
  intersect_cardinality s event_a period_a event_b period_b = do
    a ← get_shared s event_a period_a
    b ← get_shared s event_b period_b
    ok (R.intersection_len a b)

  unfoldable pub union_cardinality : Store Bitmap → Bytes → Period → Bytes → Period → Result ℕ
  unfolding get_shared
  union_cardinality s event_a period_a event_b period_b = do
    a ← get_shared s event_a period_a
    b ← get_shared s event_b period_b
    ok (R.union_len a b)

  unfoldable pub union_many : Store Bitmap → List (Bytes × Period) → Bitmap → Result ℕ
  unfolding get_shared
  union_many s [] acc = ok (R.len acc)
  union_many s ((event, period) ∷ keys) acc = do
    bm ← get_shared s event period
    union_many s keys (R.union acc bm)

  unfoldable pub union_cardinality_many : Store Bitmap → List (Bytes × Period) → Result ℕ
  unfolding union_many
  union_cardinality_many s keys = union_many s keys R.new

  unfoldable pub intersect_many : Store Bitmap → List (Bytes × Period) → Bitmap → Result ℕ
  unfolding get_shared
  intersect_many s [] acc = ok (R.len acc)
  intersect_many s ((event, period) ∷ keys) acc =
      let rest : Result ℕ = (do
        bm ← get_shared s event period
        intersect_many s keys (R.intersection acc bm)) in
      if R.is_empty acc then ok 0 else rest

  unfoldable pub intersect_cardinality_many : Store Bitmap → List (Bytes × Period) → Result ℕ
  unfolding intersect_many
  intersect_cardinality_many s [] = ok 0
  intersect_cardinality_many s ((event, period) ∷ keys) = do
    acc ← get_shared s event period
    intersect_many s keys acc

  unfoldable pub query_cardinality : Store Bitmap → SetExpr → Result ℕ
  unfolding intersect_cardinality union_cardinality len_of
  query_cardinality s (and (ref ea pa) (ref eb pb)) = intersect_cardinality s ea pa eb pb
  query_cardinality s (or (ref ea pa) (ref eb pb)) = union_cardinality s ea pa eb pb
  query_cardinality s expr = len_of (query R (get R s) expr)

  -- `contains_batch`
  unfoldable pub contains_all : Bitmap → List ℕ → List Bool
  contains_all bitmap [] = []
  contains_all bitmap (id ∷ ids) = R.contains bitmap id ∷ contains_all bitmap ids

  unfoldable pub contains_batch : Store Bitmap → Bytes → Period → List ℕ → Result (List Bool)
  unfolding contains_all get_shared
  contains_batch s event period ids =
      if s.is_closed
      then err closed
      else do bitmap ← get_shared s event period; ok (contains_all bitmap ids)
