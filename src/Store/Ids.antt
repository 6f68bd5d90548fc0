-- ===== src/Store/Ids.antt =====
-- The operations of src/lib.rs on external ids. The dictionary and the index are those of the store
-- at the call; what the write of the bitmap then does is `put_bitmap` and `remove_bits`.
pub mod Write
mod Tests
pub mod Uuid
pub mod Found
pub mod Steps
pub mod Seen
pub mod Erase
use inoxset.Prelude.{
  ℕ, Bytes, Bool, true, false, not, ◌&&◌, ◌||◌, Option, some, none, List, [], ◌∷◌, ◌++◌, length,
  if◌then◌else◌,
}
use inoxset.Prelude.HashMap
use inoxset.Prelude.HashMap.{HashMap}
use inoxset.Prelude.Eq.{text_eq, pair_eq, text_beq}
use inoxset.Types.{Period, lex_ltb}
use inoxset.Types.Order.{period_eq}
use inoxset.Error.{Result, ok, err, panic, closed, ◌>>=◌}
use inoxset.Roaring.{Roaring}
use inoxset.MemPart.{Key, MemPart, get_delta, get_bitmap}
use inoxset.Rollup.{bitmap_of}
use inoxset.Dict.{Dict, batch_lookup, batch_reverse_lookup}
use inoxset.Dict
use inoxset.Dict.Batch.{batch_assign_or_get}
use inoxset.Inverted.{InvertedIndex, any_pair}
use inoxset.Inverted
use inoxset.Read.{some_contains, contains_bit}
use inoxset.Store.{Settings, Store, check_writable}
use inoxset.Store.Monad.{Action, pure, lift, gets}
use inoxset.Store.Monad
use inoxset.Store.Disk.{get}
use inoxset.Store.Query.{get_shared}
use inoxset.Store.Write.{put_bitmap, put_bitmap_range, remove_bits, remove_bits_range, is_nil}

-- `into_iter().flatten()`
unfoldable pub flatten {ℓ} : {A : Type ℓ} → List (Option A) → List A
flatten [] = []
flatten (none ∷ l) = flatten l
flatten (some a ∷ l) = a ∷ flatten l

-- `ids.sort()` on texts
insert_text : Bytes → List Bytes → List Bytes
insert_text s [] = s ∷ []
insert_text s (t ∷ ts) = if lex_ltb t s then t ∷ insert_text s ts else s ∷ t ∷ ts

unfoldable pub sort_texts : List Bytes → List Bytes
unfolding insert_text
sort_texts [] = []
sort_texts (s ∷ ts) = insert_text s (sort_texts ts)

-- The pairs of `event_ids`, each with the id that the dictionary has.
add_event_id : Option ℕ → Bytes → List (Bytes × ℕ) → List (Bytes × ℕ)
add_event_id none ev rest = rest
add_event_id (some id) ev rest = (ev, id) ∷ rest

unfoldable pub event_ids : Dict → Bytes → List Bytes → List (Bytes × ℕ)
unfolding add_event_id
event_ids dict external_id [] = []
event_ids dict external_id (ev ∷ names) =
    add_event_id (Dict.lookup dict external_id) ev (event_ids dict external_id names)

settle : {B : Type 0} → Store B → Result (List ℕ × Dict) → Result (List ℕ) × Store B
settle s (ok (ids, dict)) = (ok ids, record s { dict = dict })
settle s (err e) = (err e, s)
settle s panic = (panic, s)

unfoldable pub assign_ids : {B : Type 0} → List Bytes → Action (Store B) (List ℕ)
unfolding settle
assign_ids external_ids s = settle s (batch_assign_or_get s.dict s.dict external_ids)

-- `dict::delete`
unfoldable pub forget_id : {B : Type 0} → Bytes → Action (Store B) (Unit {0})
forget_id external_id s = (ok tt, record s { dict = (Dict.delete s.dict external_id).1 })

module _ (R : Roaring) where
  open R use {Bitmap}

  -- The tombstone of a key hides the id.
  unfoldable pub deltad : MemPart Bitmap → Bytes → Period → ℕ → Bool
  deltad mp event period id = some_contains R (get_delta R mp event period) id

  -- The unflushed puts: the loop over `mp.bitmaps`, for the events that `wanted` takes.
  unfoldable pub add_unflushed :
      MemPart Bitmap
      → (Bytes → Bool)
      → ℕ
      → HashMap Key Bitmap
      → List (Bytes × Period)
      → List (Bytes × Period)
  unfolding deltad
  add_unflushed mp wanted id [] memberships = memberships
  add_unflushed mp wanted id (((ev, period), bm) ∷ bitmaps) memberships =
      add_unflushed mp wanted id bitmaps (
        if wanted ev
          && R.contains bm id
          && not (deltad mp ev period id)
          && not (any_pair memberships ev period)
        then memberships ++ (ev, period) ∷ []
        else memberships)

  -- `memberships.retain`, for the events that `wanted` takes.
  unfoldable pub retain_alive :
      MemPart Bitmap → (Bytes → Bool) → ℕ → List (Bytes × Period) → List (Bytes × Period)
  unfolding deltad
  retain_alive mp wanted id [] = []
  retain_alive mp wanted id ((ev, period) ∷ memberships) =
      let rest = retain_alive mp wanted id memberships in
      if not (wanted ev) || not (deltad mp ev period id) then (ev, period) ∷ rest else rest

  -- The part of `find_memberships` after the lookup in the frozen index.
  frozen_overlay : Option ℕ → MemPart Bitmap → List (Bytes × Period) → List (Bytes × Period)
  unfolding add_unflushed retain_alive
  frozen_overlay none mp memberships = []
  frozen_overlay (some id) mp memberships =
      retain_alive mp (λ ev. true) id (add_unflushed mp (λ ev. true) id mp.bitmaps memberships)

  find_frozen :
      Settings → InvertedIndex Bitmap → Store Bitmap → Bytes → Result (List (Bytes × Period))
  unfolding frozen_overlay
  find_frozen c idx s external_id = do
    maybe ← Inverted.maybe_contains R c.hashing idx external_id
    if not maybe || not (Inverted.definitely_contains R c.hashing idx external_id)
        then ok []
        else (do
          memberships ← Inverted.lookup R c.hashing idx external_id
          ok (frozen_overlay (Dict.lookup s.dict external_id) s.writer memberships))

  -- Phase 2: the keys of one event in the cache.
  unfoldable pub scan_cache : HashMap Key Bitmap → Bytes → ℕ → List (Bytes × Period)
  scan_cache [] event id = []
  scan_cache (((ev, period), bm) ∷ cache) event id =
      let rest = scan_cache cache event id in
      if text_beq ev event && R.contains bm id then (event, period) ∷ rest else rest

  unfoldable pub scan_events : HashMap Key Bitmap → List (Bytes × ℕ) → List (Bytes × Period)
  unfolding scan_cache
  scan_events cache [] = []
  scan_events cache ((event, id) ∷ ids) = scan_cache cache event id ++ scan_events cache ids

  -- Phase 3
  unfoldable pub add_events :
      MemPart Bitmap → List (Bytes × ℕ) → List (Bytes × Period) → List (Bytes × Period)
  unfolding add_unflushed
  add_events mp [] memberships = memberships
  add_events mp ((event, id) ∷ ids) memberships =
      add_events mp ids (add_unflushed mp (λ ev. text_beq ev event) id mp.bitmaps memberships)

  unfoldable pub retain_events :
      MemPart Bitmap → List (Bytes × ℕ) → List (Bytes × Period) → List (Bytes × Period)
  unfolding retain_alive
  retain_events mp [] memberships = memberships
  retain_events mp ((event, id) ∷ ids) memberships =
      retain_events mp ids (retain_alive mp (λ ev. text_beq ev event) id memberships)

  unfoldable pub find_scanning : Store Bitmap → Bytes → List (Bytes × Period)
  unfolding event_ids scan_events add_events retain_events is_nil
  find_scanning s external_id =
      let ids = event_ids s.dict external_id s.event_names in
      if is_nil ids
      then []
      else retain_events s.writer ids (add_events s.writer ids (scan_events s.bitmap_cache ids))

  find_with :
      Option (InvertedIndex Bitmap)
      → Settings
      → Store Bitmap
      → Bytes
      → Result (List (Bytes × Period))
  unfolding find_frozen find_scanning
  find_with (some idx) c s external_id = find_frozen c idx s external_id
  find_with none c s external_id = ok (find_scanning s external_id)

  unfoldable pub find_memberships : Settings → Store Bitmap → Bytes → Result (List (Bytes × Period))
  unfolding find_with
  find_memberships c s external_id =
      if s.is_closed then err closed else find_with s.inverted c s external_id

  -- A hit in the frozen index, which may be stale.
  still_there : Option ℕ → MemPart Bitmap → Bytes → Period → Bool
  unfolding deltad
  still_there none mp event period = false
  still_there (some id) mp event period = not (deltad mp event period id)

  unflushed_there : Option ℕ → MemPart Bitmap → Bytes → Period → Bool
  unfolding deltad
  unflushed_there none mp event period = false
  unflushed_there (some id) mp event period =
      some_contains R (get_bitmap R mp event period) id && not (deltad mp event period id)

  contains_frozen :
      Settings → InvertedIndex Bitmap → Store Bitmap → Bytes → Period → Bytes → Result Bool
  unfolding still_there unflushed_there
  contains_frozen c idx s event period external_id = do
    maybe ← Inverted.maybe_contains R c.hashing idx external_id
    if not maybe || not (Inverted.definitely_contains R c.hashing idx external_id)
        then ok false
        else (do
          found ← Inverted.contains R c.hashing idx external_id event period
          ok (
              if found
              then still_there (Dict.lookup s.dict external_id) s.writer event period
              else unflushed_there (Dict.lookup s.dict external_id) s.writer event period))

  unfoldable pub bit_there : Option ℕ → Store Bitmap → Bytes → Period → Bool
  bit_there none s event period = false
  bit_there (some id) s event period =
      contains_bit R (HashMap.get s.bitmap_cache (event, period)) s.writer event period id

  contains_with :
      Option (InvertedIndex Bitmap) → Settings → Store Bitmap → Bytes → Period → Bytes → Result Bool
  unfolding contains_frozen bit_there
  contains_with (some idx) c s event period external_id =
      contains_frozen c idx s event period external_id
  contains_with none c s event period external_id =
      ok (bit_there (Dict.lookup s.dict external_id) s event period)

  unfoldable pub contains_id : Settings → Store Bitmap → Bytes → Period → Bytes → Result Bool
  unfolding contains_with
  contains_id c s event period external_id =
      if s.is_closed then err closed else contains_with s.inverted c s event period external_id

  find_each : Settings → Store Bitmap → List Bytes → Result (List (List (Bytes × Period)))
  find_each c s [] = ok []
  find_each c s (id ∷ external_ids) = do
    found ← find_memberships c s id
    results ← find_each c s external_ids
    ok (found ∷ results)

  unfoldable pub find_memberships_batch :
      Settings → Store Bitmap → List Bytes → Result (List (List (Bytes × Period)))
  unfolding find_each
  find_memberships_batch c s external_ids =
      if s.is_closed then err closed else find_each c s external_ids

  present_in : Bitmap → Option ℕ → Bool
  present_in bitmap none = false
  present_in bitmap (some id) = R.contains bitmap id

  unfoldable pub contains_each : Dict → Bitmap → List Bytes → List Bool
  unfolding present_in
  contains_each dict bitmap [] = []
  contains_each dict bitmap (id ∷ external_ids) =
      present_in bitmap (Dict.lookup dict id) ∷ contains_each dict bitmap external_ids

  unfoldable pub contains_ids_batch :
      Store Bitmap → Bytes → Period → List Bytes → Result (List Bool)
  unfolding contains_each
  contains_ids_batch s event period external_ids =
      if s.is_closed
      then err closed
      else do bitmap ← get_shared R s event period; ok (contains_each s.dict bitmap external_ids)

  unfoldable pub get_ids : Store Bitmap → Bytes → Period → Result (List Bytes)
  unfolding flatten
  get_ids s event period = do
    bitmap ← get R s event period
    ok (flatten (batch_reverse_lookup s.dict (R.iter bitmap)))

  unfoldable pub export_ids : Store Bitmap → Bytes → Period → Result (List Bytes)
  unfolding get_ids sort_texts
  export_ids s event period = do ids ← get_ids s event period; ok (sort_texts ids)
