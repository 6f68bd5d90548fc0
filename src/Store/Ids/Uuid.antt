-- ===== src/Store/Ids/Uuid.antt =====
-- The UUID operations of src/lib.rs.
use inoxset.Prelude.{ℕ, Bytes, Bool, Option, List, [], ◌∷◌, if◌then◌else◌}
use inoxset.Types.{Period}
use inoxset.Error.{Result, ok, err, panic}
use inoxset.Roaring.{Roaring}
use inoxset.Rollup.{bitmap_of}
use inoxset.Dict.{batch_lookup}
use inoxset.Dict.Uuid.{Uuids, to_strings, lookup_uuid, batch_reverse_lookup_uuids}
use inoxset.Store.{Settings, Store, check_writable}
use inoxset.Store.Monad.{Action, pure, gets, ◌>>=◌, ◌>>◌}
use inoxset.Store.Disk.{get}
use inoxset.Store.Write.{put_bitmap, put_bitmap_range, remove_bits, remove_bits_range, is_nil}
use inoxset.Store.Ids.{flatten, assign_ids, find_memberships, contains_id}
use inoxset.Store.Ids.Write.{delete_entity}

module _ (R : Roaring) (U : Uuids) where
  open R use {Bitmap}
  open U use {Uuid, to_string}

  unfoldable pub put_uuids :
      Settings → ℕ → Bytes → Period → List Uuid → Action (Store Bitmap) (Unit {0})
  unfolding assign_ids is_nil to_strings
  put_uuids c now event period ids = do
    check_writable c
    if is_nil ids then pure tt else do
      internal_ids ← assign_ids (to_strings U ids)
      put_bitmap R c now event period (bitmap_of R internal_ids R.new)

  uuids_from : Store Bitmap → Result Bitmap → Result (List Uuid)
  unfolding flatten
  uuids_from s (ok bitmap) = ok (flatten (batch_reverse_lookup_uuids U s.dict (R.iter bitmap)))
  uuids_from s (err e) = err e
  uuids_from s panic = panic

  unfoldable pub get_uuids : Store Bitmap → Bytes → Period → Result (List Uuid)
  unfolding uuids_from
  get_uuids s event period = uuids_from s (get R s event period)

  -- The loop that looks the ids up.
  found_bits : Store Bitmap → List Uuid → List (Option ℕ)
  unfolding lookup_uuid
  found_bits s [] = []
  found_bits s (id ∷ ids) = lookup_uuid U s.dict id ∷ found_bits s ids

  unfoldable pub remove_uuids :
      Settings → Bytes → Period → List Uuid → Action (Store Bitmap) (Unit {0})
  unfolding flatten found_bits is_nil
  remove_uuids c event period ids = do
    check_writable c
    if is_nil ids then pure tt else do
      bits ← gets (λ s. flatten (found_bits s ids))
      if is_nil bits then pure tt else remove_bits R c event period bits

  unfoldable pub put_uuids_range :
      Settings → ℕ → Bytes → Period → Period → List Uuid → Action (Store Bitmap) (Unit {0})
  unfolding assign_ids is_nil to_strings
  put_uuids_range c now event first last ids = do
    check_writable c
    if is_nil ids then pure tt else do
      internal_ids ← assign_ids (to_strings U ids)
      put_bitmap_range R c now event first last (bitmap_of R internal_ids R.new)

  unfoldable pub remove_uuids_range :
      Settings → ℕ → Bytes → Period → Period → List Uuid → Action (Store Bitmap) (Unit {0})
  unfolding flatten is_nil to_strings
  remove_uuids_range c now event first last ids = do
    check_writable c
    if is_nil ids then pure tt else do
      bits ← gets (λ s. flatten (batch_lookup s.dict (to_strings U ids)))
      if is_nil bits then pure tt else remove_bits_range R c now event first last bits

  unfoldable pub delete_entity_uuid : Settings → Uuid → Action (Store Bitmap) ℕ
  delete_entity_uuid c id = delete_entity R c (to_string id)

  unfoldable pub find_memberships_uuid :
      Settings → Store Bitmap → Uuid → Result (List (Bytes × Period))
  find_memberships_uuid c s id = find_memberships R c s (to_string id)

  unfoldable pub contains_uuid : Settings → Store Bitmap → Bytes → Period → Uuid → Result Bool
  contains_uuid c s event period id = contains_id R c s event period (to_string id)
