-- ===== src/Store/Ids/Write.antt =====
-- The writes of src/lib.rs on external ids, and `delete_entity`.
use inoxset.Prelude.{ℕ, ◌%◌, ◌^◌, Bytes, List, [], ◌∷◌, length, if◌then◌else◌}
use inoxset.Types.{Period}
use inoxset.Roaring.{Roaring}
use inoxset.Rollup.{bitmap_of}
use inoxset.Dict.{batch_lookup}
use inoxset.Store.{Settings, Store, check_writable}
use inoxset.Store.Monad.{Action, pure, gets, ◌>>=◌, ◌>>◌}
use inoxset.Store.Write.{put_bitmap, put_bitmap_range, remove_bits, remove_bits_range, is_nil}
use inoxset.Store.Ids.{flatten, assign_ids, forget_id, find_memberships}

module _ (R : Roaring) where
  open R use {Bitmap}

  unfoldable pub put_ids :
      Settings → ℕ → Bytes → Period → List Bytes → Action (Store Bitmap) (Unit {0})
  unfolding assign_ids is_nil
  put_ids c now event period external_ids = do
    check_writable c
    if is_nil external_ids then pure tt else do
      internal_ids ← assign_ids external_ids
      put_bitmap R c now event period (bitmap_of R internal_ids R.new)

  -- Ids that the dictionary does not have are passed over.
  unfoldable pub remove_ids :
      Settings → Bytes → Period → List Bytes → Action (Store Bitmap) (Unit {0})
  unfolding flatten is_nil
  remove_ids c event period external_ids = do
    check_writable c
    if is_nil external_ids then pure tt else do
      bits ← gets (λ s. flatten (batch_lookup s.dict external_ids))
      if is_nil bits then pure tt else remove_bits R c event period bits

  unfoldable pub put_ids_range :
      Settings → ℕ → Bytes → Period → Period → List Bytes → Action (Store Bitmap) (Unit {0})
  unfolding assign_ids is_nil
  put_ids_range c now event first last external_ids = do
    check_writable c
    if is_nil external_ids then pure tt else do
      internal_ids ← assign_ids external_ids
      put_bitmap_range R c now event first last (bitmap_of R internal_ids R.new)

  unfoldable pub remove_ids_range :
      Settings → ℕ → Bytes → Period → Period → List Bytes → Action (Store Bitmap) (Unit {0})
  unfolding flatten is_nil
  remove_ids_range c now event first last external_ids = do
    check_writable c
    if is_nil external_ids then pure tt else do
      bits ← gets (λ s. flatten (batch_lookup s.dict external_ids))
      if is_nil bits then pure tt else remove_bits_range R c now event first last bits

  -- The loop of `delete_entity`.
  unfoldable pub remove_each :
      Settings → Bytes → List (Bytes × Period) → Action (Store Bitmap) (Unit {0})
  unfolding remove_ids
  remove_each c external_id [] = pure tt
  remove_each c external_id ((event, period) ∷ memberships) = do
    remove_ids c event period (external_id ∷ [])
    remove_each c external_id memberships

  -- The count is `memberships.len() as u32`.
  unfoldable pub delete_entity : Settings → Bytes → Action (Store Bitmap) ℕ
  unfolding remove_each forget_id
  delete_entity c external_id = do
    check_writable c
    memberships ← (λ s. (find_memberships R c s external_id, s))
    remove_each c external_id memberships
    forget_id external_id
    pure (length memberships % 2 ^ 32)
