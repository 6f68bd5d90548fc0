-- ===== src/Store/Loop.antt =====
-- The loops of `flush_snapshot` of src/lib.rs over the entries of a snapshot.
use inoxset.Prelude.{
  ℕ, suc, ◌+◌, ◌<◌, ◌^◌, Bytes, some, [], ◌∷◌, length, ◌≡◌, refl, ap, subst, ◌∙◌, arith,
}
use inoxset.Prelude.HashMap
use inoxset.Prelude.HashMap.{HashMap}
use inoxset.Prelude.Eq.{text_eq}
use inoxset.Types.{EventConfig}
use inoxset.Error.{ok}
use inoxset.Period.{granularity, catalog_key}
use inoxset.Roaring.{Roaring}
use inoxset.MemPart.{Key}
use inoxset.Catalog.Txn.{range}
use inoxset.Store.{Store}
use inoxset.Store.Monad.{Action}
use inoxset.Store.Content.{Content}
use inoxset.Store.Step.{Rest, Holds}
use inoxset.Store.Flush.{flush_entries}

abbrev pub key_of : Key → Bytes
key_of (event, period) = catalog_key event (granularity period) period

same_range : (m n i j : ℕ) → m ≡ n → i ≡ j → range i m ≡ range j n
same_range m n i j e f = cc

module _ (R : Roaring) where
  open R use {Bitmap}

  pub Rest-trans : {s t u : Store Bitmap} → Rest R s t → Rest R t u → Rest R s u
  Rest-trans a b = record {
    counter = b.counter ∙ a.counter;
    writer = b.writer ∙ a.writer;
    is_closed = b.is_closed ∙ a.is_closed;
  }

  -- The parts of each key after the entries, whose ids start at `id`.
  unfoldable pub add_all :
      ((Bytes → Content Bitmap) → Bytes → ℕ → Bitmap → Bytes → Content Bitmap)
      → (Bytes → Content Bitmap)
      → HashMap Key Bitmap
      → ℕ
      → Bytes
      → Content Bitmap
  add_all add a [] id = a
  add_all add a ((k, b) ∷ entries) id = add_all add (add a (key_of k) id b) entries (id + 1)

  -- Every entry's event has a configuration, with which the entry can be written.
  unfoldable pub AllReady :
      (EventConfig → Key → ℕ → Bitmap → Type 0)
      → HashMap Bytes EventConfig
      → HashMap Key Bitmap
      → ℕ
      → Type 0
  AllReady IsReady configs [] id = Unit
  AllReady IsReady configs ((k, b) ∷ entries) id =
      ((config : EventConfig) × (HashMap.get configs k.0 ≡ some config) × IsReady config k id b)
      × AllReady IsReady configs entries (id + 1)

  module _ (write : EventConfig → Key → ℕ → Bitmap → Action (Store Bitmap) (Unit {0}))
      (add : (Bytes → Content Bitmap) → Bytes → ℕ → Bitmap → Bytes → Content Bitmap)
      (IsReady : EventConfig → Key → ℕ → Bitmap → Type 0) (configs : HashMap Bytes EventConfig)
      (step : (config : EventConfig) (k : Key) (id : ℕ) (b : Bitmap) (s : Store Bitmap)
          (a : Bytes → Content Bitmap)
        → Holds R s a id
        → id < 2 ^ 64
        → IsReady config k id b
        → (t : Store Bitmap) × (write config k id b s ≡ (ok tt, t))
          × Holds R t (add a (key_of k) id b) (id + 1)
          × Rest R s t) where
    pub flush_entries-Holds :
        (entries : HashMap Key Bitmap) (count id : ℕ) (s : Store Bitmap)
        (a : Bytes → Content Bitmap)
        → Holds R s a id
        → id + length entries + count < 2 ^ 64
        → AllReady IsReady configs entries id
        → (t : Store Bitmap) × (flush_entries R write configs entries
              (range id (length entries + count))
              s
            ≡ (ok (range (id + length entries) count), t))
          × Holds R t (add_all add a entries id) (id + length entries)
          × Rest R s t
    unfolding flush_entries range add_all AllReady
    flush_entries-Holds [] count id s a h u r = (
      s,
      ap (λ n. (ok n, s)) (same_range (0 + count) count id (id + 0) (omega arith) (omega arith)),
      subst (λ n. Holds R s a n) (omega arith) h,
      record { counter = refl; writer = refl; is_closed = refl },
    )
    flush_entries-Holds ((k, b) ∷ entries) count id s a h u ((config, found, ready), r) =
        let (t, e, held, rest) = step config k id b s a h (omega arith) ready in
        let (v, f, holds, left) =
          flush_entries-Holds entries count (id + 1) t (add a (key_of k) id b) held (omega arith)
            r in
        let total : length ((k, b) ∷ entries) + count ≡ suc (length entries + count) =
          omega arith in
        let last : id + length ((k, b) ∷ entries) ≡ id + 1 + length entries = omega arith in
        (v, rw (total, last) (rw (found, e) f), rw last holds, Rest-trans rest left)
