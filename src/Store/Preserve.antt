-- ===== src/Store/Preserve.antt =====
-- `get` of src/lib.rs before and after the transaction of `flush`, for keys without an entry in the
-- read index.
use inoxset.Prelude.{
  ℕ, ◌+◌, ◌<◌, ◌^◌, Bytes, Bool, true, false, not, ◌&&◌, ◌||◌, Option, none, some, [], ◌∷◌, length,
  ◌≡◌, refl, ap, sym, subst, ◌∙◌, if◌then◌else◌, arith,
}
use inoxset.Prelude.HashMap
use inoxset.Prelude.HashMap.{HashMap}
use inoxset.Prelude.Eq.{Eq, text_eq, text_beq, text_beq_iff, pair_eq}
use inoxset.Types.{PartKind, EventConfig}
use inoxset.Types.Order.{period_eq}
use inoxset.Error.{ok}
use inoxset.Error.Names.{IsName}
use inoxset.Period.{granularity}
use inoxset.Period.Valid.{IsValid, year_of}
use inoxset.Period.CatalogKey.{catalog_key_inj}
use inoxset.Roaring.{Roaring}
use inoxset.MemPart.{Key, MemPart, MemPartSnapshot, take_snapshot, new, get_bitmap, get_delta}
use inoxset.MemPart.Content.{holds, holds_in, added, removed, same_key, same_key_iff}
use inoxset.Rollup.View.{visible}
use inoxset.Read.{or_some, minus_some}
use inoxset.Catalog.Txn.{or_one}
use inoxset.Store.{Settings, Store}
use inoxset.Store.Content.{Content}
use inoxset.Store.Disk.{get_from}
use inoxset.Store.Flush.{commit_snapshot}
use inoxset.Store.Step.{Holds}
use inoxset.Store.Loop.{key_of, AllReady}
use inoxset.Store.Commit.{IsReady, IsConsistent, written, commit_snapshot-read_disk}

-- A key with a catalog key of its own: a name that is accepted, and a valid period of a year up
-- to 9999.
pub record IsProper (k : Key) : Type 0 where
  pub name : IsName k.0
  pub valid : IsValid k.1
  pub year : year_of k.1 < 10000

key_of_inj : (j k : Key) → IsProper j → IsProper k → key_of j ≡ key_of k → j ≡ k
key_of_inj (e, p) (f, q) h g same =
    let (a, b, c) =
      catalog_key_inj e f (granularity p) (granularity q) p q h.name g.name h.valid g.valid h.year
        g.year same in
    cc

module _ {B : Type 0} where
  -- No entry has the key.
  unfoldable pub absent : Key → HashMap Key B → Bool
  absent k [] = true
  absent k ((j, b) ∷ m) = not (same_key j k) && absent k m

  -- The keys are proper, and different.
  unfoldable pub AllProper : HashMap Key B → Type 0
  AllProper [] = Unit
  AllProper ((k, b) ∷ m) = IsProper k × (absent k m ≡ true) × AllProper m

same_catalog_key :
    (j k : Key) → IsProper j → IsProper k → text_beq (key_of j) (key_of k) ≡ same_key j k
same_catalog_key j k h g = ground (
  arith,
  text_beq_iff (key_of j) (key_of k),
  same_key_iff j k,
  key_of_inj j k h g,
  ap key_of {x = j} {y = k},
)

module _ (R : Roaring) where
  open R use {Bitmap, contains, contains-union, contains-difference}

  absent-written :
      (x : ℕ) (k : Key) (m : HashMap Key Bitmap)
      → IsProper k
      → AllProper m
      → absent k m ≡ true
      → written R x m (key_of k) ≡ false
  unfolding written absent AllProper
  absent-written x k [] g h a = refl
  absent-written x k ((j, b) ∷ m) g (h, n, r) a =
      ground (arith, same_catalog_key j k h g, absent-written x k m g r)

  holds_if :
      (c : Bool) (b : Bitmap) (o : Option Bitmap) (x : ℕ)
      → holds R (if c then some b else o) x ≡ (if c then contains b x else holds R o x)
  unfolding holds
  holds_if true b o x = refl
  holds_if false b o x = refl

  holds_in-cons :
      (j k : Key) (b : Bitmap) (m : HashMap Key Bitmap) (x : ℕ)
      → holds_in R ((j, b) ∷ m) k x ≡ (if same_key j k then contains b x else holds_in R m k x)
  unfolding holds_in HashMap.get same_key
  holds_in-cons j k b m x = holds_if (Eq.beq pair_eq j k) b (HashMap.get m k) x

  -- For proper keys, a bit written under the catalog key of `k` is in the entry of `k`.
  written-holds_in :
      (x : ℕ) (k : Key) (m : HashMap Key Bitmap)
      → IsProper k
      → AllProper m
      → written R x m (key_of k) ≡ holds_in R m k x
  unfolding written AllProper
  written-holds_in x k [] g h = unfold holds_in holds HashMap.get in refl
  written-holds_in x k ((j, b) ∷ m) g (h, n, r) =
      ground (
        arith,
        same_catalog_key j k h g,
        holds_in-cons j k b m x,
        written-holds_in x k m g r,
        other,
      )
    where
      other : same_key j k ≡ true → written R x m (key_of k) ≡ false
      other e = absent-written x k m g r (subst (λ i. absent i m ≡ true) ((same_key_iff j k).0 e) n)

  read_bits :
      (disk : Bitmap) (mp : MemPart Bitmap) (k : Key) (x : ℕ)
      → contains
          (minus_some R (or_some R disk (get_bitmap R mp k.0 k.1)) (get_delta R mp k.0 k.1))
          x
        ≡ visible R (contains disk x) mp k x
  unfolding visible added removed holds_in get_bitmap get_delta
  read_bits disk mp k x = both (HashMap.get mp.bitmaps k) (HashMap.get mp.deltas k)
    where
      both :
          (b d : Option Bitmap)
          → contains (minus_some R (or_some R disk b) d) x
            ≡ ((contains disk x || holds R b x) && not (holds R d x))
      both none none = unfold minus_some or_some holds in ground arith
      both none (some d) =
          unfold minus_some or_some holds in ground (arith, contains-difference disk d x)
      both (some b) none =
          unfold minus_some or_some holds in ground (arith, contains-union disk b x)
      both (some b) (some d) =
          unfold minus_some or_some holds in
          ground (arith, contains-union disk b x, contains-difference (R.union disk b) d x)

  visible-new : (base : Bool) (k : Key) (x : ℕ) → visible R base (new R) k x ≡ base
  unfolding visible added removed holds_in holds HashMap.get new
  visible-new base k x = ground arith

  module _ (c : Settings) (now : ℕ) (configs : HashMap Bytes EventConfig) (s : Store Bitmap)
      (a : Bytes → Content Bitmap) (consistent : IsConsistent R s a)
      (proper_bitmaps : AllProper s.writer.bitmaps) (proper_deltas : AllProper s.writer.deltas)
      (room : or_one s.catalog.next_part_id + length s.writer.bitmaps + length s.writer.deltas
        < 2 ^ 64)
      (data_ready : AllReady R
        (IsReady R c now PartKind.additive)
        configs
        s.writer.bitmaps
        (or_one s.catalog.next_part_id))
      (delta_ready : AllReady R
        (IsReady R c now PartKind.delta)
        configs
        s.writer.deltas
        (or_one s.catalog.next_part_id + length s.writer.bitmaps)) where
    -- The store that `flush_internal` writes the snapshot to.
    abbrev emptied : Store Bitmap
    emptied = record s { writer = new R }

    abbrev snapshot : MemPartSnapshot Bitmap
    snapshot = record {
      bitmaps = s.writer.bitmaps;
      deltas = s.writer.deltas;
      size_bytes = s.writer.size_bytes;
    }

    flushed_visible :
        (m : Bitmap) (k : Key) (x : ℕ)
        → IsProper k
        → ((contains m x || written R x s.writer.bitmaps (key_of k))
            && not (written R x s.writer.deltas (key_of k)))
          ≡ visible R (contains m x) s.writer k x
    unfolding visible added removed
    flushed_visible m k x g =
        rw
          (
            written-holds_in x k s.writer.bitmaps g proper_bitmaps,
            written-holds_in x k s.writer.deltas g proper_deltas,
          )
          refl

    -- The transaction of a flush succeeds on the emptied buffer, and for every proper key without an
    -- entry in the read index `get` gives a bitmap before and after it, with the same bits.
    pub commit_snapshot-get :
        (t : Store Bitmap) × (commit_snapshot R c now configs
            (take_snapshot R s.writer).1
            (record s { writer = (take_snapshot R s.writer).0 })
          ≡ (ok tt, t))
        × ((k : Key)
            → IsProper k
            → (m n : Bitmap) × (get_from R none s k.0 k.1 ≡ ok m)
              × (get_from R none t k.0 k.1 ≡ ok n)
              × ((x : ℕ) → contains n x ≡ contains m x))
    unfolding take_snapshot
    commit_snapshot-get =
        let (t, e, w, reads) =
          commit_snapshot-read_disk R c now configs snapshot emptied a
            (unfold IsConsistent Holds in consistent) room data_ready delta_ready in
        (
          t,
          e,
          λ k g.
              let (m, n, before, after, bits) = reads (key_of k) in
              (
                minus_some R (or_some R m (get_bitmap R s.writer k.0 k.1))
                    (get_delta R s.writer k.0 k.1),
                minus_some R (or_some R n (get_bitmap R t.writer k.0 k.1))
                    (get_delta R t.writer k.0 k.1),
                unfold get_from in rw before refl,
                unfold get_from in rw after refl,
                λ x.
                    read_bits n t.writer k x
                    ∙ ap (λ mp. visible R (contains n x) mp k x) w
                    ∙ visible-new (contains n x) k x
                    ∙ bits x
                    ∙ flushed_visible m k x g
                    ∙ sym (read_bits m s.writer k x),
              ),
        )
