-- ===== src/Store/Stored.antt =====
-- What it is for the catalog and the files to hold the parts of a key, and what `get` reads then.
use inoxset.Prelude.{
  ℕ, Bytes, Bool, true, false, Option, some, List, [], ◌∷◌, ◌++◌, ◌≡◌, refl, ap, sym, ◌∙◌, ltb,
  if◌then◌else◌, arith,
}
use inoxset.Prelude.HashMap.{HashMap}
use inoxset.Prelude.Eq.{nat_eq, text_eq}
use inoxset.Types.{Part, PeriodState}
use inoxset.Error.{ok}
use inoxset.Roaring.{Roaring}
use inoxset.PartStore.{extract_part_id_from_filename}
use inoxset.Catalog.{Catalog, get_part, get_period_parts, get_period_deltas, get_period_state}
use inoxset.Merge.{Ordered, tag, insert_by_id, sort_by_id, apply_part}
use inoxset.Merge.Newest.{distinct}
use inoxset.Merge.Bits.{fold_bits, sort_by_id-bits}
use inoxset.Store.Index.{mmap_read_part}
use inoxset.Store.Disk.{tag_ids, fold_ids, read_disk}
use inoxset.Store.Content.{Content, parts_of, below, shows}

-- The ids of a list of parts, and the parts without their bitmaps.
unfoldable pub ids : {B : Type 0} → List (ℕ × B) → List ℕ
ids [] = []
ids ((id, b) ∷ l) = id ∷ ids l

unfoldable pub forget : {B : Type 0} → List (Ordered B) → List (Ordered (Unit {0}))
forget [] = []
forget (p ∷ l) = record { id = p.id; is_delta = p.is_delta; path = tt } ∷ forget l

module _ {B : Type 0} where
  forget-append : (l m : List (Ordered B)) → forget (l ++ m) ≡ forget l ++ forget m
  unfolding forget
  forget-append [] m = refl
  forget-append (p ∷ l) m =
      ap (λ t. record { id = p.id; is_delta = p.is_delta; path = tt } ∷ t) (forget-append l m)

  forget-tag : (d : Bool) (l : List (ℕ × B)) → tag_ids d (ids l) ≡ forget (tag d l)
  unfolding forget tag tag_ids ids
  forget-tag d [] = refl
  forget-tag d ((id, b) ∷ l) =
      ap (λ t. record { id = id; is_delta = d; path = tt } ∷ t) (forget-tag d l)

  forget-insert_by_id :
      (p : Ordered B) (l : List (Ordered B))
      → insert_by_id (record { id = p.id; is_delta = p.is_delta; path = tt }) (forget l)
        ≡ forget (insert_by_id p l)
  unfolding forget insert_by_id
  forget-insert_by_id p [] = refl
  forget-insert_by_id p (q ∷ l) = ground (arith, forget-insert_by_id p l)

  forget-sort_by_id : (l : List (Ordered B)) → sort_by_id (forget l) ≡ forget (sort_by_id l)
  unfolding forget sort_by_id
  forget-sort_by_id [] = refl
  forget-sort_by_id (p ∷ l) =
      ap (λ t. insert_by_id (record { id = p.id; is_delta = p.is_delta; path = tt }) t)
        (forget-sort_by_id l)
      ∙ forget-insert_by_id p (sort_by_id l)

module _ (R : Roaring) where
  open R use {Bitmap, contains}

  -- The catalog has a record for the id, and its file holds the bitmap.
  pub record IsKept (cat : Catalog) (files : HashMap Bytes Bitmap) (id : ℕ) (b : Bitmap)
      : Type 0 where
    pub part : Part
    pub found : get_part cat id ≡ ok (some part)
    pub reads : mmap_read_part R files part.file_path ≡ ok b
    pub named : extract_part_id_from_filename part.file_path ≡ some id
    pub own_id : part.part_id ≡ id

  unfoldable pub AllKept : Catalog → HashMap Bytes Bitmap → List (Ordered Bitmap) → Type 0
  AllKept cat files [] = Unit
  AllKept cat files (p ∷ l) = IsKept cat files p.id p.path × AllKept cat files l

  -- The store holds the parts `c` of a key, with ids below `bound`.
  pub record Stored (cat : Catalog) (files : HashMap Bytes Bitmap) (key : Bytes)
      (c : Content Bitmap) (bound : ℕ) : Type 0 where
    pub data_ids : get_period_parts cat key ≡ ok (ids c.data_parts)
    pub delta_ids : get_period_deltas cat key ≡ ok (ids c.delta_parts)
    pub kept : AllKept cat files (parts_of c)
    pub unique : distinct (parts_of c) ≡ true
    pub old : below bound (parts_of c) ≡ true
    pub state : Option PeriodState
    pub has_state : get_period_state cat key ≡ ok state

  module _ (cat : Catalog) (files : HashMap Bytes Bitmap) where
    choose :
        (l m : List (Ordered Bitmap)) (c : Bool)
        → AllKept cat files l
        → AllKept cat files m
        → AllKept cat files (if c then l else m)
    choose l m true h k = h
    choose l m false h k = k

    insert_by_id-AllKept :
        (p : Ordered Bitmap) (l : List (Ordered Bitmap))
        → AllKept cat files (p ∷ l)
        → AllKept cat files (insert_by_id p l)
    unfolding AllKept insert_by_id
    insert_by_id-AllKept p [] h = h
    insert_by_id-AllKept p (q ∷ l) (h, (k, r)) =
        choose (q ∷ insert_by_id p l) (p ∷ q ∷ l) (ltb q.id p.id)
          (k, insert_by_id-AllKept p l (h, r)) (h, (k, r))

    sort_by_id-AllKept :
        (l : List (Ordered Bitmap)) → AllKept cat files l → AllKept cat files (sort_by_id l)
    unfolding AllKept sort_by_id
    sort_by_id-AllKept [] h = h
    sort_by_id-AllKept (p ∷ l) (h, r) =
        insert_by_id-AllKept p (sort_by_id l) (h, sort_by_id-AllKept l r)

    fold_ids-fold_bits :
        (l : List (Ordered Bitmap)) (acc : Bitmap)
        → AllKept cat files l
        → fold_ids R cat files (forget l) acc ≡ ok (fold_bits R (λ p. p.path) l acc)
    unfolding AllKept forget fold_ids fold_bits
    fold_ids-fold_bits [] acc h = refl
    fold_ids-fold_bits (p ∷ l) acc (h, r) =
        rw (h.found, h.reads) (fold_ids-fold_bits l (apply_part R p.is_delta acc p.path) r)

    -- `get` without the read index folds the parts in the order of their ids.
    pub read_disk-fold_bits :
        (key : Bytes) (c : Content Bitmap) (bound : ℕ)
        → Stored cat files key c bound
        → read_disk R cat files key ≡ ok (fold_bits R (λ p. p.path) (sort_by_id (parts_of c)) R.new)
    unfolding read_disk
    read_disk-fold_bits key c bound s =
        rw
          (
            s.data_ids,
            s.delta_ids,
            forget-tag false c.data_parts,
            forget-tag true c.delta_parts,
            sym (forget-append (tag false c.data_parts) (tag true c.delta_parts)),
            forget-sort_by_id (parts_of c),
          )
          (fold_ids-fold_bits (sort_by_id (parts_of c)) R.new
            (sort_by_id-AllKept (parts_of c) s.kept))

    -- The bitmap that it returns has the bits shown by the parts.
    pub read_disk-shows :
        (key : Bytes) (c : Content Bitmap) (bound : ℕ)
        → Stored cat files key c bound
        → (m : Bitmap) × (read_disk R cat files key ≡ ok m) × ((x : ℕ) → contains m x ≡ shows R x c)
    unfolding shows
    read_disk-shows key c bound s = (
      fold_bits R (λ p. p.path) (sort_by_id (parts_of c)) R.new,
      read_disk-fold_bits key c bound s,
      λ x. sort_by_id-bits R (λ p. p.path) (parts_of c) x s.unique,
    )

  -- The parts do not depend on the counter of ids.
  module _ (cat : Catalog) (files : HashMap Bytes Bitmap) (counter : Option ℕ) where
    abbrev moved : Catalog
    moved = record cat { next_part_id = counter }

    AllKept-counter : (l : List (Ordered Bitmap)) → AllKept cat files l → AllKept moved files l
    unfolding AllKept
    AllKept-counter [] h = tt
    AllKept-counter (p ∷ l) (k, r) = (
      record {
        part = k.part;
        found = unfold get_part in k.found;
        reads = k.reads;
        named = k.named;
        own_id = k.own_id;
      },
      AllKept-counter l r,
    )

    pub Stored-counter :
        (key : Bytes) (c : Content Bitmap) (bound : ℕ)
        → Stored cat files key c bound
        → Stored moved files key c bound
    Stored-counter key c bound s = record {
      data_ids = unfold get_period_parts in s.data_ids;
      delta_ids = unfold get_period_deltas in s.delta_ids;
      kept = AllKept-counter (parts_of c) s.kept;
      unique = s.unique;
      old = s.old;
      state = s.state;
      has_state = unfold get_period_state in s.has_state;
    }
