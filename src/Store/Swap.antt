-- ===== src/Store/Swap.antt =====
-- One part in the place of all parts of a key, as `replace_bitmap` and compaction of src/lib.rs write
-- it.
use inoxset.Prelude.{
  ℕ, ◌+◌, ◌<◌, ◌^◌, Bytes, Bool, true, false, not, ◌&&◌, ◌||◌, some, List, [], ◌∷◌, ◌++◌, ◌==◌, ◌≡◌,
  refl, ap, sym, ◌∙◌, Bool-cases, inl, inr, if◌then◌else◌, arith,
}
use inoxset.Prelude.HashMap
use inoxset.Prelude.HashMap.{HashMap, get-insert, get-remove}
use inoxset.Prelude.Eq.{nat_eq, text_eq, text_beq}
use inoxset.Types.{Part}
use inoxset.Error.{ok}
use inoxset.PartStore.{extract_part_id_from_filename}
use inoxset.Roaring.{Roaring, is_among}
use inoxset.Codec.{serialize_u64_vec}
use inoxset.Codec.RoundTrip.{deserialize_u64_vec-serialize}
use inoxset.Catalog.{Catalog, get_part, get_period_parts, get_period_deltas, get_period_state}
use inoxset.Catalog.Txn.{
  ids_of, part_of, txn_get_ids, txn_get_part, txn_set_period_parts, txn_clear_period_deltas,
}
use inoxset.Merge.{Ordered, tag}
use inoxset.Merge.Newest.{has, erased, survives, fresh, distinct}
use inoxset.Store.{Store}
use inoxset.Store.Content.{Content, parts_of, below, below_mono, below-append, shows}
use inoxset.Store.Stored.{ids, AllKept, Stored, read_disk-shows}
use inoxset.Store.Frame.{Adds, AllKept-old, AllKept-middle}
use inoxset.Store.Disk.{read_disk}
use inoxset.Store.Step.{Holds, Readable}
use inoxset.Store.Replace.{delete_parts}

-- None of the ids is a part's.
unfoldable pub is_apart : {B : Type 0} → List ℕ → List (Ordered B) → Bool
is_apart l [] = true
is_apart l (p ∷ m) = not (is_among p.id l) && is_apart l m

get-delete_parts :
    (l : List ℕ) (db : HashMap ℕ Bytes) (j : ℕ)
    → is_among j l ≡ false
    → HashMap.get (delete_parts l db) j ≡ HashMap.get db j
unfolding delete_parts is_among
get-delete_parts [] db j h = refl
get-delete_parts (i ∷ l) db j h =
    get-delete_parts l (HashMap.remove db i) j (ground arith) ∙ ground (arith, get-remove db i j)

-- An id above those of all parts is not among theirs.
is_among-below :
    {B : Type 0} (d : Bool) (l : List (ℕ × B)) (i : ℕ)
    → below i (tag d l) ≡ true
    → is_among i (ids l) ≡ false
unfolding below tag ids is_among
is_among-below d [] i h = refl
is_among-below d ((j, b) ∷ l) i h = ground (arith, is_among-below d l i)

is_among-append : (i : ℕ) (l m : List ℕ) → is_among i (l ++ m) ≡ (is_among i l || is_among i m)
unfolding is_among
is_among-append i [] m = refl
is_among-append i (j ∷ l) m = ground (arith, is_among-append i l m)

module _ (R : Roaring) where
  open R use {Bitmap, contains}

  -- The ids of the parts.
  abbrev pub all_ids : Content Bitmap → List ℕ
  all_ids c = ids c.data_parts ++ ids c.delta_parts

  -- The part with the bitmap alone.
  abbrev pub single : ℕ → Bitmap → Content Bitmap
  single id b = record { data_parts = (id, b) ∷ []; delta_parts = [] }

  unfoldable pub replaced : (Bytes → Content Bitmap) → Bytes → ℕ → Bitmap → Bytes → Content Bitmap
  replaced a key id b j = if text_beq key j then single id b else a j

  single-shows : (id : ℕ) (b : Bitmap) (x : ℕ) → shows R x (single id b) ≡ contains b x
  unfolding shows survives erased has tag
  single-shows id b x = ground arith

  replaced-shows :
      (a : Bytes → Content Bitmap) (key j : Bytes) (id : ℕ) (b : Bitmap) (x : ℕ)
      → shows R x (replaced a key id b j)
        ≡ (if text_beq key j then contains b x else shows R x (a j))
  unfolding replaced
  replaced-shows a key j id b x = elim (Bool-cases (text_beq key j)) [
    | inl e ↦ rw e (single-shows id b x)
    | inr e ↦ rw e refl
  ]

  -- The parts stay where the catalog finds the same for each id that is not removed.
  AllKept-delete :
      (cat cat' : Catalog) (files : HashMap Bytes Bitmap) (l : List ℕ) (m : List (Ordered Bitmap))
      → ((j : ℕ) → is_among j l ≡ false → get_part cat' j ≡ get_part cat j)
      → is_apart l m ≡ true
      → AllKept R cat files m
      → AllKept R cat' files m
  unfolding AllKept is_apart
  AllKept-delete cat cat' files l [] same h k = tt
  AllKept-delete cat cat' files l (p ∷ m) same h (k, r) = (
    record {
      part = k.part;
      found = same p.id (ground arith) ∙ k.found;
      reads = k.reads;
      named = k.named;
      own_id = k.own_id;
    },
    AllKept-delete cat cat' files l m same (ground arith) r,
  )

  -- Every id that the key has is its own.
  abbrev pub IsApart : (Bytes → Content Bitmap) → Bytes → Type 0
  IsApart a key =
      (j : Bytes) → text_beq key j ≡ false → is_apart (all_ids (a key)) (parts_of (a j)) ≡ true

  module _ (part : Part) (b : Bitmap) (key : Bytes) (s : Store Bitmap) (a : Bytes → Content Bitmap)
      (holds : Holds R s a part.part_id) (u : part.part_id < 2 ^ 64)
      (named : extract_part_id_from_filename part.file_path ≡ some part.part_id)
      (apart : IsApart a key) where
    abbrev id : ℕ
    id = part.part_id

    stored : (j : Bytes) → Stored R s.catalog s.files j (a j) id
    stored = unfold Holds in holds

    unused : is_among id (all_ids (a key)) ≡ false
    unused = ground (
      arith,
      is_among-append id (ids (a key).data_parts) (ids (a key).delta_parts),
      is_among-below false (a key).data_parts id,
      is_among-below true (a key).delta_parts id,
      below-append id (tag false (a key).data_parts) (tag true (a key).delta_parts),
      (stored key).old,
    )

    module _ (parts : HashMap ℕ Bytes)
        (finds : (j : ℕ)
          → txn_get_part parts j
            ≡ (if id == j then ok (some part) else txn_get_part s.catalog.parts j))
        (states : HashMap Bytes Bytes) (readable : (j : Bytes) → Readable states j) where
      abbrev added : Catalog
      added = record s.catalog { parts = parts }

      abbrev pub after : Catalog
      after = record s.catalog {
        parts = delete_parts (all_ids (a key)) parts;
        period_parts = txn_set_period_parts s.catalog.period_parts key (id ∷ []);
        period_deltas = txn_clear_period_deltas s.catalog.period_deltas key;
        period_state = states;
      }

      abbrev pub files : HashMap Bytes Bitmap
      files = HashMap.insert s.files part.file_path b

      Adds-added : Adds R s.catalog added part
      unfolding get_part
      Adds-added = record { finds = finds; named = named }

      finds_kept :
          (j : ℕ) → is_among j (all_ids (a key)) ≡ false → get_part after j ≡ get_part added j
      unfolding get_part txn_get_part
      finds_kept j h = ap part_of (get-delete_parts (all_ids (a key)) parts j h)

      data_lookup :
          (j : Bytes)
          → get_period_parts after j
            ≡ (if text_beq key j then ok (id ∷ []) else get_period_parts s.catalog j)
      unfolding get_period_parts txn_get_ids txn_set_period_parts ids_of
      data_lookup j = elim (Bool-cases (text_beq key j)) [
        | inl e ↦
            rw (get-insert s.catalog.period_parts key j (serialize_u64_vec (id ∷ [])), e)
              (deserialize_u64_vec-serialize (id ∷ []) (u, tt))
        | inr e ↦ rw (get-insert s.catalog.period_parts key j (serialize_u64_vec (id ∷ [])), e) refl
      ]

      delta_lookup :
          (j : Bytes)
          → get_period_deltas after j
            ≡ (if text_beq key j then ok [] else get_period_deltas s.catalog j)
      unfolding get_period_deltas txn_get_ids txn_clear_period_deltas ids_of
      delta_lookup j = elim (Bool-cases (text_beq key j)) [
        | inl e ↦ rw (get-remove s.catalog.period_deltas key j, e) refl
        | inr e ↦ rw (get-remove s.catalog.period_deltas key j, e) refl
      ]

      new-Stored :
          (j : Bytes) → text_beq key j ≡ true → Stored R after files j (single id b) (id + 1)
      unfolding ids tag get_period_state below AllKept
      new-Stored j e = record {
        data_ids = data_lookup j ∙ rw e refl;
        delta_ids = delta_lookup j ∙ rw e refl;
        kept =
            AllKept-delete added after files (all_ids (a key)) (parts_of (single id b)) finds_kept
              (unfold is_apart in rw unused refl)
              (AllKept-middle R s.catalog added s.files part b Adds-added [] [] false refl tt);
        unique = unfold distinct fresh in refl;
        old = unfold below in ground arith;
        state = (readable j).0;
        has_state = (readable j).1;
      }

      kept-Stored : (j : Bytes) → text_beq key j ≡ false → Stored R after files j (a j) (id + 1)
      unfolding get_period_state
      kept-Stored j e = record {
        data_ids = data_lookup j ∙ rw e (stored j).data_ids;
        delta_ids = delta_lookup j ∙ rw e (stored j).delta_ids;
        kept =
            AllKept-delete added after files (all_ids (a key)) (parts_of (a j)) finds_kept
              (apart j e)
              (AllKept-old R s.catalog added s.files part b Adds-added (parts_of (a j))
                (stored j).old (stored j).kept);
        unique = (stored j).unique;
        old = below_mono id (id + 1) (parts_of (a j)) (omega arith) (stored j).old;
        state = (readable j).0;
        has_state = (readable j).1;
      }

      pub swap-Holds :
          Holds R (record s { files = files; catalog = after }) (replaced a key id b) (id + 1)
      unfolding Holds replaced
      swap-Holds j = elim (Bool-cases (text_beq key j)) [
        | inl e ↦ rw e (new-Stored j e)
        | inr e ↦ rw e (kept-Stored j e)
      ]

  -- What `get` reads before and after, without the read index.
  pub replaced-read_disk :
      (s t : Store Bitmap) (a : Bytes → Content Bitmap) (key : Bytes) (id : ℕ) (b : Bitmap)
      (i j : ℕ)
      → Holds R s a i
      → Holds R t (replaced a key id b) j
      → (k : Bytes)
      → (m n : Bitmap) × (read_disk R s.catalog s.files k ≡ ok m)
        × (read_disk R t.catalog t.files k ≡ ok n)
        × ((x : ℕ) → contains m x ≡ shows R x (a k))
        × ((x : ℕ) → contains n x ≡ (if text_beq key k then contains b x else contains m x))
  unfolding Holds
  replaced-read_disk s t a key id b i j h g k =
      let (m, before, bits) = read_disk-shows R s.catalog s.files k (a k) i (h k) in
      let (n, after, new_bits) =
        read_disk-shows R t.catalog t.files k (replaced a key id b k) j (g k) in
      (
        m,
        n,
        before,
        after,
        bits,
        λ x.
            new_bits x
            ∙ replaced-shows a key k id b x
            ∙ ap (λ (v : Bool). if text_beq key k then contains b x else v) (sym (bits x)),
      )
