-- ===== src/Inverted.antt =====
-- src/inverted.rs: the frozen inverted index, from the hash of an external id to its memberships.
-- `FxHasher` and `DefaultHasher` are libraries and the parameters of the Bloom filter come from
-- floats, so the three are fields of `Hashing`, and so is `sort_unstable_by_key`, of which it is known
-- that it sorts by the hash and that it permutes the rows. The `u32` counts and offsets wrap around.
pub mod Rows
pub mod Instance
pub mod Group
pub mod Found
mod Tests
use mathlib.Core.List.{Permᴰ}
use inoxset.Prelude.{
  ℕ, zero, suc, ◌+◌, ◌%◌, ◌^◌, ◌<◌, Bytes, Bool, true, false, ◌&&◌, ◌||◌, Option, none, some, List,
  [], ◌∷◌, ◌++◌, length, get_elem?, take, drop, leb, ltb, ◌==◌, ◌≡◌, if◌then◌else◌,
}
use inoxset.Prelude.Eq.{text_beq}
use inoxset.Types.{Period, period_beq, inline, event_id, period_id}
use inoxset.Error.{Result, ok, panic, ◌>>=◌}
use inoxset.Roaring.{Roaring}
use inoxset.Bloom.{BloomFilter, with_capacity}
use inoxset.Bloom
use inoxset.PartStore.Search.{Probe, probe_of, search}

-- A staged row.
pub record Row : Type 0 where
  pub h64 : ℕ
  pub h32 : ℕ
  pub ext_bytes : Bytes
  pub event_id : ℕ
  pub period_id : ℕ

-- The hashes are at least `lo`, and do not fall.
unfoldable pub sorted_from : ℕ → List Row → Bool
sorted_from lo [] = true
sorted_from lo (r ∷ rows) = leb lo r.h64 && sorted_from r.h64 rows

pub record Hashing : Type 0 where
  pub fx_hash64 : Bytes → ℕ
  pub base_hashes : Bytes → ℕ × ℕ
  -- `optimal_params` at the rate 0.01; it returns at least 64 bits.
  pub optimal_params : ℕ → ℕ × ℕ
  pub num_bits_positive : (n : ℕ) → 0 < (optimal_params n).0
  -- `sort_unstable_by_key(|r| r.0)`, which may move rows of one hash past each other.
  pub sort_unstable_by_key : List Row → List Row
  pub sorts : (rows : List Row) → sorted_from 0 (sort_unstable_by_key rows) ≡ true
  pub permutes : (rows : List Row) → Permᴰ (sort_unstable_by_key rows) rows

unfoldable pub fx_hash32 : Hashing → Bytes → ℕ
fx_hash32 h s = h.fx_hash64 s % 2 ^ 32

pub record IndexEntry : Type 0 where
  pub id_hash : ℕ
  pub offset : ℕ
  pub count : ℕ

pub record InvertedMeta : Type 0 where
  pub event_names : List Bytes
  pub periods : List Period

pub record InvertedIndex (B : Type 0) : Type 0 where
  pub entries : List IndexEntry
  pub memberships : List ℕ
  pub bloom : BloomFilter
  pub known_hashes : B
  pub meta : InvertedMeta

pub record InvertedIndexBuilder : Type 0 where
  pub meta : InvertedMeta
  pub raw : List Row

-- `InvertedIndexBuilder::new`
unfoldable pub new_builder : List Bytes → List Period → InvertedIndexBuilder
new_builder event_names periods = record {
  meta = record { event_names = event_names; periods = periods };
  raw = [];
}

unfoldable pub add : Hashing → InvertedIndexBuilder → Bytes → ℕ → ℕ → InvertedIndexBuilder
unfolding fx_hash32
add h b external_id event_id period_id = record b {
  raw =
      b.raw
      ++ record {
        h64 = h.fx_hash64 external_id;
        h32 = fx_hash32 h external_id;
        ext_bytes = external_id;
        event_id = event_id;
        period_id = period_id;
      }
        ∷ [];
}

is_new : Option ℕ → ℕ → Bool
is_new none h = true
is_new (some p) h = if p == h then false else true

-- The number of distinct hashes of sorted rows.
unfoldable pub distinct_hashes : Option ℕ → List Row → ℕ
unfolding is_new
distinct_hashes prev [] = 0
distinct_hashes prev (r ∷ rows) =
    let rest = distinct_hashes (some r.h64) rows in if is_new prev r.h64 then rest + 1 else rest

-- `usize::max(1)`
at_least_one : ℕ → ℕ
at_least_one zero = 1
at_least_one (suc n) = suc n

-- The inner loop: the rows that share `h64`. It returns the count, the rows after them, the
-- memberships and the filter.
unfoldable pub take_group :
    Hashing → ℕ → List Row → ℕ → List ℕ → BloomFilter → Result (ℕ × List Row × List ℕ × BloomFilter)
take_group h h64 [] count memberships bloom = ok (count, [], memberships, bloom)
take_group h h64 (r ∷ rows) count memberships bloom =
    let rest : Result (ℕ × List Row × List ℕ × BloomFilter) = (do
      after ← Bloom.insert h.base_hashes bloom r.ext_bytes
      take_group h h64 rows ((count + 1) % 2 ^ 32)
          (memberships ++ inline r.event_id r.period_id ∷ []) after) in
    if r.h64 == h64 then rest else ok (count, r ∷ rows, memberships, bloom)

-- `slice[start..end]`
unfoldable pub slice : List ℕ → ℕ → ℕ → Result (List ℕ)
slice l start count =
    if leb (start + count) (length l) then ok (take count (drop start l)) else panic

pair_of : Option Bytes → Option Period → List (Bytes × Period) → List (Bytes × Period)
pair_of none period rest = rest
pair_of (some name) none rest = rest
pair_of (some name) (some period) rest = (name, period) ∷ rest

-- The `filter_map` of `lookup`.
unfoldable pub decode : InvertedMeta → List ℕ → List (Bytes × Period)
unfolding pair_of
decode meta [] = []
decode meta (m ∷ memberships) =
    pair_of (get_elem? meta.event_names (event_id m)) (get_elem? meta.periods (period_id m))
      (decode meta memberships)

hash_of : Option IndexEntry → ℕ → Result Probe
hash_of none h64 = panic
hash_of (some entry) h64 = ok (probe_of entry.id_hash h64)

unfoldable pub entry_probe : List IndexEntry → ℕ → ℕ → Result Probe
unfolding hash_of
entry_probe entries h64 i = hash_of (get_elem? entries i) h64

-- `(event, period)` is among the pairs.
unfoldable pub any_pair : List (Bytes × Period) → Bytes → Period → Bool
any_pair [] event period = false
any_pair ((e, p) ∷ pairs) event period =
    (text_beq e event && period_beq p period) || any_pair pairs event period

module _ (R : Roaring) (h : Hashing) where
  open R use {Bitmap}

  -- The outer loop. Each round takes a row at least, so as many rounds as rows are enough.
  unfoldable pub group : ℕ → List Row → InvertedIndex Bitmap → Result (InvertedIndex Bitmap)
  unfolding take_group
  group zero rows idx = ok idx
  group (suc n) [] idx = ok idx
  group (suc n) (r ∷ rows) idx = do
    (count, rest, memberships, bloom) ← take_group h r.h64 (r ∷ rows) 0 idx.memberships idx.bloom
    group n rest (record idx {
      entries =
          idx.entries
          ++ record { id_hash = r.h64; offset = length idx.memberships % 2 ^ 32; count = count }
            ∷ [];
      memberships = memberships;
      bloom = bloom;
      known_hashes = R.insert idx.known_hashes r.h32;
    })

  unfoldable pub new_index : InvertedMeta → ℕ → InvertedIndex Bitmap
  new_index meta capacity = record {
    entries = [];
    memberships = [];
    bloom = with_capacity (h.optimal_params capacity).0 (h.optimal_params capacity).1;
    known_hashes = R.new;
    meta = meta;
  }

  unfoldable pub build : InvertedIndexBuilder → Result (InvertedIndex Bitmap)
  unfolding group new_index distinct_hashes at_least_one
  build b =
      let rows = h.sort_unstable_by_key b.raw in
      group (length rows) rows (new_index b.meta (at_least_one (distinct_hashes none rows)))

  -- `InvertedIndex::empty`
  unfoldable pub empty : InvertedIndex Bitmap
  unfolding new_index
  empty = new_index (record { event_names = []; periods = [] }) 1

  unfoldable pub maybe_contains : InvertedIndex Bitmap → Bytes → Result Bool
  maybe_contains idx external_id = Bloom.test h.base_hashes idx.bloom external_id

  unfoldable pub definitely_contains : InvertedIndex Bitmap → Bytes → Bool
  unfolding fx_hash32
  definitely_contains idx external_id = R.contains idx.known_hashes (fx_hash32 h external_id)

  decode_entry : InvertedIndex Bitmap → Option IndexEntry → Result (List (Bytes × Period))
  unfolding slice decode
  decode_entry idx none = panic
  decode_entry idx (some entry) = do
    memberships ← slice idx.memberships entry.offset entry.count
    ok (decode idx.meta memberships)

  entry_at : InvertedIndex Bitmap → Option ℕ → Result (List (Bytes × Period))
  unfolding decode_entry
  entry_at idx none = ok []
  entry_at idx (some i) = decode_entry idx (get_elem? idx.entries i)

  unfoldable pub lookup : InvertedIndex Bitmap → Bytes → Result (List (Bytes × Period))
  unfolding maybe_contains search entry_probe entry_at
  lookup idx external_id = do
    maybe ← maybe_contains idx external_id
    if maybe
        then (do
          found ←
              search (length idx.entries) (entry_probe idx.entries (h.fx_hash64 external_id)) 0
                (length idx.entries)
          entry_at idx found)
        else ok []

  unfoldable pub contains : InvertedIndex Bitmap → Bytes → Bytes → Period → Result Bool
  unfolding lookup any_pair
  contains idx external_id event period = do
    pairs ← lookup idx external_id
    ok (any_pair pairs event period)
