-- ===== src/Dict.antt =====
-- src/dict.rs: the global dictionary of external ids. The two LMDB tables and the counter's
-- database are the state; a write transaction that ends in an error leaves it as it was.
pub mod Bijection
pub mod Assign
pub mod Batch
pub mod Uuid
mod Tests
use inoxset.Prelude.{ℕ, ◌+◌, ◌%◌, ◌^◌, Bytes, Option, some, List, [], ◌∷◌, ◌==◌, leb, if◌then◌else◌}
use inoxset.Prelude.HashMap
use inoxset.Prelude.HashMap.{HashMap}
use inoxset.Prelude.Eq.{nat_eq, text_eq}
use inoxset.Error.{Result, ok, err, configuration, ◌>>=◌}

pub record Dict : Type 0 where
  pub dict_fwd : HashMap Bytes ℕ
  pub dict_rev : HashMap ℕ Bytes
  -- The entry of the key "_".
  pub dict_next_id : Option ℕ

-- `v as u32`
unfoldable pub as_u32 : ℕ → ℕ
as_u32 v = v % 2 ^ 32

-- `.map(|v| v as u32)`
unfoldable pub map_u32 : Option ℕ → Option ℕ
unfolding as_u32
map_u32 Option.none = Option.none
map_u32 (some v) = some (as_u32 v)

-- `unwrap_or(0u64)`
unfoldable pub or_zero : Option ℕ → ℕ
or_zero Option.none = 0
or_zero (some v) = v

unfoldable pub read_fwd : Dict → Bytes → Option ℕ
unfolding map_u32
read_fwd cat external_id = map_u32 (HashMap.get cat.dict_fwd external_id)

-- The end of the write transaction, for an id that is in neither table: `u32::try_from(next)`,
-- `next.checked_add(1)` on `u64`, and the three puts.
unfoldable pub write_entry : Dict → Bytes → Result (ℕ × Dict)
unfolding or_zero
write_entry cat external_id =
    let next = or_zero cat.dict_next_id in
    if leb (2 ^ 32) next
    then err configuration
    else if leb (2 ^ 64) (next + 1)
    then err configuration
    else ok (
      next,
      record {
        dict_fwd = HashMap.insert cat.dict_fwd external_id next;
        dict_rev = HashMap.insert cat.dict_rev next external_id;
        dict_next_id = some (next + 1);
      },
    )

unfoldable pub get_or_write : Option ℕ → Dict → Bytes → Result (ℕ × Dict)
unfolding write_entry as_u32
get_or_write (some id) cat external_id = ok (as_u32 id, cat)
get_or_write Option.none cat external_id = write_entry cat external_id

unfoldable pub read_or_write : Option ℕ → Dict → Bytes → Result (ℕ × Dict)
unfolding get_or_write
read_or_write (some id) cat external_id = ok (id, cat)
read_or_write Option.none cat external_id =
    get_or_write (HashMap.get cat.dict_fwd external_id) cat external_id

-- `assign_or_get`: `seen` is the state at the optimistic read, `cat` the one that the write
-- transaction finds, which another writer may have changed.
unfoldable pub assign_or_get : Dict → Dict → Bytes → Result (ℕ × Dict)
unfolding read_fwd read_or_write
assign_or_get seen cat external_id = read_or_write (read_fwd seen external_id) cat external_id

unfoldable pub lookup : Dict → Bytes → Option ℕ
unfolding read_fwd
lookup cat external_id = read_fwd cat external_id

unfoldable pub reverse_lookup : Dict → ℕ → Option Bytes
reverse_lookup cat internal_id = HashMap.get cat.dict_rev internal_id

unfoldable pub delete_entry : Option ℕ → Dict → Bytes → Option ℕ × Dict
delete_entry Option.none cat external_id = (Option.none, cat)
delete_entry (some id) cat external_id = (
  some id,
  record cat {
    dict_fwd = HashMap.remove cat.dict_fwd external_id;
    dict_rev = HashMap.remove cat.dict_rev id;
  },
)

unfoldable pub delete : Dict → Bytes → Option ℕ × Dict
unfolding delete_entry read_fwd
delete cat external_id = delete_entry (read_fwd cat external_id) cat external_id

-- The lookups of many ids in one transaction.
unfoldable pub batch_lookup : Dict → List Bytes → List (Option ℕ)
unfolding read_fwd
batch_lookup cat [] = []
batch_lookup cat (ext ∷ external_ids) = read_fwd cat ext ∷ batch_lookup cat external_ids

unfoldable pub batch_reverse_lookup : Dict → List ℕ → List (Option Bytes)
unfolding reverse_lookup
batch_reverse_lookup cat [] = []
batch_reverse_lookup cat (id ∷ internal_ids) =
    reverse_lookup cat id ∷ batch_reverse_lookup cat internal_ids

found : ℕ → Option Bytes → List (ℕ × Bytes) → List (ℕ × Bytes)
found id Option.none results = results
found id (some s) results = (id, s) ∷ results

unfoldable pub batch_reverse_lookup_u32 : Dict → List ℕ → List (ℕ × Bytes)
unfolding reverse_lookup found
batch_reverse_lookup_u32 cat [] = []
batch_reverse_lookup_u32 cat (id ∷ internal_ids) =
    found id (reverse_lookup cat id) (batch_reverse_lookup_u32 cat internal_ids)
