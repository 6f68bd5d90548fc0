-- ===== src/Dictionary.antt =====
-- src/dictionary.rs: the standalone dictionary. It runs the operations of src/dict.rs on its own
-- handle, which nobody writes to in between; UUIDs are texts to it.
mod Tests
pub mod Known
use inoxset.Prelude.{ℕ, Bytes, Bool, Option, some, List, length, ◌==◌}
use inoxset.Error.{Result}
use inoxset.Dict.{Dict, assign_or_get, batch_lookup, reverse_lookup, batch_reverse_lookup}
use inoxset.Dict
use inoxset.Dict.Batch.{batch_assign_or_get}

unfoldable pub get_or_assign : Dict → Bytes → Result (ℕ × Dict)
get_or_assign dict external_id = assign_or_get dict dict external_id

unfoldable pub get_or_assign_batch : Dict → List Bytes → Result (List ℕ × Dict)
get_or_assign_batch dict external_ids = batch_assign_or_get dict dict external_ids

unfoldable pub lookup : Dict → Bytes → Option ℕ
lookup dict external_id = Dict.lookup dict external_id

-- `is_some()`
is_some : Option ℕ → Bool
is_some Option.none = Bool.false
is_some (some id) = Bool.true

unfoldable pub contains : Dict → Bytes → Bool
unfolding is_some
contains dict external_id = is_some (Dict.lookup dict external_id)

unfoldable pub lookup_batch : Dict → List Bytes → List (Option ℕ)
lookup_batch dict external_ids = batch_lookup dict external_ids

unfoldable pub resolve : Dict → ℕ → Option Bytes
resolve dict internal_id = reverse_lookup dict internal_id

unfoldable pub resolve_batch : Dict → List ℕ → List (Option Bytes)
resolve_batch dict internal_ids = batch_reverse_lookup dict internal_ids

unfoldable pub delete : Dict → Bytes → Option ℕ × Dict
delete dict external_id = Dict.delete dict external_id

unfoldable pub len : Dict → ℕ
len dict = length dict.dict_fwd

unfoldable pub is_empty : Dict → Bool
unfolding len
is_empty dict = len dict == 0
