-- ===== src/Codec.antt =====
-- The byte formats of src/catalog.rs: event configurations, periods, lists of part ids. The format of
-- part metadata is in Codec/Part. The `ctx` argument only words the error texts and is dropped.
pub mod Utf8
pub mod Part
pub mod Cursor
pub mod RoundTrip
pub mod Total
mod Tests
use inoxset.Prelude.{
  ℕ, zero, suc, ◌+◌, ◌-◌, ◌*◌, ◌/◌, ◌%◌, Bytes, Bool, not, ◌||◌, Option, some, List, [], ◌∷◌, ◌++◌,
  length, get_elem?, take, drop, to_le, from_le, ◌==◌, ltb, leb, if◌then◌else◌,
}
use inoxset.Types.{Granularity, as_u8, from_u8, Period, Rollup, EventConfig, new_config}
use inoxset.Error.{Result, ok, err, panic, catalog_corrupted, ◌>>=◌, ◌>>◌}

abbrev pub corrupted {ℓ} : {A : Type ℓ} → Result A
corrupted = err catalog_corrupted

-- `o.ok_or_else(|| CatalogCorrupted { .. })`
abbrev pub ok_or_corrupted {ℓ} : {A : Type ℓ} → Option A → Result A
ok_or_corrupted Option.none = corrupted
ok_or_corrupted (some a) = ok a

-- `data[i]`
abbrev pub or_panic : Option ℕ → Result ℕ
or_panic Option.none = panic
or_panic (some b) = ok b

unfoldable pub index : Bytes → ℕ → Result ℕ
index bytes i = or_panic (get_elem? bytes i)

-- `data[a..b]`
unfoldable pub slice : Bytes → ℕ → ℕ → Result Bytes
slice bytes a b =
    if ltb b a || ltb (length bytes) b then panic else ok (take (b - a) (drop a bytes))

unfoldable pub rollup_as_u8 : Rollup → ℕ
rollup_as_u8 Rollup.auto = 0
rollup_as_u8 Rollup.none = 1

unfoldable pub rollup_from_u8 : ℕ → Result Rollup
rollup_from_u8 v = if v == 0 then ok Rollup.auto else if v == 1 then ok Rollup.none else corrupted

unfoldable pub serialize_event_config : EventConfig → Bytes
unfolding as_u8 rollup_as_u8
serialize_event_config ec = 1 ∷ as_u8 ec.finest_granularity ∷ rollup_as_u8 ec.rollup ∷ []

unfoldable pub deserialize_event_config : Bytes → Bytes → Result EventConfig
unfolding index from_u8 rollup_from_u8 new_config
deserialize_event_config name bytes = if ltb (length bytes) 3 then corrupted else do
  version ← index bytes 0
  if not (version == 1) then corrupted else do
    g ← index bytes 1
    gran ← ok_or_corrupted (from_u8 g)
    r ← index bytes 2
    rollup ← rollup_from_u8 r
    ok (new_config name gran rollup)

-- What `serialize_period_into` appends to its buffer.
unfoldable pub serialize_period : Period → Bytes
unfolding to_le
serialize_period Period.static = 0 ∷ []
serialize_period (Period.hour y m d h) = 1 ∷ to_le 2 y ++ m ∷ d ∷ h ∷ []
serialize_period (Period.day y m d) = 2 ∷ to_le 2 y ++ m ∷ d ∷ []
serialize_period (Period.month y m) = 3 ∷ to_le 2 y ++ m ∷ []
serialize_period (Period.year y) = 4 ∷ to_le 2 y

-- `u16::from_le_bytes([data[i], data[i + 1]])`
unfoldable pub index_u16 : Bytes → ℕ → Result ℕ
unfolding index from_le
index_u16 bytes i = do a ← index bytes i; b ← index bytes (i + 1); ok (from_le (a ∷ b ∷ []))

-- The branches of `deserialize_period` after the tag.
unfoldable pub hour_at : Bytes → ℕ → Result (Period × ℕ)
unfolding index_u16
hour_at bytes offset = if ltb (length bytes) (offset + 1 + 5) then corrupted else do
  y ← index_u16 bytes (offset + 1)
  m ← index bytes (offset + 3)
  d ← index bytes (offset + 4)
  h ← index bytes (offset + 5)
  ok (Period.hour y m d h, 6)

unfoldable pub day_at : Bytes → ℕ → Result (Period × ℕ)
unfolding index_u16
day_at bytes offset = if ltb (length bytes) (offset + 1 + 4) then corrupted else do
  y ← index_u16 bytes (offset + 1)
  m ← index bytes (offset + 3)
  d ← index bytes (offset + 4)
  ok (Period.day y m d, 5)

unfoldable pub month_at : Bytes → ℕ → Result (Period × ℕ)
unfolding index_u16
month_at bytes offset =
    if ltb (length bytes) (offset + 1 + 3)
    then corrupted
    else do y ← index_u16 bytes (offset + 1); m ← index bytes (offset + 3); ok (Period.month y m, 4)

unfoldable pub year_at : Bytes → ℕ → Result (Period × ℕ)
unfolding index_u16
year_at bytes offset =
    if ltb (length bytes) (offset + 1 + 2)
    then corrupted
    else do y ← index_u16 bytes (offset + 1); ok (Period.year y, 3)

unfoldable pub deserialize_period : Bytes → ℕ → Result (Period × ℕ)
unfolding hour_at day_at month_at year_at
deserialize_period bytes offset = if leb (length bytes) offset then corrupted else do
  tag ← index bytes offset
  if tag == 0
      then ok (Period.static, 1)
      else if tag == 1
      then hour_at bytes offset
      else if tag == 2
      then day_at bytes offset
      else if tag == 3
      then month_at bytes offset
      else if tag == 4
      then year_at bytes offset
      else corrupted

unfoldable pub pack_u64s : List ℕ → Bytes
pack_u64s [] = []
pack_u64s (id ∷ ids) = to_le 8 id ++ pack_u64s ids

unfoldable pub serialize_u64_vec : List ℕ → Bytes
serialize_u64_vec ids = 1 ∷ pack_u64s ids

-- The loop over `chunks_exact(8)`: a rest of fewer than 8 bytes is left out.
unfoldable pub unpack_u64s : Bytes → List ℕ
unpack_u64s (a ∷ b ∷ c ∷ d ∷ e ∷ f ∷ g ∷ h ∷ rest) =
    from_le (a ∷ b ∷ c ∷ d ∷ e ∷ f ∷ g ∷ h ∷ []) ∷ unpack_u64s rest
unpack_u64s _ = []

unfoldable pub deserialize_u64_vec : Bytes → Result (List ℕ)
deserialize_u64_vec [] = corrupted
deserialize_u64_vec (version ∷ payload) =
    if not (version == 1)
    then corrupted
    else if not (length payload % 8 == 0)
    then corrupted
    else ok (unpack_u64s payload)
