-- ===== src/Codec/Part.antt =====
-- The byte format of part metadata in src/catalog.rs.
pub mod RoundTrip
use inoxset.Prelude.{
  ℕ, ◌+◌, Bytes, Bool, not, ◌||◌, List, [], ◌∷◌, ◌++◌, length, to_le, from_le, ◌==◌, ltb,
  if◌then◌else◌,
}
use inoxset.Types.{Period, PartKind, Part}
use inoxset.Error.{Result, ok, ◌>>=◌, ◌>>◌}
use inoxset.Codec.{corrupted, index, slice, index_u16, serialize_period, deserialize_period}
use inoxset.Codec.Utf8.{is_utf8}

unfoldable pub kind_as_u8 : PartKind → ℕ
kind_as_u8 PartKind.additive = 0
kind_as_u8 PartKind.delta = 1

unfoldable pub kind_from_u8 : ℕ → Result PartKind
kind_from_u8 v =
    if v == 0 then ok PartKind.additive else if v == 1 then ok PartKind.delta else corrupted

-- A text behind its length as a `u16`, or an error if `u16::try_from` fails.
unfoldable pub put_text : Bytes → Result Bytes
put_text s = if ltb 65535 (length s) then corrupted else ok (to_le 2 (length s) ++ s)

-- The fields before the two texts, and what follows them.
unfoldable pub part_bytes : Part → Bytes → Bytes
part_bytes p texts =
    1
    ∷ (to_le 8 p.part_id
        ++ (kind_as_u8 p.kind
            ∷ (to_le 8 p.size_bytes
                ++ (to_le 8 p.cardinality
                    ++ (to_le 8 p.created_at
                        ++ (p.level ∷ (serialize_period p.period ++ texts)))))))

unfoldable pub serialize_part : Part → Result Bytes
serialize_part p = do
  event ← put_text p.event
  path ← put_text p.file_path
  ok (part_bytes p (event ++ path))

-- `u64::from_le_bytes(data[pos..pos + 8])` behind the test of the length.
unfoldable pub read_u64 : Bytes → ℕ → Result ℕ
read_u64 bytes pos =
    if ltb (length bytes) (pos + 8)
    then corrupted
    else do word ← slice bytes pos (pos + 8); ok (from_le word)

unfoldable pub read_u8 : Bytes → ℕ → Result ℕ
read_u8 bytes pos = if ltb (length bytes) (pos + 1) then corrupted else index bytes pos

-- A text behind its length, and the position after it.
unfoldable pub read_text : Bytes → ℕ → Result (Bytes × ℕ)
read_text bytes pos = if ltb (length bytes) (pos + 2) then corrupted else do
  len ← index_u16 bytes pos
  if ltb (length bytes) (pos + 2 + len) then corrupted else do
    s ← slice bytes (pos + 2) (pos + 2 + len)
    if not (is_utf8 s) then corrupted else ok (s, pos + 2 + len)

-- The period and the two texts, from position 35 on.
unfoldable pub read_tail : Bytes → ℕ → Result (Period × Bytes × Bytes)
read_tail bytes pos = do
  (period, period_len) ← deserialize_period bytes pos
  (event, after) ← read_text bytes (pos + period_len)
  (path, end) ← read_text bytes after
  ok (period, event, path)

unfoldable pub deserialize_part : Bytes → Result Part
deserialize_part bytes = if ltb (length bytes) 40 then corrupted else do
  version ← index bytes 0
  if not (version == 1) then corrupted else do
    part_id ← read_u64 bytes 1
    k ← read_u8 bytes 9
    kind ← kind_from_u8 k
    size_bytes ← read_u64 bytes 10
    cardinality ← read_u64 bytes 18
    created_at ← read_u64 bytes 26
    level ← read_u8 bytes 34
    (period, event, path) ← read_tail bytes 35
    ok (record {
      part_id = part_id;
      kind = kind;
      event = event;
      period = period;
      file_path = path;
      size_bytes = size_bytes;
      cardinality = cardinality;
      created_at = created_at;
      level = level;
    })
