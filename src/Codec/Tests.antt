-- ===== src/Codec/Tests.antt =====
-- The byte formats at concrete values.
use inoxset.Prelude.{bytes, [], ◌∷◌, ◌≡◌, ◌≢◌, refl, arith}
use inoxset.Types.{Period, PartKind, Part}
use inoxset.Error.{ok, panic}
use inoxset.Codec.{deserialize_event_config, deserialize_period}
use inoxset.Codec.Utf8.{is_utf8}
use inoxset.Codec.Part.{serialize_part, deserialize_part}
use inoxset.Codec.Part.RoundTrip.{IsStorable, Fits, deserialize_part-serialize}
use inoxset.Codec.Total.{decoders-safe}
use inoxset.Prelude.{Bytes}

abbrev part : Part
part = record {
  part_id = 12;
  kind = PartKind.delta;
  event = bytes "a:b";
  period = Period.day 2024 2 29;
  file_path = bytes "p/a";
  size_bytes = 40;
  cardinality = 3;
  created_at = 1709251200;
  level = 0;
}

event-Fits : Fits (bytes "a:b")
unfolding is_utf8
event-Fits = record { short = omega arith; utf8 = refl }

path-Fits : Fits (bytes "p/a")
unfolding is_utf8
path-Fits = record { short = omega arith; utf8 = refl }

part-IsStorable : IsStorable part
part-IsStorable = record {
  part_id = omega arith;
  size_bytes = omega arith;
  cardinality = omega arith;
  created_at = omega arith;
  period = omega arith;
  event = event-Fits;
  path = path-Fits;
}

deserialize_part-serialize_example :
    (stored : Bytes) × (serialize_part part ≡ ok stored) × (deserialize_part stored ≡ ok part)
deserialize_part-serialize_example = deserialize_part-serialize part part-IsStorable

decoders-safe_example :
    (deserialize_event_config (bytes "a") (1 ∷ 2 ∷ []) ≢ panic)
    × (deserialize_period (1 ∷ 2 ∷ []) 1 ≢ panic)
    × (deserialize_part (1 ∷ 2 ∷ []) ≢ panic)
decoders-safe_example = decoders-safe (bytes "a") (1 ∷ 2 ∷ []) 1
