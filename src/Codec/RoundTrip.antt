-- ===== src/Codec/RoundTrip.antt =====
-- Writing and reading event configurations, periods and lists of part ids.
use inoxset.Prelude.{
  ℕ, ◌+◌, ◌*◌, ◌^◌, ◌<◌, ◌≡◌, refl, ap, ◌∙◌, Bytes, List, [], ◌∷◌, ◌++◌, length, length-append,
  to_le, length-to_le, from_le-to_le, drop-append, ltb-false, leb-false, arith,
}
use inoxset.Types.{Granularity, Period, Rollup, new_config}
use inoxset.Error.{ok}
use inoxset.Codec.{
  serialize_event_config, deserialize_event_config, serialize_period, deserialize_period, pack_u64s,
  unpack_u64s, serialize_u64_vec, deserialize_u64_vec,
}
use inoxset.Codec.Cursor.{At, At-back, index-At, index_u16-At}

-- A configuration built by `EventConfig::new` is read back from its bytes.
pub deserialize_event_config-serialize :
    (name : Bytes) (g : Granularity) (r : Rollup)
    → deserialize_event_config name (serialize_event_config (new_config name g r))
      ≡ ok (new_config name g r)
unfolding deserialize_event_config serialize_event_config
deserialize_event_config-serialize name Granularity.none Rollup.auto = refl
deserialize_event_config-serialize name g Rollup.none = all g
  where
    all :
        (g : Granularity)
        → deserialize_event_config name (serialize_event_config (new_config name g Rollup.none))
          ≡ ok (new_config name g Rollup.none)
    all Granularity.none = refl
    all _ = refl
deserialize_event_config-serialize name _ Rollup.auto = refl

abbrev pub InRange : Period → Type 0
InRange Period.static = Unit
InRange (Period.hour y m d h) = y < 65536
InRange (Period.day y m d) = y < 65536
InRange (Period.month y m) = y < 65536
InRange (Period.year y) = y < 65536

module _ {bytes : Bytes} {pos : ℕ} where
  -- The period whose bytes stand at `pos` is read there, with the number of its bytes.
  pub deserialize_period-At :
      (p : Period)
      → InRange p
      → At bytes pos (serialize_period p)
      → deserialize_period bytes pos ≡ ok (p, length (serialize_period p))
  unfolding deserialize_period serialize_period
  deserialize_period-At Period.static h a =
      rw (leb-false (length bytes) pos (omega (arith, a.reach)), index-At 0 [] a) refl
  deserialize_period-At (Period.year y) h a =
      rw
        (
          leb-false (length bytes) pos (omega (arith, a.reach)),
          index-At 4 (to_le 2 y) a,
          ltb-false (length bytes) (pos + 1 + 2) (omega (arith, a.reach)),
          index_u16-At y [] h (At-back (4 ∷ []) (to_le 2 y) a),
        )
        refl
  deserialize_period-At (Period.month y m) h a =
      rw
        (
          leb-false (length bytes) pos (omega (arith, a.reach)),
          index-At 3 (to_le 2 y ++ m ∷ []) a,
          ltb-false (length bytes) (pos + 1 + 3) (omega (arith, a.reach)),
          index_u16-At y (m ∷ []) h (At-back (3 ∷ []) (to_le 2 y ++ m ∷ []) a),
          index-At m [] (At-back (3 ∷ to_le 2 y) (m ∷ []) a),
        )
        refl
  deserialize_period-At (Period.day y m d) h a =
      rw
        (
          leb-false (length bytes) pos (omega (arith, a.reach)),
          index-At 2 (to_le 2 y ++ m ∷ d ∷ []) a,
          ltb-false (length bytes) (pos + 1 + 4) (omega (arith, a.reach)),
          index_u16-At y (m ∷ d ∷ []) h (At-back (2 ∷ []) (to_le 2 y ++ m ∷ d ∷ []) a),
          index-At m (d ∷ []) (At-back (2 ∷ to_le 2 y) (m ∷ d ∷ []) a),
          index-At d [] (At-back (2 ∷ to_le 2 y ++ m ∷ []) (d ∷ []) a),
        )
        refl
  deserialize_period-At (Period.hour y m d e) h a =
      rw
        (
          leb-false (length bytes) pos (omega (arith, a.reach)),
          index-At 1 (to_le 2 y ++ m ∷ d ∷ e ∷ []) a,
          ltb-false (length bytes) (pos + 1 + 5) (omega (arith, a.reach)),
          index_u16-At y (m ∷ d ∷ e ∷ []) h (At-back (1 ∷ []) (to_le 2 y ++ m ∷ d ∷ e ∷ []) a),
          index-At m (d ∷ e ∷ []) (At-back (1 ∷ to_le 2 y) (m ∷ d ∷ e ∷ []) a),
          index-At d (e ∷ []) (At-back (1 ∷ to_le 2 y ++ m ∷ []) (d ∷ e ∷ []) a),
          index-At e [] (At-back (1 ∷ to_le 2 y ++ m ∷ d ∷ []) (e ∷ []) a),
        )
        refl

-- A period appended to any bytes and followed by any bytes is read back at its offset.
pub deserialize_period-serialize :
    (p : Period) (front back : Bytes)
    → InRange p
    → deserialize_period (front ++ (serialize_period p ++ back)) (length front)
      ≡ ok (p, length (serialize_period p))
deserialize_period-serialize p front back h = deserialize_period-At p h (record {
  rest = back;
  found = drop-append front (serialize_period p ++ back);
  reach = omega (
    arith,
    length-append front (serialize_period p ++ back),
    length-append (serialize_period p) back,
  );
})

-- Every id is a `u64`.
abbrev pub AllU64 : List ℕ → Type 0
AllU64 [] = Unit
AllU64 (id ∷ ids) = (id < 2 ^ 64) × AllU64 ids

length-pack_u64s : (ids : List ℕ) → length (pack_u64s ids) ≡ 8 * length ids
unfolding pack_u64s
length-pack_u64s [] = refl
length-pack_u64s (id ∷ ids) =
    omega
      (arith, length-append (to_le 8 id) (pack_u64s ids), length-to_le 8 id, length-pack_u64s ids)

unpack_word :
    (id : ℕ) (rest : Bytes) → id < 2 ^ 64 → unpack_u64s (to_le 8 id ++ rest) ≡ id ∷ unpack_u64s rest
unfolding unpack_u64s to_le
unpack_word id rest h = ap (λ x. x ∷ unpack_u64s rest) (unfold to_le in from_le-to_le 8 id h)

unpack-pack : (ids : List ℕ) → AllU64 ids → unpack_u64s (pack_u64s ids) ≡ ids
unfolding pack_u64s
unpack-pack [] h = unfold unpack_u64s in refl
unpack-pack (id ∷ ids) h =
    unpack_word id (pack_u64s ids) h.0 ∙ ap (λ t. id ∷ t) (unpack-pack ids h.1)

-- A list of part ids is read back from its bytes.
pub deserialize_u64_vec-serialize :
    (ids : List ℕ) → AllU64 ids → deserialize_u64_vec (serialize_u64_vec ids) ≡ ok ids
unfolding deserialize_u64_vec serialize_u64_vec
deserialize_u64_vec-serialize ids h = rw (length-pack_u64s ids) (ground (arith, unpack-pack ids h))
