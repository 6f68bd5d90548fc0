-- ===== src/Dict/Bijection.antt =====
-- The invariant of the dictionary: its tables are inverse to each other, and ids stay below the
-- counter.
use inoxset.Prelude.{ℕ, ◌+◌, ◌^◌, ◌≤◌, ◌<◌, Bytes, none, some, ◌≡◌, ==_iff, arith}
use inoxset.Prelude.HashMap
use inoxset.Prelude.HashMap.{HashMap, get-insert, get-remove}
use inoxset.Prelude.Eq.{nat_eq, text_eq, text_beq_iff}
use inoxset.Dict.{Dict, or_zero}

pub record IsValid (d : Dict) : Type 0 where
  pub forward :
      (e : Bytes) (i : ℕ) → HashMap.get d.dict_fwd e ≡ some i → HashMap.get d.dict_rev i ≡ some e
  pub backward :
      (e : Bytes) (i : ℕ) → HashMap.get d.dict_rev i ≡ some e → HashMap.get d.dict_fwd e ≡ some i
  pub below : (e : Bytes) (i : ℕ) → HashMap.get d.dict_fwd e ≡ some i → i < or_zero d.dict_next_id
  pub bounded : or_zero d.dict_next_id ≤ 2 ^ 32

module _ (d : Dict) (ext : Bytes) where
  abbrev pub with_next : Dict
  with_next = record {
    dict_fwd = HashMap.insert d.dict_fwd ext (or_zero d.dict_next_id);
    dict_rev = HashMap.insert d.dict_rev (or_zero d.dict_next_id) ext;
    dict_next_id = some (or_zero d.dict_next_id + 1);
  }

  pub with_next-IsValid :
      IsValid d
      → HashMap.get d.dict_fwd ext ≡ none
      → or_zero d.dict_next_id < 2 ^ 32
      → IsValid with_next
  with_next-IsValid v unknown room =
      unfold or_zero in
      let n = or_zero d.dict_next_id in
      record {
        forward = λ e i g. ground (
          arith,
          g,
          get-insert d.dict_fwd ext e n,
          get-insert d.dict_rev n i ext,
          text_beq_iff ext e,
          ==_iff n i,
          v.forward e i,
          v.below e i,
        );
        backward = λ e i g. ground (
          arith,
          g,
          get-insert d.dict_fwd ext e n,
          get-insert d.dict_rev n i ext,
          text_beq_iff ext e,
          ==_iff n i,
          v.backward e i,
          unknown,
        );
        below = λ e i g.
            ground (arith, g, get-insert d.dict_fwd ext e n, text_beq_iff ext e, v.below e i);
        bounded = omega (arith, room);
      }

-- Without the entry of an id.
module _ (d : Dict) (ext : Bytes) (id : ℕ) where
  abbrev pub without_entry : Dict
  without_entry = record {
    dict_fwd = HashMap.remove d.dict_fwd ext;
    dict_rev = HashMap.remove d.dict_rev id;
    dict_next_id = d.dict_next_id;
  }

  pub without_entry-IsValid :
      IsValid d → HashMap.get d.dict_fwd ext ≡ some id → IsValid without_entry
  without_entry-IsValid v known = record {
    forward = λ e i g. ground (
      arith,
      g,
      get-remove d.dict_fwd ext e,
      get-remove d.dict_rev id i,
      text_beq_iff ext e,
      ==_iff id i,
      v.forward e i,
      v.forward ext id known,
    );
    backward = λ e i g. ground (
      arith,
      g,
      get-remove d.dict_fwd ext e,
      get-remove d.dict_rev id i,
      text_beq_iff ext e,
      ==_iff id i,
      v.backward e i,
      known,
    );
    below = λ e i g. ground (arith, g, get-remove d.dict_fwd ext e, v.below e i);
    bounded = v.bounded;
  }
