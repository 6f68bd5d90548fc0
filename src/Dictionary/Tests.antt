-- ===== src/Dictionary/Tests.antt =====
-- The dictionary with one text.
use inoxset.Prelude.{ℕ, bytes, true, false, some, none, [], ◌≡◌, arith}
use inoxset.Prelude.HashMap
use inoxset.Prelude.Eq.{nat_eq, text_eq}
use inoxset.Error.{ok}
use inoxset.Dict.{Dict, or_zero}
use inoxset.Dict.Bijection.{IsValid}
use inoxset.Dictionary.{get_or_assign, contains, resolve, delete}
use inoxset.Dictionary.Known.{get_or_assign-delete}

abbrev no_texts : Dict
no_texts = record { dict_fwd = []; dict_rev = []; dict_next_id = none }

no_texts-IsValid : IsValid no_texts
unfolding HashMap.get or_zero
no_texts-IsValid = record {
  forward = λ e i g. cc;
  backward = λ e i g. cc;
  below = λ e i g. cc;
  bounded = omega arith;
}

get_or_assign-delete_example :
    (id : ℕ) × (after last : Dict) × (get_or_assign no_texts (bytes "alice") ≡ ok (id, after))
    × (contains after (bytes "alice") ≡ true)
    × (resolve after id ≡ some (bytes "alice"))
    × (get_or_assign after (bytes "alice") ≡ ok (id, after))
    × (delete after (bytes "alice") ≡ (some id, last))
    × IsValid last
    × (contains last (bytes "alice") ≡ false)
unfolding or_zero
get_or_assign-delete_example =
    get_or_assign-delete no_texts (bytes "alice") no_texts-IsValid (omega arith)
