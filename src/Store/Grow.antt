-- ===== src/Store/Grow.antt =====
-- The parts of a key after a new part: the same, or with the new part as a data or delta part.
use inoxset.Prelude.{
  ℕ, ◌+◌, Bytes, true, false, Option, List, [], ◌∷◌, ◌++◌, append-nil, ◌≡◌, refl, ap, sym, subst,
  ◌∙◌, arith,
}
use inoxset.Prelude.HashMap
use inoxset.Prelude.HashMap.{HashMap}
use inoxset.Prelude.Eq.{text_eq}
use inoxset.Types.{Part, PeriodState}
use inoxset.Error.{ok}
use inoxset.Roaring.{Roaring}
use inoxset.Catalog.{Catalog, get_period_parts, get_period_deltas, get_period_state}
use inoxset.Merge.{tag}
use inoxset.Store.Content.{
  Content, parts_of, push_data, push_delta, below, below_mono, push_data-distinct,
  push_delta-distinct, push_data-below, push_delta-below, parts_of-push_data, parts_of-push_delta,
}
use inoxset.Store.Stored.{ids, AllKept, Stored}
use inoxset.Store.Frame.{Adds, AllKept-old, AllKept-middle}

pub ids-append :
    {B : Type 0} (l : List (ℕ × B)) (id : ℕ) (b : B) → ids (l ++ (id, b) ∷ []) ≡ ids l ++ id ∷ []
unfolding ids
ids-append [] id b = refl
ids-append ((i, x) ∷ l) id b = ap (λ t. i ∷ t) (ids-append l id b)

module _ (R : Roaring) (cat cat' : Catalog) (files : HashMap Bytes R.Bitmap) (part : Part)
    (b : R.Bitmap) (a : Adds R cat cat' part) (key : Bytes) (c : Content R.Bitmap)
    (s : Stored R cat files key c part.part_id) (state : Option PeriodState)
    (has_state : get_period_state cat' key ≡ ok state) where
  abbrev after : HashMap Bytes R.Bitmap
  after = HashMap.insert files part.file_path b

  pub Stored-kept :
      get_period_parts cat' key ≡ get_period_parts cat key
      → get_period_deltas cat' key ≡ get_period_deltas cat key
      → Stored R cat' after key c (part.part_id + 1)
  Stored-kept d e = record {
    data_ids = d ∙ s.data_ids;
    delta_ids = e ∙ s.delta_ids;
    kept = AllKept-old R cat cat' files part b a (parts_of c) s.old s.kept;
    unique = s.unique;
    old = below_mono part.part_id (part.part_id + 1) (parts_of c) (omega arith) s.old;
    state = state;
    has_state = has_state;
  }

  pub Stored-data :
      get_period_parts cat' key ≡ ok (ids c.data_parts ++ part.part_id ∷ [])
      → get_period_deltas cat' key ≡ get_period_deltas cat key
      → Stored R cat' after key (push_data c part.part_id b) (part.part_id + 1)
  Stored-data d e = record {
    data_ids = d ∙ ap ok (sym (ids-append c.data_parts part.part_id b));
    delta_ids = e ∙ s.delta_ids;
    kept =
        subst (λ l. AllKept R cat' after l) (sym (parts_of-push_data c part.part_id b))
          (AllKept-middle R cat cat' files part b a (tag false c.data_parts)
            (tag true c.delta_parts) false s.old s.kept);
    unique = push_data-distinct c part.part_id b s.old s.unique;
    old = push_data-below c part.part_id b s.old;
    state = state;
    has_state = has_state;
  }

  pub Stored-delta :
      get_period_parts cat' key ≡ get_period_parts cat key
      → get_period_deltas cat' key ≡ ok (ids c.delta_parts ++ part.part_id ∷ [])
      → Stored R cat' after key (push_delta c part.part_id b) (part.part_id + 1)
  Stored-delta d e = record {
    data_ids = d ∙ s.data_ids;
    delta_ids = e ∙ ap ok (sym (ids-append c.delta_parts part.part_id b));
    kept =
        subst (λ l. AllKept R cat' after l) (sym (parts_of-push_delta c part.part_id b))
          (AllKept-middle R cat cat' files part b a (parts_of c) [] true
            (subst (λ l. below part.part_id l ≡ true) (sym (append-nil (parts_of c))) s.old)
            (subst (λ l. AllKept R cat files l) (sym (append-nil (parts_of c))) s.kept));
    unique = push_delta-distinct c part.part_id b s.old s.unique;
    old = push_delta-below c part.part_id b s.old;
    state = state;
    has_state = has_state;
  }
