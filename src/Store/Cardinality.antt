-- ===== src/Store/Cardinality.antt =====
-- `query_cardinality` of src/lib.rs against `query`, and `get_shared` against `get`.
use inoxset.Prelude.{
  Bytes, Bool, true, false, Option, none, some, ◌≡◌, refl, ap, sym, ◌∙◌, Bool-cases, inl, inr,
  if◌then◌else◌,
}
use inoxset.Prelude.HashMap
use inoxset.Prelude.Eq.{text_eq, pair_eq}
use inoxset.Types.{Period, SetExpr, ref, and, or, diff}
use inoxset.Types.Order.{period_eq}
use inoxset.Error.{ok, err, closed, ◌>>=◌}
use inoxset.Roaring.{Roaring}
use inoxset.Read.{query}
use inoxset.Store.{Store}
use inoxset.Store.Disk.{get, get_from}
use inoxset.Store.Query.{
  shared_from, get_shared, len_of, intersect_cardinality, union_cardinality, query_cardinality,
}

same_else :
    {A : Type 0} (c : Bool) (x : A) {a b : A}
    → (c ≡ false → a ≡ b)
    → (if c then x else a) ≡ (if c then x else b)
same_else true x h = refl
same_else false x h = h refl

module _ (R : Roaring) (s : Store R.Bitmap) where
  open R use {Bitmap}

  same_from :
      (event : Bytes) (period : Period) (o : Option Bitmap)
      → HashMap.get s.bitmap_cache (event, period) ≡ o
      → s.is_closed ≡ false
      → shared_from R o s event period ≡ get_from R o s event period
  unfolding shared_from get_from get
  same_from event period (some cached) e c = refl
  same_from event period none e c = rw (c, e) refl

  -- `get_shared` returns what `get` returns, errors included.
  pub get_shared-get :
      (event : Bytes) (period : Period) → get_shared R s event period ≡ get R s event period
  unfolding get_shared get
  get_shared-get event period =
      same_else s.is_closed (err closed)
        (λ e. same_from event period (HashMap.get s.bitmap_cache (event, period)) refl e)

  module _
      (total : (event : Bytes) (period : Period)
        → (b : Bitmap) × (get R s event period ≡ ok b)) where
    and_pair :
        (ea : Bytes) (pa : Period) (eb : Bytes) (pb : Period)
        → intersect_cardinality R s ea pa eb pb
          ≡ len_of R (query R (get R s) (and (ref ea pa) (ref eb pb)))
    unfolding intersect_cardinality query len_of
    and_pair ea pa eb pb =
        let (a, f) = total ea pa in
        let (b, g) = total eb pb in
        rw (get_shared-get ea pa, get_shared-get eb pb, f, g)
          (elim (Bool-cases (R.is_empty a)) [
            | inl e ↦ rw e (ap ok (R.intersection_len-empty a b e ∙ sym (R.len-empty a e)))
            | inr e ↦ rw e (ap ok (R.intersection_len-len a b))
          ])

    or_pair :
        (ea : Bytes) (pa : Period) (eb : Bytes) (pb : Period)
        → union_cardinality R s ea pa eb pb
          ≡ len_of R (query R (get R s) (or (ref ea pa) (ref eb pb)))
    unfolding union_cardinality query len_of
    or_pair ea pa eb pb =
        let (a, f) = total ea pa in
        let (b, g) = total eb pb in
        rw (get_shared-get ea pa, get_shared-get eb pb, f, g) (ap ok (R.union_len-len a b))

    -- If `get` returns a bitmap for every key, `query_cardinality` returns the number of bits of what
    -- `query` returns, also where it takes the shortcut for two leaves.
    pub query_cardinality-query :
        (expr : SetExpr)
        → query_cardinality R s expr ≡ (query R (get R s) expr >>= λ bm. ok (R.len bm))
    unfolding query_cardinality len_of
    query_cardinality-query (ref e p) = refl
    query_cardinality-query (diff a b) = refl
    query_cardinality-query (and (ref ea pa) (ref eb pb)) = unfold len_of in and_pair ea pa eb pb
    query_cardinality-query (and (ref ea pa) (and c d)) = refl
    query_cardinality-query (and (ref ea pa) (or c d)) = refl
    query_cardinality-query (and (ref ea pa) (diff c d)) = refl
    query_cardinality-query (and (and a b) c) = refl
    query_cardinality-query (and (or a b) c) = refl
    query_cardinality-query (and (diff a b) c) = refl
    query_cardinality-query (or (ref ea pa) (ref eb pb)) = unfold len_of in or_pair ea pa eb pb
    query_cardinality-query (or (ref ea pa) (and c d)) = refl
    query_cardinality-query (or (ref ea pa) (or c d)) = refl
    query_cardinality-query (or (ref ea pa) (diff c d)) = refl
    query_cardinality-query (or (and a b) c) = refl
    query_cardinality-query (or (or a b) c) = refl
    query_cardinality-query (or (diff a b) c) = refl
