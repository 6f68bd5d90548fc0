-- ===== src/Store/Content.antt =====
-- The parts of one catalog key, data and delta, each with its bitmap, and the bits that they show.
use inoxset.Prelude.{
  ℕ, ◌≤◌, ◌<◌, Bool, true, false, not, ◌&&◌, ◌||◌, List, [], ◌∷◌, ◌++◌, append_assoc, append-nil,
  ◌+◌, ◌≡◌, refl, ap, sym, ◌∙◌, ltb, ◌==◌, arith,
}
use inoxset.Roaring.{Roaring}
use inoxset.Merge.{Ordered, tag}
use inoxset.Merge.Newest.{has, erased, survives, survives-erased, fresh, distinct}

pub record Content (B : Type 0) : Type 0 where
  pub data_parts : List (ℕ × B)
  pub delta_parts : List (ℕ × B)

module _ {B : Type 0} where
  abbrev pub parts_of : Content B → List (Ordered B)
  parts_of c = tag false c.data_parts ++ tag true c.delta_parts

  abbrev pub push_data : Content B → ℕ → B → Content B
  push_data c id b = record c { data_parts = c.data_parts ++ (id, b) ∷ [] }

  abbrev pub push_delta : Content B → ℕ → B → Content B
  push_delta c id b = record c { delta_parts = c.delta_parts ++ (id, b) ∷ [] }

  -- Every id is below `i`.
  unfoldable pub below : ℕ → List (Ordered B) → Bool
  below i [] = true
  below i (p ∷ l) = ltb p.id i && below i l

  pub below-append : (i : ℕ) (l m : List (Ordered B)) → below i (l ++ m) ≡ (below i l && below i m)
  unfolding below
  below-append i [] m = refl
  below-append i (p ∷ l) m = ground (arith, below-append i l m)

  pub below_mono : (i j : ℕ) (l : List (Ordered B)) → i ≤ j → below i l ≡ true → below j l ≡ true
  unfolding below
  below_mono i j [] h k = refl
  below_mono i j (p ∷ l) h k = ground (arith, below_mono i j l h)

  tag-append : (d : Bool) (l m : List (ℕ × B)) → tag d (l ++ m) ≡ tag d l ++ tag d m
  unfolding tag
  tag-append d [] m = refl
  tag-append d (e ∷ l) m =
      ap (λ t. record { id = e.0; is_delta = d; path = e.1 } ∷ t) (tag-append d l m)

  fresh-append : (i : ℕ) (l m : List (Ordered B)) → fresh i (l ++ m) ≡ (fresh i l && fresh i m)
  unfolding fresh
  fresh-append i [] m = refl
  fresh-append i (p ∷ l) m = ground (arith, fresh-append i l m)

  below-fresh : (i : ℕ) (l : List (Ordered B)) → below i l ≡ true → fresh i l ≡ true
  unfolding below fresh
  below-fresh i [] h = refl
  below-fresh i (p ∷ l) h = ground (arith, below-fresh i l)

  -- A new id in the middle.
  distinct-middle :
      (l m : List (Ordered B)) (p : Ordered B)
      → below p.id (l ++ m) ≡ true
      → distinct (l ++ m) ≡ true
      → distinct (l ++ p ∷ m) ≡ true
  unfolding below distinct
  distinct-middle [] m p h d = ground (arith, below-fresh p.id m)
  distinct-middle (q ∷ l) m p h d =
      ground (
        arith,
        distinct-middle l m p,
        fresh-append q.id l (p ∷ m),
        fresh-append q.id l m,
        fresh_cons,
      )
    where
      fresh_cons : fresh q.id (p ∷ m) ≡ (not (q.id == p.id) && fresh q.id m)
      fresh_cons = unfold fresh in refl

  module _ (c : Content B) (id : ℕ) (b : B) where
    pub parts_of-push_data :
        parts_of (push_data c id b)
        ≡ tag false c.data_parts
          ++ record { id = id; is_delta = false; path = b } ∷ tag true c.delta_parts
    parts_of-push_data =
        ap (λ t. t ++ tag true c.delta_parts) (tag-append false c.data_parts ((id, b) ∷ []))
        ∙ append_assoc (tag false c.data_parts) (tag false ((id, b) ∷ [])) (tag true c.delta_parts)
        ∙ (unfold tag in refl)

    pub parts_of-push_delta :
        parts_of (push_delta c id b)
        ≡ parts_of c ++ record { id = id; is_delta = true; path = b } ∷ []
    parts_of-push_delta =
        ap (λ t. tag false c.data_parts ++ t) (tag-append true c.delta_parts ((id, b) ∷ []))
        ∙ sym (
            append_assoc (tag false c.data_parts) (tag true c.delta_parts)
              (tag true ((id, b) ∷ [])))
        ∙ (unfold tag in refl)

  below-middle :
      (l m : List (Ordered B)) (p : Ordered B)
      → below p.id (l ++ m) ≡ true
      → below (p.id + 1) (l ++ p ∷ m) ≡ true
  below-middle l m p h = ground (
    arith,
    below-append p.id l m,
    below-append (p.id + 1) l (p ∷ m),
    below_cons,
    below_mono p.id (p.id + 1) l (omega arith),
    below_mono p.id (p.id + 1) m (omega arith),
  )
    where
      below_cons : below (p.id + 1) (p ∷ m) ≡ below (p.id + 1) m
      below_cons = unfold below in ground arith

  module _ (c : Content B) (id : ℕ) (b : B) (h : below id (parts_of c) ≡ true) where
    pub push_data-distinct :
        distinct (parts_of c) ≡ true → distinct (parts_of (push_data c id b)) ≡ true
    push_data-distinct d = rw (parts_of-push_data c id b) (
        distinct-middle (tag false c.data_parts) (tag true c.delta_parts)
          (record { id = id; is_delta = false; path = b }) h d)

    pub push_delta-distinct :
        distinct (parts_of c) ≡ true → distinct (parts_of (push_delta c id b)) ≡ true
    push_delta-distinct d = rw (parts_of-push_delta c id b) (
        distinct-middle (parts_of c) [] (record { id = id; is_delta = true; path = b })
          (rw (append-nil (parts_of c)) h) (rw (append-nil (parts_of c)) d))

    pub push_data-below : below (id + 1) (parts_of (push_data c id b)) ≡ true
    push_data-below = rw (parts_of-push_data c id b) (
        below-middle (tag false c.data_parts) (tag true c.delta_parts)
          (record { id = id; is_delta = false; path = b }) h)

    pub push_delta-below : below (id + 1) (parts_of (push_delta c id b)) ≡ true
    push_delta-below = rw (parts_of-push_delta c id b) (
        below-middle (parts_of c) [] (record { id = id; is_delta = true; path = b })
          (rw (append-nil (parts_of c)) h))

module _ (R : Roaring) (x : ℕ) where
  -- The bit that the parts show: some data part has it, and no newer delta part.
  unfoldable pub shows : Content R.Bitmap → Bool
  shows c = survives R (λ p. p.path) x (parts_of c) (parts_of c)

  erased-append :
      (i : ℕ) (l m : List (Ordered R.Bitmap))
      → erased R (λ p. p.path) x i (l ++ m)
        ≡ (erased R (λ p. p.path) x i l || erased R (λ p. p.path) x i m)
  unfolding erased
  erased-append i [] m = refl
  erased-append i (p ∷ l) m = ground (arith, erased-append i l m)

  survives-append :
      (l m k : List (Ordered R.Bitmap))
      → survives R (λ p. p.path) x (l ++ m) k
        ≡ (survives R (λ p. p.path) x l k || survives R (λ p. p.path) x m k)
  unfolding survives
  survives-append [] m k = refl
  survives-append (p ∷ l) m k = ground (arith, survives-append l m k)

  -- Nothing below `i` erases a part with the id `i`.
  erased-below :
      (i : ℕ) (l : List (Ordered R.Bitmap))
      → below i l ≡ true
      → erased R (λ p. p.path) x i l ≡ false
  unfolding below erased
  erased-below i [] h = refl
  erased-below i (p ∷ l) h = ground (arith, erased-below i l)

  -- A delta part newer than all of `m` takes its bits from them.
  survives-newer :
      (m k k' : List (Ordered R.Bitmap)) (i : ℕ) (v : Bool)
      → ((j : ℕ) → j < i → erased R (λ p. p.path) x j k' ≡ (erased R (λ p. p.path) x j k || v))
      → below i m ≡ true
      → survives R (λ p. p.path) x m k' ≡ (survives R (λ p. p.path) x m k && not v)
  unfolding below survives
  survives-newer [] k k' i v e h = refl
  survives-newer (p ∷ m) k k' i v e h = ground (arith, survives-newer m k k' i v e, e p.id)

  abbrev erased_in : ℕ → List (Ordered R.Bitmap) → Bool
  erased_in i l = erased R (λ p. p.path) x i l

  erased-data :
      (i : ℕ) (l m : List (Ordered R.Bitmap)) (p : Ordered R.Bitmap)
      → p.is_delta ≡ false
      → erased_in i (l ++ p ∷ m) ≡ erased_in i (l ++ m)
  erased-data i l m p d =
      erased-append i l (p ∷ m) ∙ (unfold erased in ground (arith, erased-append i l m))

  survives-same :
      (m k k' : List (Ordered R.Bitmap))
      → ((i : ℕ) → erased_in i k' ≡ erased_in i k)
      → survives R (λ p. p.path) x m k' ≡ survives R (λ p. p.path) x m k
  survives-same m k k' e = survives-erased R (λ p. p.path) x m k' k e

  survives-middle :
      (l m : List (Ordered R.Bitmap)) (p : Ordered R.Bitmap)
      → p.is_delta ≡ false
      → below p.id (l ++ m) ≡ true
      → survives R (λ p. p.path) x (l ++ p ∷ m) (l ++ p ∷ m)
        ≡ (survives R (λ p. p.path) x (l ++ m) (l ++ m) || R.contains p.path x)
  survives-middle l m p d h =
      survives-append l (p ∷ m) (l ++ p ∷ m)
      ∙ (unfold survives has in
          ground (
            arith,
            survives-append l m (l ++ m),
            survives-same l (l ++ m) (l ++ p ∷ m) (λ i. erased-data i l m p d),
            survives-same m (l ++ m) (l ++ p ∷ m) (λ i. erased-data i l m p d),
            erased-data p.id l m p d,
            erased-below p.id (l ++ m) h,
          ))

  survives-last :
      (l : List (Ordered R.Bitmap)) (p : Ordered R.Bitmap)
      → p.is_delta ≡ true
      → below p.id l ≡ true
      → survives R (λ p. p.path) x (l ++ p ∷ []) (l ++ p ∷ [])
        ≡ (survives R (λ p. p.path) x l l && not (R.contains p.path x))
  survives-last l p d h =
      survives-append l (p ∷ []) (l ++ p ∷ [])
      ∙ (unfold survives has in
          ground (arith, survives-newer l l (l ++ p ∷ []) p.id (R.contains p.path x) newer h))
    where
      newer :
          (j : ℕ) → j < p.id → erased_in j (l ++ p ∷ []) ≡ (erased_in j l || R.contains p.path x)
      newer j k = erased-append j l (p ∷ []) ∙ (unfold erased has in ground arith)

  module _ (c : Content R.Bitmap) (id : ℕ) (b : R.Bitmap) (h : below id (parts_of c) ≡ true) where
    pub push_data-shows : shows (push_data c id b) ≡ (shows c || R.contains b x)
    unfolding shows
    push_data-shows = rw (parts_of-push_data c id b) (
        survives-middle (tag false c.data_parts) (tag true c.delta_parts)
          (record { id = id; is_delta = false; path = b }) refl h)

    pub push_delta-shows : shows (push_delta c id b) ≡ (shows c && not (R.contains b x))
    unfolding shows
    push_delta-shows =
        rw (parts_of-push_delta c id b)
          (survives-last (parts_of c) (record { id = id; is_delta = true; path = b }) refl h)
