-- ===== src/Dict/Batch.antt =====
-- `batch_assign_or_get` of src/dict.rs, and the ids one at a time.
use inoxset.Prelude.{
  ℕ, ◌+◌, ◌^◌, ◌≡◌, refl, ap, sym, ◌∙◌, Bytes, Option, some, List, [], ◌∷◌, leb, Bool-cases, inl,
  inr, if◌then◌else◌,
}
use inoxset.Prelude.HashMap
use inoxset.Prelude.HashMap.{HashMap}
use inoxset.Prelude.Eq.{nat_eq, text_eq}
use inoxset.Error.{Result, ok, err, panic, configuration, ◌>>=◌}
use inoxset.Dict.{
  Dict, map_u32, or_zero, as_u32, read_fwd, write_entry, get_or_write, read_or_write, assign_or_get,
}

-- The read-only pass.
unfoldable pub read_pass : Dict → List Bytes → List (Bytes × Option ℕ)
unfolding read_fwd
read_pass seen [] = []
read_pass seen (ext ∷ external_ids) = (ext, read_fwd seen ext) ∷ read_pass seen external_ids

cons_some : ℕ → Option (List ℕ) → Option (List ℕ)
cons_some id Option.none = Option.none
cons_some id (some ids) = some (id ∷ ids)

-- `result.into_iter().flatten()` where nothing is missing, and the test `r.is_none()`
unfoldable pub resolved : List (Bytes × Option ℕ) → Option (List ℕ)
unfolding cons_some
resolved [] = some []
resolved ((ext, Option.none) ∷ l) = Option.none
resolved ((ext, some id) ∷ l) = cons_some id (resolved l)

-- One text that the first pass did not find. The counter is kept beside the tables.
unfoldable pub assign_next : Option ℕ → Dict → ℕ → Bytes → Result (ℕ × Dict × ℕ)
assign_next (some existing_id) cat next ext = ok (existing_id, cat, next)
assign_next Option.none cat next ext =
    if leb (2 ^ 32) next
    then err configuration
    else if leb (2 ^ 64) (next + 1)
    then err configuration
    else ok (
      next,
      record cat {
        dict_fwd = HashMap.insert cat.dict_fwd ext next;
        dict_rev = HashMap.insert cat.dict_rev next ext;
      },
      next + 1,
    )

-- The loop of the write transaction.
unfoldable pub write_pass : Dict → ℕ → List (Bytes × Option ℕ) → Result (List ℕ × Dict × ℕ)
unfolding assign_next map_u32
write_pass cat next [] = ok ([], cat, next)
write_pass cat next ((ext, some id) ∷ l) = do
  (ids, after, left) ← write_pass cat next l
  ok (id ∷ ids, after, left)
write_pass cat next ((ext, Option.none) ∷ l) = do
  (id, cat1, next1) ← assign_next (map_u32 (HashMap.get cat.dict_fwd ext)) cat next ext
  (ids, after, left) ← write_pass cat1 next1 l
  ok (id ∷ ids, after, left)

write_rest : Option (List ℕ) → Dict → List (Bytes × Option ℕ) → Result (List ℕ × Dict)
unfolding write_pass
write_rest (some ids) cat l = ok (ids, cat)
write_rest Option.none cat l = do
  (ids, after, next) ← write_pass cat (or_zero cat.dict_next_id) l
  ok (ids, record after { dict_next_id = some next })

-- `seen` is the state at the read-only pass, `cat` the one that the write transaction finds.
unfoldable pub batch_assign_or_get : Dict → Dict → List Bytes → Result (List ℕ × Dict)
unfolding read_pass resolved write_rest
batch_assign_or_get seen cat external_ids =
    write_rest (resolved (read_pass seen external_ids)) cat (read_pass seen external_ids)

-- `assign_or_get` on each text in turn.
unfoldable pub assign_each : Dict → Dict → List Bytes → Result (List ℕ × Dict)
unfolding assign_or_get
assign_each seen cat [] = ok ([], cat)
assign_each seen cat (ext ∷ external_ids) = do
  (id, cat1) ← assign_or_get seen cat ext
  (ids, after) ← assign_each seen cat1 external_ids
  ok (id ∷ ids, after)

-- A result with the counter written out, as a missing entry stands for 0.
unfoldable pub settled : Result (List ℕ × Dict) → Result (List ℕ × Dict)
unfolding or_zero
settled (ok (ids, cat)) = ok (ids, record cat { dict_next_id = some (or_zero cat.dict_next_id) })
settled (err e) = err e
settled panic = panic

with_counter : Result (List ℕ × Dict × ℕ) → Result (List ℕ × Dict)
with_counter (ok (ids, after, next)) = ok (ids, record after { dict_next_id = some next })
with_counter (err e) = err e
with_counter panic = panic

cons_ids : ℕ → Result (List ℕ × Dict) → Result (List ℕ × Dict)
cons_ids id r = r >>= λ p. ok (id ∷ p.0, p.1)

with_counter-cons :
    (id : ℕ) (r : Result (List ℕ × Dict × ℕ))
    → with_counter (r >>= λ p. ok (id ∷ p.0, p.1, p.2)) ≡ cons_ids id (with_counter r)
unfolding with_counter cons_ids
with_counter-cons id (ok p) = refl
with_counter-cons id (err e) = refl
with_counter-cons id panic = refl

settled-cons :
    (id : ℕ) (q : Result (List ℕ × Dict))
    → settled (q >>= λ p. ok (id ∷ p.0, p.1)) ≡ cons_ids id (settled q)
unfolding settled cons_ids
settled-cons id (ok p) = refl
settled-cons id (err e) = refl
settled-cons id panic = refl

module _ (seen : Dict) (ext : Bytes) (l : List Bytes)
    (same : (cat : Dict) (d : Option ℕ)
      → with_counter (write_pass cat (or_zero d) (read_pass seen l))
        ≡ settled (assign_each seen (record cat { dict_next_id = d }) l)) where
  one :
      (id : ℕ) (cat : Dict) (d : Option ℕ)
      → with_counter
          (write_pass cat (or_zero d) (read_pass seen l) >>= λ p. ok (id ∷ p.0, p.1, p.2))
        ≡ settled (assign_each seen (record cat { dict_next_id = d }) l >>= λ p. ok (id ∷ p.0, p.1))
  one id cat d =
      with_counter-cons id (write_pass cat (or_zero d) (read_pass seen l))
      ∙ ap (cons_ids id) (same cat d)
      ∙ sym (settled-cons id (assign_each seen (record cat { dict_next_id = d }) l))

  module _ (cat : Dict) (d : Option ℕ) where
    unseen :
        (o : Option ℕ)
        → with_counter (
            assign_next (map_u32 o) cat (or_zero d) ext >>= λ r.
            write_pass r.1 r.2 (read_pass seen l) >>= λ p. ok (r.0 ∷ p.0, p.1, p.2))
          ≡ settled (
              get_or_write o (record cat { dict_next_id = d }) ext >>= λ r.
              assign_each seen r.1 l >>= λ p. ok (r.0 ∷ p.0, p.1))
    unfolding assign_next map_u32 get_or_write write_entry
    unseen (some e) = one (as_u32 e) cat d
    unseen Option.none = elim (Bool-cases (leb (2 ^ 32) (or_zero d))) [
      | inl e ↦ rw e (unfold with_counter settled in refl)
      | inr e ↦ rw e (elim (Bool-cases (leb (2 ^ 64) (or_zero d + 1))) [
        | inl f ↦ rw f (unfold with_counter settled in refl)
        | inr f ↦ rw f (
            unfold or_zero in
            one (or_zero d)
              (record cat {
                dict_fwd = HashMap.insert cat.dict_fwd ext (or_zero d);
                dict_rev = HashMap.insert cat.dict_rev (or_zero d) ext;
              })
              (some (or_zero d + 1)))
      ])
    ]

    head :
        (o : Option ℕ)
        → with_counter (write_pass cat (or_zero d) ((ext, o) ∷ read_pass seen l))
          ≡ settled (
              read_or_write o (record cat { dict_next_id = d }) ext >>= λ r.
              assign_each seen r.1 l >>= λ p. ok (r.0 ∷ p.0, p.1))
    unfolding write_pass read_or_write
    head (some id) = one id cat d
    head Option.none = unseen (HashMap.get cat.dict_fwd ext)

-- The loop, for a counter `d` that stands for `next`.
write_pass-assign_each :
    (seen : Dict) (external_ids : List Bytes) (cat : Dict) (d : Option ℕ)
    → with_counter (write_pass cat (or_zero d) (read_pass seen external_ids))
      ≡ settled (assign_each seen (record cat { dict_next_id = d }) external_ids)
unfolding read_pass assign_each assign_or_get
write_pass-assign_each seen [] cat d = unfold write_pass with_counter settled in refl
write_pass-assign_each seen (ext ∷ l) cat d =
    head seen ext l (write_pass-assign_each seen l) cat d (read_fwd seen ext)

-- When the read-only pass finds every text, the loop would change nothing.
write_pass-resolved :
    (l : List (Bytes × Option ℕ)) (ids : List ℕ) (cat : Dict) (next : ℕ)
    → resolved l ≡ some ids
    → write_pass cat next l ≡ ok (ids, cat, next)
unfolding resolved write_pass
write_pass-resolved [] ids cat next e = ap (λ o. ok (or_none o, cat, next)) e
  where
    or_none : Option (List ℕ) → List ℕ
    or_none Option.none = []
    or_none (some l) = l
write_pass-resolved ((ext, Option.none) ∷ l) ids cat next e = cc
write_pass-resolved ((ext, some id) ∷ l) ids cat next e =
    tail (resolved l) e (λ rest. write_pass-resolved l rest cat next)
  where
    tail :
        (o : Option (List ℕ))
        → cons_some id o ≡ some ids
        → ((rest : List ℕ) → o ≡ some rest → write_pass cat next l ≡ ok (rest, cat, next))
        → write_pass cat next ((ext, some id) ∷ l) ≡ ok (ids, cat, next)
    tail Option.none f h = cc
    tail (some rest) f h = rw (h rest refl) cc

-- The batch gives the ids, the tables and the error that `assign_or_get` gives on the texts one
-- after the other, all with the same state at the read-only pass; a counter without an entry and
-- one of 0 are not told apart.
pub batch_assign_or_get-assign_each :
    (seen cat : Dict) (external_ids : List Bytes)
    → settled (batch_assign_or_get seen cat external_ids)
      ≡ settled (assign_each seen cat external_ids)
unfolding batch_assign_or_get
batch_assign_or_get-assign_each seen cat external_ids =
    split (resolved (read_pass seen external_ids)) refl
    ∙ write_pass-assign_each seen external_ids cat cat.dict_next_id
  where
    written :
        (r : Result (List ℕ × Dict × ℕ))
        → settled (r >>= λ p. ok (p.0, record p.1 { dict_next_id = some p.2 })) ≡ with_counter r
    written (ok p) = unfold settled with_counter or_zero in refl
    written (err e) = unfold settled with_counter in refl
    written panic = unfold settled with_counter in refl

    split :
        (o : Option (List ℕ))
        → resolved (read_pass seen external_ids) ≡ o
        → settled (write_rest o cat (read_pass seen external_ids))
          ≡ with_counter (write_pass cat (or_zero cat.dict_next_id) (read_pass seen external_ids))
    split Option.none e =
        unfold write_rest in
        written (write_pass cat (or_zero cat.dict_next_id) (read_pass seen external_ids))
    split (some ids) e =
        rw (write_pass-resolved (read_pass seen external_ids) ids cat (or_zero cat.dict_next_id) e)
          (unfold write_rest settled with_counter in refl)
