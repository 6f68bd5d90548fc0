-- ===== src/Dict/Assign.antt =====
-- `assign_or_get` and `delete` of src/dict.rs on a valid dictionary.
use inoxset.Prelude.{
  ℕ, ◌+◌, ◌^◌, ◌<◌, Bytes, none, some, Option-cases, ◌⊎◌, inl, inr, ◌≡◌, ◌≢◌, refl, sym, ap, ◌∙◌,
  leb-false, arith,
}
use inoxset.Prelude.HashMap
use inoxset.Prelude.HashMap.{get-insert, get-remove}
use inoxset.Prelude.Eq.{nat_eq, text_eq, text_beq_iff}
use inoxset.Error.{ok, err, configuration}
use inoxset.Dict.{
  Dict, as_u32, map_u32, or_zero, read_fwd, write_entry, get_or_write, read_or_write, assign_or_get,
  lookup, reverse_lookup, delete_entry, delete,
}
use inoxset.Dict.Bijection.{
  IsValid, with_next, with_next-IsValid, without_entry, without_entry-IsValid,
}

lookup-some :
    (d : Dict) (e : Bytes) (i : ℕ)
    → IsValid d
    → HashMap.get d.dict_fwd e ≡ some i
    → lookup d e ≡ some i
unfolding lookup read_fwd map_u32 as_u32
lookup-some d e i v g = ap map_u32 g ∙ ap some (omega (arith, v.below e i g, v.bounded))

lookup-none : (d : Dict) (e : Bytes) → HashMap.get d.dict_fwd e ≡ none → lookup d e ≡ none
unfolding lookup read_fwd map_u32
lookup-none d e g = ap map_u32 g

lookup-ext :
    (d c : Dict) (e : Bytes)
    → HashMap.get d.dict_fwd e ≡ HashMap.get c.dict_fwd e
    → lookup d e ≡ lookup c e
unfolding lookup read_fwd
lookup-ext d c e g = ap map_u32 g

-- `assign_or_get` returned `id` and left `after`.
pub record Assigns (seen cat : Dict) (ext : Bytes) : Type 0 where
  pub id : ℕ
  pub after : Dict
  pub returns : assign_or_get seen cat ext ≡ ok (id, after)
  pub valid : IsValid after
  pub looked_up : lookup after ext ≡ some id
  pub reversed : reverse_lookup after id ≡ some ext
  pub others : (f : Bytes) → f ≢ ext → lookup after f ≡ lookup cat f

module _ (seen cat : Dict) (ext : Bytes) (v : IsValid cat) where
  as_u32_id : (i : ℕ) → HashMap.get cat.dict_fwd ext ≡ some i → as_u32 i ≡ i
  unfolding as_u32
  as_u32_id i g = omega (arith, v.below ext i g, v.bounded)

  returns_known :
      (i : ℕ)
      → HashMap.get cat.dict_fwd ext ≡ some i
      → (read_fwd seen ext ≡ none) ⊎ (read_fwd seen ext ≡ read_fwd cat ext)
      → assign_or_get seen cat ext ≡ ok (i, cat)
  unfolding assign_or_get read_or_write get_or_write lookup
  returns_known i g (inl h) =
      ap (λ o. read_or_write o cat ext) h
      ∙ ap (λ o. get_or_write o cat ext) g
      ∙ ap (λ j. ok (j, cat)) (as_u32_id i g)
  returns_known i g (inr h) = ap (λ o. read_or_write o cat ext) (h ∙ lookup-some cat ext i v g)

  reaches_write :
      HashMap.get cat.dict_fwd ext ≡ none
      → (read_fwd seen ext ≡ none) ⊎ (read_fwd seen ext ≡ read_fwd cat ext)
      → assign_or_get seen cat ext ≡ write_entry cat ext
  unfolding assign_or_get read_or_write get_or_write lookup
  reaches_write g (inl h) = ap (λ o. read_or_write o cat ext) h ∙ ap (λ o. get_or_write o cat ext) g
  reaches_write g (inr h) =
      ap (λ o. read_or_write o cat ext) (h ∙ lookup-none cat ext g)
      ∙ ap (λ o. get_or_write o cat ext) g

  write_entry_ok :
      or_zero cat.dict_next_id < 2 ^ 32
      → write_entry cat ext ≡ ok (or_zero cat.dict_next_id, with_next cat ext)
  unfolding write_entry
  write_entry_ok room =
      let n = or_zero cat.dict_next_id in
      rw (leb-false (2 ^ 32) n room, leb-false (2 ^ 64) (n + 1) (omega (arith, room))) refl

  write_entry_full : or_zero cat.dict_next_id ≡ 2 ^ 32 → write_entry cat ext ≡ err configuration
  unfolding write_entry
  write_entry_full full = rw full refl

  get_new : HashMap.get (with_next cat ext).dict_fwd ext ≡ some (or_zero cat.dict_next_id)
  get_new =
      ground
        (arith, get-insert cat.dict_fwd ext ext (or_zero cat.dict_next_id), text_beq_iff ext ext)

  known-Assigns :
      (i : ℕ)
      → HashMap.get cat.dict_fwd ext ≡ some i
      → (read_fwd seen ext ≡ none) ⊎ (read_fwd seen ext ≡ read_fwd cat ext)
      → Assigns seen cat ext
  known-Assigns i g race = record {
    id = i;
    after = cat;
    returns = returns_known i g race;
    valid = v;
    looked_up = lookup-some cat ext i v g;
    reversed = unfold reverse_lookup in v.forward ext i g;
    others = λ f n. refl;
  }

  new-Assigns :
      HashMap.get cat.dict_fwd ext ≡ none
      → or_zero cat.dict_next_id < 2 ^ 32
      → (read_fwd seen ext ≡ none) ⊎ (read_fwd seen ext ≡ read_fwd cat ext)
      → Assigns seen cat ext
  new-Assigns g room race = record {
    id = or_zero cat.dict_next_id;
    after = with_next cat ext;
    returns = reaches_write g race ∙ write_entry_ok room;
    valid = with_next-IsValid cat ext v g room;
    looked_up =
        lookup-some (with_next cat ext) ext (or_zero cat.dict_next_id)
          (with_next-IsValid cat ext v g room) get_new;
    reversed =
        unfold reverse_lookup in
        (with_next-IsValid cat ext v g room).forward ext (or_zero cat.dict_next_id) get_new;
    others = λ f n. lookup-ext (with_next cat ext) cat f (
        ground
          (arith, n, get-insert cat.dict_fwd ext f (or_zero cat.dict_next_id), text_beq_iff ext f));
  }

  -- On a valid dictionary whose counter has an id left, when the optimistic read saw nothing or
  -- what the write transaction finds, `assign_or_get` returns an id, under which the text is then
  -- found and which leads back to the text; the dictionary stays valid and no other text is moved.
  pub assign_or_get-Assigns :
      or_zero cat.dict_next_id < 2 ^ 32
      → (read_fwd seen ext ≡ none) ⊎ (read_fwd seen ext ≡ read_fwd cat ext)
      → Assigns seen cat ext
  assign_or_get-Assigns room race = elim (Option-cases (HashMap.get cat.dict_fwd ext)) [
    | inl g ↦ new-Assigns g room race
    | inr (i, g) ↦ known-Assigns i g race
  ]

  -- On a valid dictionary whose counter is at 2 ^ 32, when the optimistic read saw nothing or what the
  -- write transaction finds, a text that `lookup` knows gets the id that `lookup` finds and nothing
  -- changes; a text that it does not know is a configuration error.
  pub assign_or_get-full :
      or_zero cat.dict_next_id ≡ 2 ^ 32
      → (read_fwd seen ext ≡ none) ⊎ (read_fwd seen ext ≡ read_fwd cat ext)
      → ((i : ℕ) × (lookup cat ext ≡ some i) × (assign_or_get seen cat ext ≡ ok (i, cat)))
        ⊎ ((lookup cat ext ≡ none) × (assign_or_get seen cat ext ≡ err configuration))
  assign_or_get-full full race = elim (Option-cases (HashMap.get cat.dict_fwd ext)) [
    | inl g ↦ inr (lookup-none cat ext g, reaches_write g race ∙ write_entry_full full)
    | inr (i, g) ↦ inl (i, lookup-some cat ext i v g, returns_known i g race)
  ]

some_inj {ℓ} : {A : Type ℓ} (a b : A) → some a ≡ some b → a ≡ b
some_inj a b h = cc

-- A text that is looked up is what the id leads back to.
lookup-reverse :
    (d : Dict) (e : Bytes) (i : ℕ)
    → IsValid d
    → lookup d e ≡ some i
    → HashMap.get d.dict_rev i ≡ some e
lookup-reverse d e i v g = elim (Option-cases (HashMap.get d.dict_fwd e)) [
  | inl k ↦ absurd (cc (lookup-none d e k, g))
  | inr (j, k) ↦
      ap (λ t. HashMap.get d.dict_rev t) (some_inj i j (sym g ∙ lookup-some d e j v k))
      ∙ v.forward e j k
]

-- Two texts that a valid dictionary knows under one id are one text.
pub lookup_inj :
    (d : Dict) (e f : Bytes) (i : ℕ) → IsValid d → lookup d e ≡ some i → lookup d f ≡ some i → e ≡ f
lookup_inj d e f i v g h = some_inj e f (sym (lookup-reverse d e i v g) ∙ lookup-reverse d f i v h)

-- `delete` of a text returned what `lookup` finds and left `after`.
pub record Deletes (cat : Dict) (ext : Bytes) : Type 0 where
  pub after : Dict
  pub returns : delete cat ext ≡ (lookup cat ext, after)
  pub valid : IsValid after
  pub gone : lookup after ext ≡ none
  pub others : (f : Bytes) → f ≢ ext → lookup after f ≡ lookup cat f
  pub counter : after.dict_next_id ≡ cat.dict_next_id

-- On a valid dictionary `delete` returns what `lookup` finds of the text, after which the text is
-- unknown, every other text is where it was, the dictionary is valid and the counter unchanged.
pub delete-Deletes : (cat : Dict) (ext : Bytes) → IsValid cat → Deletes cat ext
unfolding delete delete_entry lookup
delete-Deletes cat ext v = elim (Option-cases (HashMap.get cat.dict_fwd ext)) [
  | inl g ↦ record {
    after = cat;
    returns =
        ap (λ o. delete_entry o cat ext) (lookup-none cat ext g)
        ∙ ap (λ o. (o, cat)) (sym (lookup-none cat ext g));
    valid = v;
    gone = lookup-none cat ext g;
    others = λ f n. refl;
    counter = refl;
  }
  | inr (i, g) ↦ record {
    after = without_entry cat ext i;
    returns =
        ap (λ o. delete_entry o cat ext) (lookup-some cat ext i v g)
        ∙ ap (λ o. (o, without_entry cat ext i)) (sym (lookup-some cat ext i v g));
    valid = without_entry-IsValid cat ext i v g;
    gone =
        lookup-none (without_entry cat ext i) ext
          (ground (arith, get-remove cat.dict_fwd ext ext, text_beq_iff ext ext));
    others = λ f n.
        lookup-ext (without_entry cat ext i) cat f
          (ground (arith, n, get-remove cat.dict_fwd ext f, text_beq_iff ext f));
    counter = refl;
  }
]
