-- ===== src/Dict/Tests.antt =====
-- The dictionary with one text.
use inoxset.Prelude.{ℕ, ◌^◌, bytes, none, some, [], ◌∷◌, ◌≡◌, ◌⊎◌, inl, refl, arith}
use inoxset.Prelude.HashMap
use inoxset.Prelude.Eq.{nat_eq, text_eq, text_beq}
use inoxset.Error.{ok, err, configuration}
use inoxset.Dict.{Dict, or_zero, map_u32, as_u32, read_fwd, assign_or_get, lookup}
use inoxset.Dict.Bijection.{IsValid, with_next, with_next-IsValid}
use inoxset.Dict.Batch.{settled, batch_assign_or_get, assign_each, batch_assign_or_get-assign_each}
use inoxset.Dict.Assign.{
  Assigns, Deletes, assign_or_get-Assigns, assign_or_get-full, delete-Deletes,
}

abbrev empty : Dict
empty = record { dict_fwd = []; dict_rev = []; dict_next_id = none }

empty-IsValid : IsValid empty
unfolding HashMap.get or_zero
empty-IsValid = record {
  forward = λ e i g. cc;
  backward = λ e i g. cc;
  below = λ e i g. cc;
  bounded = omega arith;
}

abbrev one : Dict
one = with_next empty (bytes "u1")

one-IsValid : IsValid one
unfolding HashMap.get or_zero
one-IsValid = with_next-IsValid empty (bytes "u1") empty-IsValid refl (omega arith)

one-room : or_zero one.dict_next_id ≡ 1
unfolding or_zero
one-room = refl

unseen : read_fwd empty (bytes "u2") ≡ none
unfolding read_fwd map_u32 HashMap.get
unseen = refl

assign_or_get-Assigns_example : Assigns empty one (bytes "u2")
assign_or_get-Assigns_example =
    assign_or_get-Assigns empty one (bytes "u2") one-IsValid (omega (arith, one-room)) (inl unseen)

-- The counter is at its end.
abbrev full : Dict
full = record { dict_fwd = []; dict_rev = []; dict_next_id = some (2 ^ 32) }

full-IsValid : IsValid full
unfolding HashMap.get or_zero
full-IsValid = record {
  forward = λ e i g. cc;
  backward = λ e i g. cc;
  below = λ e i g. cc;
  bounded = omega arith;
}

full-end : or_zero full.dict_next_id ≡ 2 ^ 32
unfolding or_zero
full-end = refl

assign_or_get-full_example :
    ((i : ℕ) × (lookup full (bytes "u2") ≡ some i)
      × (assign_or_get empty full (bytes "u2") ≡ ok (i, full)))
    ⊎ ((lookup full (bytes "u2") ≡ none)
        × (assign_or_get empty full (bytes "u2") ≡ err configuration))
assign_or_get-full_example =
    assign_or_get-full empty full (bytes "u2") full-IsValid full-end (inl unseen)

u1-known : lookup one (bytes "u1") ≡ some 0
unfolding lookup read_fwd map_u32 as_u32 HashMap.get HashMap.insert or_zero text_beq
u1-known = refl

delete-Deletes_example : Deletes one (bytes "u1")
delete-Deletes_example = delete-Deletes one (bytes "u1") one-IsValid

batch_assign_or_get-assign_each_example :
    settled (batch_assign_or_get one one (bytes "u2" ∷ bytes "u1" ∷ bytes "u2" ∷ []))
    ≡ settled (assign_each one one (bytes "u2" ∷ bytes "u1" ∷ bytes "u2" ∷ []))
batch_assign_or_get-assign_each_example =
    batch_assign_or_get-assign_each one one (bytes "u2" ∷ bytes "u1" ∷ bytes "u2" ∷ [])
