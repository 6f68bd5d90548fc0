-- ===== src/Store/Ids/Steps.antt =====
-- The calls of src/lib.rs that change the catalog at most, and the steps of a call that succeeds.
use inoxset.Prelude.{
  Bytes, Bool, true, false, Option, none, some, List, ◌≡◌, refl, ap, ◌∙◌, inl, inr, if◌then◌else◌,
  Bool-cases, length, ltb, leb,
}
use inoxset.Prelude.HashMap.{HashMap}
use inoxset.Types.{EventConfig}
use inoxset.Error.{Result, ok, err, panic, closed, validate_event_name}
use inoxset.MemPart.{Key, MemPart}
use inoxset.Dict.{Dict}
use inoxset.Inverted.{InvertedIndex}
use inoxset.Catalog.{get_event, list_events}
use inoxset.Store.{
  Settings, Store, check_closed, check_writable, ensure_event, auto_register, check_room,
  read_catalog,
}
use inoxset.Store.Monad.{Action, pure, raise, lift, next, ◌>>=◌}

-- All but the catalog.
abbrev pub Rest : Type 0 → Type 0
Rest B = Dict × MemPart B × List Bytes × HashMap Key B × Bool × Option (InvertedIndex B)

abbrev pub rest : {B : Type 0} → Store B → Rest B
rest s = (s.dict, s.writer, s.event_names, s.bitmap_cache, s.is_closed, s.inverted)

-- Actions that change the catalog at most.
abbrev pub Keeps : {A B : Type 0} → Action (Store B) A → Type 0
Keeps {A} {B} m = (s : Store B) → rest (m s).1 ≡ rest s

module _ {A B C : Type 0} where
  next-Keeps :
      (f : A → Action (Store B) C) (r : Result A) (s : Store B)
      → ((a : A) → Keeps (f a))
      → rest (next f r s).1 ≡ rest s
  next-Keeps f (ok a) s h = h a s
  next-Keeps f (err e) s h = refl
  next-Keeps f panic s h = refl

  bind-Keeps :
      (m : Action (Store B) A) (f : A → Action (Store B) C)
      → Keeps m
      → ((a : A) → Keeps (f a))
      → Keeps (m >>= f)
  bind-Keeps m f hm hf s = next-Keeps f (m s).0 (m s).1 hf ∙ hm s

if-Keeps :
    {A B : Type 0} (b : Bool) (m n : Action (Store B) A)
    → Keeps m
    → Keeps n
    → Keeps (if b then m else n)
if-Keeps true m n hm hn = hm
if-Keeps false m n hm hn = hn

module _ {B : Type 0} (c : Settings) (name : Bytes) where
  check_room-Keeps : Keeps (check_room {B = B} c)
  unfolding check_room read_catalog
  check_room-Keeps =
      if-Keeps (ltb 0 c.max_events) _ _
        (bind-Keeps (read_catalog list_events) _ (λ s. refl)
          (λ events. if-Keeps (leb c.max_events (length events)) _ _ (λ s. refl) (λ s. refl)))
        (λ s. refl)

  auto_register-Keeps : (found : Option EventConfig) → Keeps (auto_register {B = B} c name found)
  unfolding auto_register
  auto_register-Keeps (some config) = λ s. refl
  auto_register-Keeps none = bind-Keeps (check_room c) _ check_room-Keeps (λ u s. refl)

  pub ensure_event-Keeps : Keeps (ensure_event {B = B} c name)
  unfolding ensure_event read_catalog
  ensure_event-Keeps =
      bind-Keeps (lift (validate_event_name name)) _ (λ s. refl)
        (λ u.
          bind-Keeps (read_catalog (λ cat. get_event cat name)) _ (λ s. refl) auto_register-Keeps)

  check_closed-Keeps : Keeps (check_closed {B = B})
  unfolding check_closed
  check_closed-Keeps s = elim (Bool-cases s.is_closed) [
    | inl h ↦ ap (λ (b : Bool). rest (if b then raise {A = Unit {0}} closed s else pure tt s).1) h
    | inr h ↦ ap (λ (b : Bool). rest (if b then raise {A = Unit {0}} closed s else pure tt s).1) h
  ]

  pub check_writable-Keeps : Keeps (check_writable {B = B} c)
  unfolding check_writable
  check_writable-Keeps =
      bind-Keeps check_closed _ check_closed-Keeps
        (λ u. if-Keeps c.is_read_only _ _ (λ s. refl) (λ s. refl))

module _ {A B C : Type 0} where
  pub next-ok :
      (f : A → Action (Store B) C) (r : Result A) (u : Store B) {a : C} {t : Store B}
      → next f r u ≡ (ok a, t)
      → (x : A) × (r ≡ ok x) × (f x u ≡ (ok a, t))
  next-ok f (ok x) u h = (x, refl, h)
  next-ok f (err e) u h = cc
  next-ok f panic u h = cc

  -- The steps of a call that succeeds, where the first leaves all but the catalog.
  pub bind-ok :
      (m : Action (Store B) A) (f : A → Action (Store B) C) (s : Store B) {a : C} {t : Store B}
      → Keeps m
      → (m >>= f) s ≡ (ok a, t)
      → (x : A) × (u : Store B) × (m s ≡ (ok x, u)) × (rest u ≡ rest s) × (f x u ≡ (ok a, t))
  bind-ok m f s keeps h =
      let (x, done, after) = next-ok f (m s).0 (m s).1 h in
      (x, (m s).1, ap (λ r. (r, (m s).1)) done, keeps s, after)
