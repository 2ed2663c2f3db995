-- ===== src/Model/Merge/Fields.antt =====
-- internal/model/model.go: the fields of what `Normalize` returns.
use mathlib.Core.Option
use swinv.Prelude.{
  not, ◌≡◌, refl, ap, ◌∙◌, Bool, false, ◌&&◌, ◌||◌, List, [], ◌∷◌, ◌++◌, Option, none, some, Bytes,
  Bool-cases, inl, inr, if◌then◌else◌, is_empty, arith,
}
use swinv.Prelude.Sort.{any, first_with}
use swinv.Model.Sets.{member, member-sorted_set, member-append}
use swinv.Model.Component.{Component, Key}
use swinv.Model.Merge.{absorb, with_sets, normalize, first_of}
use swinv.Model.Merge.Keys.{keyed, onto, gathered, first_with-normalize}

-- Whether a list field of a component, if there is one, has the text `l`.
abbrev pub held : (Component → List Bytes) → Bytes → Option Component → Bool
held f l none = false
held f l (some d) = member l (f d)

abbrev pub value_of : (Component → Bytes) → Option Component → Bytes
value_of f none = []
value_of f (some d) = f d

-- The first value that is not empty among the components of the key `k`.
abbrev pub first_value : (Component → Bytes) → Key → List Component → Bytes
first_value f k [] = []
first_value f k (c ∷ cs) =
    let later = first_value f k cs in if keyed k c then first_of (f c) later else later

first_of_assoc : (a b c : Bytes) → first_of (first_of a b) c ≡ first_of a (first_of b c)
first_of_assoc [] b c = refl
first_of_assoc (x ∷ a) b c = refl

module _ (f : Component → List Bytes)
    (joins : (a c : Component) → f (absorb a c) ≡ f a ++ f c) where
  held-onto :
      (l : Bytes) (o : Option Component) (c : Component)
      → held f l (some (onto o c)) ≡ (held f l o || member l (f c))
  held-onto l none c = refl
  held-onto l (some d) c = ap (member l) (joins d c) ∙ member-append l (f d) (f c)

  held-gathered :
      (l : Bytes) (k : Key) (o : Option Component) (cs : List Component)
      → held f l (gathered k o cs) ≡ (held f l o || any (λ d. keyed k d && member l (f d)) cs)
  unfolding gathered
  held-gathered l k o [] = ground arith
  held-gathered l k o (c ∷ cs) = elim (Bool-cases (keyed k c)) [
    | inl mine ↦ rw (mine, held-gathered l k (some (onto o c)) cs, held-onto l o c) (ground arith)
    | inr other ↦ rw other (held-gathered l k o cs)
  ]

  held-with_sets :
      ((c : Component) (l : Bytes)
        → member l (f (with_sets c)) ≡ (not (is_empty l) && member l (f c)))
      → (l : Bytes) (o : Option Component)
      → held f l (Option.map with_sets o) ≡ (not (is_empty l) && held f l o)
  held-with_sets sets l none = ground arith
  held-with_sets sets l (some d) = sets d l

  held-normalize :
      ((c : Component) (l : Bytes)
        → member l (f (with_sets c)) ≡ (not (is_empty l) && member l (f c)))
      → (l : Bytes) (k : Key) (cs : List Component)
      → held f l (first_with (keyed k) (normalize cs))
        ≡ (not (is_empty l) && any (λ d. keyed k d && member l (f d)) cs)
  held-normalize sets l k cs =
      ap (held f l) (first_with-normalize k cs)
      ∙ held-with_sets sets l (gathered k none cs)
      ∙ ap (◌&&◌ (not (is_empty l))) (held-gathered l k none cs)

-- The component that `Normalize` returns under a key has a text among its locations, CPEs or licences
-- exactly when the text is not empty and some component of the input with that key has it there.
pub normalize-unions :
    (l : Bytes) (k : Key) (cs : List Component)
    → (held (λ d. d.locations) l (first_with (keyed k) (normalize cs))
        ≡ (not (is_empty l) && any (λ d. keyed k d && member l d.locations) cs))
      × (held (λ d. d.cpes) l (first_with (keyed k) (normalize cs))
          ≡ (not (is_empty l) && any (λ d. keyed k d && member l d.cpes) cs))
      × (held (λ d. d.licenses) l (first_with (keyed k) (normalize cs))
          ≡ (not (is_empty l) && any (λ d. keyed k d && member l d.licenses) cs))
unfolding absorb with_sets
normalize-unions l k cs = (
  held-normalize (λ d. d.locations) (λ a c. refl) (λ c m. member-sorted_set m c.locations) l k cs,
  held-normalize (λ d. d.cpes) (λ a c. refl) (λ c m. member-sorted_set m c.cpes) l k cs,
  held-normalize (λ d. d.licenses) (λ a c. refl) (λ c m. member-sorted_set m c.licenses) l k cs,
)

module _ (f : Component → Bytes)
    (keeps : (a c : Component) → f (absorb a c) ≡ first_of (f a) (f c)) where
  value_of-onto :
      (o : Option Component) (c : Component)
      → value_of f (some (onto o c)) ≡ first_of (value_of f o) (f c)
  value_of-onto none c = refl
  value_of-onto (some d) c = keeps d c

  value_of-gathered :
      (k : Key) (o : Option Component) (cs : List Component)
      → value_of f (gathered k o cs) ≡ first_of (value_of f o) (first_value f k cs)
  unfolding gathered
  value_of-gathered k o [] = first_of_nil (value_of f o)
    where
      first_of_nil : (a : Bytes) → a ≡ first_of a []
      first_of_nil [] = refl
      first_of_nil (x ∷ a) = refl
  value_of-gathered k o (c ∷ cs) = elim (Bool-cases (keyed k c)) [
    | inl mine ↦
        rw (mine, value_of-gathered k (some (onto o c)) cs, value_of-onto o c)
          (first_of_assoc (value_of f o) (f c) (first_value f k cs))
    | inr other ↦ rw other (value_of-gathered k o cs)
  ]

  value_of-with_sets :
      ((c : Component) → f (with_sets c) ≡ f c)
      → (o : Option Component) → value_of f (Option.map with_sets o) ≡ value_of f o
  value_of-with_sets same none = refl
  value_of-with_sets same (some d) = same d

  value_of-normalize :
      ((c : Component) → f (with_sets c) ≡ f c)
      → (k : Key) (cs : List Component)
      → value_of f (first_with (keyed k) (normalize cs)) ≡ first_value f k cs
  value_of-normalize same k cs =
      ap (value_of f) (first_with-normalize k cs)
      ∙ value_of-with_sets same (gathered k none cs)
      ∙ value_of-gathered k none cs

-- The component that `Normalize` returns under a key has as its language, cataloger, digest, vendor and
-- owner the first of the input's values for that key that is not empty, and no value where none is.
pub normalize-first_values :
    (k : Key) (cs : List Component)
    → (value_of (λ d. d.language) (first_with (keyed k) (normalize cs))
        ≡ first_value (λ d. d.language) k cs)
      × (value_of (λ d. d.found_by) (first_with (keyed k) (normalize cs))
          ≡ first_value (λ d. d.found_by) k cs)
      × (value_of (λ d. d.sha256) (first_with (keyed k) (normalize cs))
          ≡ first_value (λ d. d.sha256) k cs)
      × (value_of (λ d. d.vendor) (first_with (keyed k) (normalize cs))
          ≡ first_value (λ d. d.vendor) k cs)
      × (value_of (λ d. d.owned_by) (first_with (keyed k) (normalize cs))
          ≡ first_value (λ d. d.owned_by) k cs)
unfolding absorb with_sets
normalize-first_values k cs = (
  value_of-normalize (λ d. d.language) (λ a c. refl) (λ c. refl) k cs,
  value_of-normalize (λ d. d.found_by) (λ a c. refl) (λ c. refl) k cs,
  value_of-normalize (λ d. d.sha256) (λ a c. refl) (λ c. refl) k cs,
  value_of-normalize (λ d. d.vendor) (λ a c. refl) (λ c. refl) k cs,
  value_of-normalize (λ d. d.owned_by) (λ a c. refl) (λ c. refl) k cs,
)
