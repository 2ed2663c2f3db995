-- ===== src/Scan/Ownership/Vouched.antt =====
-- internal/scan/ownership.go: who owns a component's files.
use swinv.Prelude.{
  ℕ, zero, suc, ◌≡◌, refl, sym, ap, ◌∙◌, Bool, true, false, ◌||◌, ◌&&◌, List, [], ◌∷◌, Option, none,
  some, Bytes, codes, bytes_eq, is_empty, get_elem?, if◌then◌else◌, Bool-cases, inl, inr, arith,
  ◌==◌,
}
use swinv.Prelude.Table.{Table, find}
use swinv.Model.Component.{Component}
use swinv.Scan.Ownership.{
  Relationship, update_at, is_os_package, vouches, link_pair, link_at, apply_file_ownership,
}

-- The package is one of a distribution.
abbrev pub is_distribution : Bytes → Bool
is_distribution typ =
    bytes_eq typ (codes "portage")
    || bytes_eq typ (codes "alpm")
    || bytes_eq typ (codes "apk")
    || bytes_eq typ (codes "rpm")
    || bytes_eq typ (codes "deb")

-- The package URL under which `owner` answers for `owned`, or the empty text.
abbrev pub answer : (owner owned : Option Component) → Bytes
answer none owned = []
answer (some o) none = []
answer (some o) (some c) =
    if is_distribution c.type'
    then []
    else if is_distribution o.type' && bytes_eq o.root c.root
    then o.purl
    else []

abbrev answer_at : List Component → ℕ → Option ℕ → Option ℕ → Bytes
answer_at cs i none owned = []
answer_at cs i (some j) none = []
answer_at cs i (some j) (some k) =
    if j == k then [] else if k == i then answer (get_elem? cs j) (get_elem? cs i) else []

-- What one relationship says of the owner of the component at `i`: the source owns, the target is
-- owned.
abbrev pub claim : List Component → Table ℕ → ℕ → Relationship → Bytes
claim cs by_id i r =
    if r.by_file_overlap then answer_at cs i (find r.from by_id) (find r.to by_id) else []

-- The last relationship that says anything decides.
abbrev pub last_claim : List Component → Table ℕ → ℕ → List Relationship → Bytes → Bytes
last_claim cs by_id i [] before = before
last_claim cs by_id i (r ∷ rs) before =
    last_claim cs by_id i rs
      (let owner = claim cs by_id i r in if is_empty owner then before else owner)

abbrev pub owned : (Bytes → Bytes) → Option Component → Option Component
owned f none = none
owned f (some c) = some (record c { owned_by = f c.owned_by })

is_os_package-is_distribution : (typ : Bytes) → is_os_package typ ≡ is_distribution typ
unfolding is_os_package
is_os_package-is_distribution typ = ground arith

get_elem?-update_at :
    (p : Bytes) (k : ℕ) (cs : List Component) (i : ℕ)
    → get_elem? (update_at k (λ c. record c { owned_by = p }) cs) i
      ≡ (if k == i then owned (λ x. p) (get_elem? cs i) else get_elem? cs i)
get_elem?-update_at p k [] i = ground arith
get_elem?-update_at p zero (c ∷ cs) zero = refl
get_elem?-update_at p zero (c ∷ cs) (suc i) = ground arith
get_elem?-update_at p (suc k) (c ∷ cs) zero = ground arith
get_elem?-update_at p (suc k) (c ∷ cs) (suc i) = ground (arith, get_elem?-update_at p k cs i)

-- What one relationship does to the component at `i`.
abbrev told : Bytes → Option Component → Option Component
told owner = owned (λ p. if is_empty owner then p else owner)

owned_id : (c : Option Component) → owned (λ p. p) c ≡ c
owned_id none = refl
owned_id (some c) = refl

if_same : (b : Bool) (x : Bytes) → (if b then x else x) ≡ x
if_same true x = refl
if_same false x = refl

is_empty-nil : (p : Bytes) → is_empty p ≡ true → p ≡ []
is_empty-nil [] h = refl
is_empty-nil (b ∷ p) h = absurd (cc h)

vouches-answer :
    (o c : Component)
    → vouches o c ≡ true
    → (answer (some o) (some c) ≡ o.purl) × (is_empty o.purl ≡ false)
unfolding vouches
vouches-answer o c h =
    let os' = is_os_package-is_distribution o.type' in
    let eco = is_os_package-is_distribution c.type' in ground (arith, os', eco, h)

not_vouches-answer : (o c : Component) → vouches o c ≡ false → answer (some o) (some c) ≡ []
unfolding vouches
not_vouches-answer o c h =
    let os' = is_os_package-is_distribution o.type' in
    let eco = is_os_package-is_distribution c.type' in
    ground (arith, os', eco, h, is_empty-nil o.purl)

get_elem?-link_pair :
    (cs : List Component) (i k : ℕ) (o c : Option Component)
    → get_elem? (link_pair k o c cs) i ≡ told (if k == i then answer o c else []) (get_elem? cs i)
unfolding link_pair
get_elem?-link_pair cs i k none c = rw (if_same (k == i) []) (sym (owned_id (get_elem? cs i)))
get_elem?-link_pair cs i k (some o) none =
    rw (if_same (k == i) []) (sym (owned_id (get_elem? cs i)))
get_elem?-link_pair cs i k (some o) (some c) = elim (Bool-cases (vouches o c)) [
  | inl yes' ↦
      let (a, e) = vouches-answer o c yes' in
      rw (yes', get_elem?-update_at o.purl k cs i, a)
        (elim (Bool-cases (k == i)) [
          | inl here ↦ rw (here, e) refl
          | inr away ↦ rw away (sym (owned_id (get_elem? cs i)))
        ])
  | inr no' ↦
      rw (no', not_vouches-answer o c no', if_same (k == i) []) (sym (owned_id (get_elem? cs i)))
]

same_at :
    (o : Option Component) (cs : List Component) (k i : ℕ)
    → (if k == i then answer o (get_elem? cs k) else [])
      ≡ (if k == i then answer o (get_elem? cs i) else [])
same_at o cs k i = elim (Bool-cases (k == i)) [
  | inl here ↦ let e : k ≡ i = ground arith in rw e refl
  | inr away ↦ rw away refl
]

get_elem?-link_at :
    (cs : List Component) (i : ℕ) (a b : Option ℕ)
    → get_elem? (link_at a b cs) i ≡ told (answer_at cs i a b) (get_elem? cs i)
unfolding link_at
get_elem?-link_at cs i none b = sym (owned_id (get_elem? cs i))
get_elem?-link_at cs i (some j) none = sym (owned_id (get_elem? cs i))
get_elem?-link_at cs i (some j) (some k) = elim (Bool-cases (j == k)) [
  | inl same ↦ rw same (sym (owned_id (get_elem? cs i)))
  | inr apart ↦
      rw (apart, sym (same_at (get_elem? cs j) cs k i))
        (get_elem?-link_pair cs i k (get_elem? cs j) (get_elem? cs k))
]

-- What a relationship says does not depend on the owners that are set.
answer-owned :
    (f g : Bytes → Bytes) (o c : Option Component) → answer (owned f o) (owned g c) ≡ answer o c
answer-owned f g none c = refl
answer-owned f g (some o) none = refl
answer-owned f g (some o) (some c) = refl

answer_at-link_at :
    (cs : List Component) (i : ℕ) (a b j k : Option ℕ)
    → answer_at (link_at a b cs) i j k ≡ answer_at cs i j k
answer_at-link_at cs i a b none k = refl
answer_at-link_at cs i a b (some j) none = refl
answer_at-link_at cs i a b (some j) (some k) =
    rw (get_elem?-link_at cs j a b, get_elem?-link_at cs i a b)
      (rw (answer-owned _ _ (get_elem? cs j) (get_elem? cs i)) refl)

last_claim-link_at :
    (cs : List Component) (by_id : Table ℕ) (i : ℕ) (a b : Option ℕ) (rs : List Relationship)
    (p : Bytes)
    → last_claim (link_at a b cs) by_id i rs p ≡ last_claim cs by_id i rs p
last_claim-link_at cs by_id i a b [] p = refl
last_claim-link_at cs by_id i a b (r ∷ rs) p =
    rw (answer_at-link_at cs i a b (find r.from by_id) (find r.to by_id))
      (last_claim-link_at cs by_id i a b rs _)

owned_cong :
    (f g : Bytes → Bytes) (c : Option Component) → ((p : Bytes) → f p ≡ g p) → owned f c ≡ owned g c
owned_cong f g none same = refl
owned_cong f g (some c) same = rw (same c.owned_by) refl

owned_twice :
    (f g : Bytes → Bytes) (c : Option Component) → owned f (owned g c) ≡ owned (λ p. f (g p)) c
owned_twice f g none = refl
owned_twice f g (some c) = refl

-- Component by component, the result is the input with the owner that the last relationship to say
-- anything gives; a relationship of ownership by overlapping files says the package URL of its source
-- about its target, where the source is of a distribution, the target of none and both of one root.
pub get_elem?-apply_file_ownership :
    (cs : List Component) (by_id : Table ℕ) (rs : List Relationship) (i : ℕ)
    → get_elem? (apply_file_ownership cs by_id rs) i
      ≡ owned (last_claim cs by_id i rs) (get_elem? cs i)
unfolding apply_file_ownership
get_elem?-apply_file_ownership cs by_id [] i = sym (owned_id (get_elem? cs i))
get_elem?-apply_file_ownership cs by_id (r ∷ rs) i = elim (Bool-cases r.by_file_overlap) [
  | inr other ↦ rw other (get_elem?-apply_file_ownership cs by_id rs i)
  | inl ours ↦
      let a = find r.from by_id in
      let b = find r.to by_id in
      rw ours (
        get_elem?-apply_file_ownership (link_at a b cs) by_id rs i
        ∙ owned_cong _ (last_claim cs by_id i rs) _ (last_claim-link_at cs by_id i a b rs)
        ∙ ap (owned (last_claim cs by_id i rs)) (get_elem?-link_at cs i a b)
        ∙ owned_twice _ _ (get_elem? cs i))
]
