-- ===== src/Prelude/Outcome.antt =====
-- A Go function that returns `error` and changes state: the state comes back beside the error.
use mathlib.Core.Path.{◌≡◌, refl, subst}
use mathlib.Core.Logic.{◌⊎◌, inl, inr}
use native.Mathlib.Omega.{arith}

pub data Result {ℓ} (E A : Type ℓ) : Type ℓ where
  ok : A → Result E A
  err : E → Result E A

abbrev pub Eff : Type 0 → Type 0 → Type 0 → Type 0
Eff S E A = S → Result E A × S

module _ {S E A : Type 0} where
  abbrev pub pure : A → Eff S E A
  pure a s = (ok a, s)

  abbrev pub fail : E → Eff S E A
  fail e s = (err e, s)

module _ {S E A B : Type 0} where
  abbrev pub continue : Result E A → (A → Eff S E B) → Eff S E B
  continue (ok a) f s = f a s
  continue (err e) f s = (err e, s)

  infixl 5 ◌>>=◌ ◌>>◌
  abbrev pub ◌>>=◌ : Eff S E A → (A → Eff S E B) → Eff S E B
  ◌>>=◌ m f s = let (r, s') = m s in continue r f s'

  abbrev pub ◌>>◌ : Eff S E A → Eff S E B → Eff S E B
  m >> n = m >>= λ _. n

pub Result-cases {ℓ} :
    {E A : Type ℓ} (r : Result E A) → ((a : A) × (r ≡ ok a)) ⊎ ((e : E) × (r ≡ err e))
Result-cases (ok a) = inl (a, refl)
Result-cases (err e) = inr (e, refl)

pub bind_assoc :
    {S E A B C : Type 0} (m : Eff S E A) (f : A → Eff S E B) (g : B → Eff S E C) (s : S)
    → ((m >>= f) >>= g) s ≡ (m >>= λ a. f a >>= g) s
bind_assoc m f g s = ground arith

pub bind_ext :
    {S E A B : Type 0} (m : Eff S E A) (f g : A → Eff S E B)
    → ((a : A) (s : S) → f a s ≡ g a s)
    → (s : S) → (m >>= f) s ≡ (m >>= g) s
bind_ext {S} {E} {A} {B} m f g h s = go (m s).0 (m s).1
  where
    go : (r : Result E A) (s' : S) → continue r f s' ≡ continue r g s'
    go (ok a) s' = h a s'
    go (err e) s' = refl

pub bind_head :
    {S E A B : Type 0} (m n : Eff S E A) (f : A → Eff S E B) (s : S)
    → m s ≡ n s
    → (m >>= f) s ≡ (n >>= f) s
bind_head m n f s h = λ i. continue (h i).0 f (h i).1

-- A sequence that succeeds: its first part succeeded, and so did the rest from there.
pub bind-ok :
    {S E A B : Type 0} (m : Eff S E A) (f : A → Eff S E B) (s : S) {b : B} {s' : S}
    → (m >>= f) s ≡ (ok b, s')
    → (a : A) × (t : S) × (m s ≡ (ok a, t)) × (f a t ≡ (ok b, s'))
bind-ok {S} {E} {A} {B} m f s {b} {s'} h = go (m s).0 (m s).1 h
  where
    go :
        (r : Result E A) (t : S)
        → continue r f t ≡ (ok b, s')
        → (a : A) × (u : S) × (◌≡◌ {A = Result E A × S} (r, t) (ok a, u)) × (f a u ≡ (ok b, s'))
    go (ok a) t e = (a, t, refl, e)
    go (err x) t e = absurd (cc e)

-- What an operation keeps, whether it succeeds or fails.
pub record Keeps {S E A : Type 0} (P : S → Type 0) (m : Eff S E A) : Type 0 where
  pub at : (s : S) → P s → P (m s).1

module _ {S E A B : Type 0} {P : S → Type 0} where
  pub Keeps-bind :
      (m : Eff S E A) (f : A → Eff S E B)
      → Keeps P m
      → ((a : A) → Keeps P (f a))
      → Keeps P (m >>= f)
  Keeps-bind m f km kf = record { at = λ s h. go (m s).0 (m s).1 (km.at s h) }
    where
      go : (r : Result E A) (t : S) → P t → P (continue r f t).1
      go (ok a) t h = (kf a).at t h
      go (err e) t h = h

pub Keeps-after :
    {S E A : Type 0} (P : S → Type 0) (m : Eff S E A)
    → Keeps P m
    → (s : S) (r : Result E A) (s' : S) → m s ≡ (r, s')
    → P s
    → P s'
Keeps-after P m k s r s' e h = subst P (λ i. (e i).1) (k.at s h)

pub ok-injective :
    {S E A : Type 0} {a b : A} {s t : S}
    → ◌≡◌ {A = Result E A × S} (ok a, s) (ok b, t)
    → (a ≡ b) × (s ≡ t)
ok-injective {S} {E} {A} {a} {b} h =
    let same : ◌≡◌ {A = Result E A} (ok a) (ok b) = λ i. (h i).0 in (cc same, λ i. (h i).1)
