-- ===== src/Service/Backend/Unambiguous.antt =====
-- internal/service/expose.go: when a port alone names a container.
use swinv.Prelude.{
  ℕ, ◌≡◌, refl, sym, ap, ◌∙◌, Bool, true, false, not, ◌||◌, List, [], ◌∷◌, none, some, Bytes,
  bytes_eq, bytes_eq_refl, bytes_eq_iff, if◌then◌else◌, ◌==◌, All, Bool-cases, inl, inr,
}
use swinv.Prelude.Sort.{any, first_with-any}
use swinv.Service.Backend.{
  Endpoint, Container, Search, ambiguous, so_far, met, search_endpoints, search_services,
  search_containers, found_of, has_address, match_backend,
}

-- Whether a service of the container listens on the port.
abbrev pub listens : ℕ → Container → Bool
listens port c = any (any (λ e. e.port == port)) c.services

met_twice : (c : Container) (s : Search) → met c (met c s) ≡ met c s
unfolding met
met_twice c ambiguous = refl
met_twice c (so_far none) = rw (bytes_eq_refl c.id) refl
met_twice c (so_far (some m)) = elim (Bool-cases (bytes_eq m.id c.id)) [
  | inl same ↦ rw (same, bytes_eq_refl c.id) refl
  | inr other ↦ rw other refl
]

-- Meeting a container again changes nothing.
met_if :
    (b d : Bool) (c : Container) (s : Search)
    → (if d then met c (if b then met c s else s) else (if b then met c s else s))
      ≡ (if b || d then met c s else s)
met_if true true c s = met_twice c s
met_if true false c s = refl
met_if false true c s = refl
met_if false false c s = refl

search_endpoints-met :
    (port : ℕ) (c : Container) (es : List Endpoint) (s : Search)
    → search_endpoints port c es s ≡ (if any (λ e. e.port == port) es then met c s else s)
unfolding search_endpoints
search_endpoints-met port c [] s = refl
search_endpoints-met port c (e ∷ es) s =
    search_endpoints-met port c es (if e.port == port then met c s else s)
    ∙ met_if (e.port == port) (any (λ x. x.port == port) es) c s

search_services-met :
    (port : ℕ) (c : Container) (services : List (List Endpoint)) (s : Search)
    → search_services port c services s
      ≡ (if any (any (λ e. e.port == port)) services then met c s else s)
unfolding search_services
search_services-met port c [] s = refl
search_services-met port c (es ∷ services) s =
    ap (search_services port c services) (search_endpoints-met port c es s)
    ∙ search_services-met port c services (if any (λ e. e.port == port) es then met c s else s)
    ∙ met_if (any (λ e. e.port == port) es) (any (any (λ e. e.port == port)) services) c s

-- Every container that listens on the port has the identifier `k`.
abbrev pub AllCalled : ℕ → Bytes → List Container → Type 0
AllCalled port k = All (λ d. (not (listens port d) || bytes_eq d.id k) ≡ true)

search_containers-ambiguous :
    (port : ℕ) (cs : List Container) → search_containers port cs ambiguous ≡ ambiguous
unfolding search_containers met
search_containers-ambiguous port [] = refl
search_containers-ambiguous port (c ∷ cs) =
    ap (search_containers port cs)
      (search_services-met port c c.services ambiguous ∙ if_same (listens port c))
    ∙ search_containers-ambiguous port cs
  where
    if_same : (b : Bool) → (if b then ambiguous else ambiguous) ≡ ambiguous
    if_same true = refl
    if_same false = refl

so_far-injective : (m c : Container) → so_far (some m) ≡ so_far (some c) → m ≡ c
so_far-injective m c e = cc e

found_sound :
    (port : ℕ) (cs : List Container) (m c : Container)
    → listens port m ≡ true
    → search_containers port cs (so_far (some m)) ≡ so_far (some c)
    → (listens port c ≡ true) × (m.id ≡ c.id) × AllCalled port c.id cs
unfolding search_containers met
found_sound port [] m c l e =
    let i = so_far-injective m c e in (sym (ap (listens port) i) ∙ l, ap (λ x. x.id) i, tt)
found_sound port (d ∷ cs) m c l e =
    let e' =
      sym (ap (search_containers port cs) (search_services-met port d d.services (so_far (some m))))
      ∙ e in
    elim (Bool-cases (listens port d)) [
      | inr silent ↦
          let (a, i, r) = found_sound port cs m c l (rw silent at e') in (a, i, (rw silent refl, r))
      | inl loud ↦ elim (Bool-cases (bytes_eq m.id d.id)) [
        | inl same ↦
            let (a, i, r) = found_sound port cs d c loud (rw (loud, same) at e') in
            let own : bytes_eq d.id c.id ≡ true = (bytes_eq_iff d.id c.id).1 i in
            (a, (bytes_eq_iff m.id d.id).0 same ∙ i, (rw (loud, own) refl, r))
        | inr other ↦
            let clash : ambiguous ≡ so_far (some c) =
              sym (search_containers-ambiguous port cs) ∙ (rw (loud, other) at e') in
            absurd (cc clash)
      ]
    ]

first_found :
    (port : ℕ) (cs : List Container) (c : Container)
    → search_containers port cs (so_far none) ≡ so_far (some c)
    → (listens port c ≡ true) × AllCalled port c.id cs
unfolding search_containers met
first_found port [] c e = absurd (cc e)
first_found port (d ∷ cs) c e =
    let e' =
      sym (ap (search_containers port cs) (search_services-met port d d.services (so_far none)))
      ∙ e in
    elim (Bool-cases (listens port d)) [
      | inr silent ↦
          let (a, r) = first_found port cs c (rw silent at e') in (a, (rw silent refl, r))
      | inl loud ↦
          let (a, i, r) = found_sound port cs d c loud (rw loud at e') in
          let own : bytes_eq d.id c.id ≡ true = (bytes_eq_iff d.id c.id).1 i in
          (a, (rw (loud, own) refl, r))
    ]

found_complete :
    (port : ℕ) (k : Bytes) (cs : List Container) (m : Container)
    → m.id ≡ k
    → AllCalled port k cs
    → (c : Container) × (search_containers port cs (so_far (some m)) ≡ so_far (some c))
unfolding search_containers met
found_complete port k [] m i h = (m, refl)
found_complete port k (d ∷ cs) m i (p, h) =
    let step =
      ap (search_containers port cs) (search_services-met port d d.services (so_far (some m))) in
    elim (Bool-cases (listens port d)) [
      | inr silent ↦ let (c, e) = found_complete port k cs m i h in (c, (rw silent at step) ∙ e)
      | inl loud ↦
          let called : bytes_eq d.id k ≡ true = rw loud at p in
          let j = (bytes_eq_iff d.id k).0 called in
          let same : bytes_eq m.id d.id ≡ true = (bytes_eq_iff m.id d.id).1 (i ∙ sym j) in
          let (c, e) = found_complete port k cs d j h in (c, (rw (loud, same) at step) ∙ e)
    ]

first_complete :
    (port : ℕ) (k : Bytes) (cs : List Container)
    → any (listens port) cs ≡ true
    → AllCalled port k cs
    → (c : Container) × (search_containers port cs (so_far none) ≡ so_far (some c))
unfolding search_containers met
first_complete port k [] a h = absurd (cc a)
first_complete port k (d ∷ cs) a (p, h) =
    let step =
      ap (search_containers port cs) (search_services-met port d d.services (so_far none)) in
    elim (Bool-cases (listens port d)) [
      | inr silent ↦
          let (c, e) = first_complete port k cs (rw silent at a) h in (c, (rw silent at step) ∙ e)
      | inl loud ↦
          let called : bytes_eq d.id k ≡ true = rw loud at p in
          let (c, e) = found_complete port k cs d ((bytes_eq_iff d.id k).0 called) h in
          (c, (rw loud at step) ∙ e)
    ]

-- Where no container has the forward's address, a container that is found listens on its port, and all
-- that do have its identifier; and one is found if some container listens on the port and all that do
-- have one identifier.
pub match_backend_unambiguous :
    (same_ip : Bytes → Bytes → Bool) (cs : List Container) (address : Bytes) (port : ℕ)
    → any (has_address same_ip address) cs ≡ false
    → ((c : Container)
        → match_backend same_ip cs address port ≡ some c
        → (listens port c ≡ true) × AllCalled port c.id cs)
      × ((k : Bytes)
          → any (listens port) cs ≡ true
          → AllCalled port k cs
          → (c : Container) × (match_backend same_ip cs address port ≡ some c))
unfolding match_backend
match_backend_unambiguous same_ip cs address port h =
    rw (first_with-any (has_address same_ip address) cs h) (
      λ c e. first_found port cs c (of_found (search_containers port cs (so_far none)) c e),
      λ k a all. let (c, e) = first_complete port k cs a all in (c, ap found_of e),
    )
  where
    of_found : (s : Search) (c : Container) → found_of s ≡ some c → s ≡ so_far (some c)
    of_found ambiguous c e = absurd (cc e)
    of_found (so_far m) c e = ap so_far e
