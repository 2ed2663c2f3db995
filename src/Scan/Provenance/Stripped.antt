-- ===== src/Scan/Provenance/Stripped.antt =====
-- internal/scan/provenance.go: what is left of a package URL.
use swinv.Prelude.{
  ℕ, ◌≡◌, refl, sym, ap, ◌∙◌, Bool, true, false, not, ◌&&◌, List, [], ◌∷◌, ◌++◌, append-nil, none,
  Option, some, has_prefix, drop, Bytes, codes, All, All-map, arith, ◌==◌, ==_iff, map, Bool-cases,
  inl, inr, ◌⊎◌, if◌then◌else◌,
}
use swinv.Prelude.Space.{split_at, join_with, cut_at}
use swinv.Prelude.Sort.{any}
use swinv.Scan.Provenance.{
  cut_or_all, kept_qualifiers, with_qualifiers, joined_to, strip_distro_claim, without_namespace,
  last_of,
}

-- The byte `sep` does not occur.
abbrev pub lacks : ℕ → Bytes → Bool
lacks sep s = not (any (λ c. c == sep) s)

cut_at-append :
    (sep : ℕ) (s t : Bytes) → lacks sep s ≡ true → cut_at sep (s ++ (sep ∷ t)) ≡ some (s, t)
unfolding cut_at
cut_at-append sep [] t h = rw ((==_iff sep sep).1 refl) refl
cut_at-append sep (c ∷ s) t h =
    let apart : (c == sep) ≡ false = ground (arith, h) in
    rw (apart, cut_at-append sep s t (ground (arith, h))) refl

cut_at-none : (sep : ℕ) (s : Bytes) → lacks sep s ≡ true → cut_at sep s ≡ none
unfolding cut_at
cut_at-none sep [] h = refl
cut_at-none sep (c ∷ s) h =
    let apart : (c == sep) ≡ false = ground (arith, h) in
    rw (apart, cut_at-none sep s (ground (arith, h))) refl

lacks-append : (sep : ℕ) (s t : Bytes) → lacks sep (s ++ t) ≡ (lacks sep s && lacks sep t)
lacks-append sep [] t = refl
lacks-append sep (c ∷ s) t = ground (arith, lacks-append sep s t)

lacks-join_with :
    (sep other : ℕ) (ws : List Bytes)
    → (other == sep) ≡ false
    → All (λ w. lacks sep w ≡ true) ws
    → lacks sep (join_with (other ∷ []) ws) ≡ true
unfolding join_with
lacks-join_with sep other [] o h = refl
lacks-join_with sep other (w ∷ []) o (h, hs) = h
lacks-join_with sep other (w ∷ v ∷ ws) o (h, hs) =
    let later = lacks-join_with sep other (v ∷ ws) o hs in
    let n = lacks-append sep w (other ∷ join_with (other ∷ []) (v ∷ ws)) in
    ground (arith, h, later, n, o)

split_at-append :
    (sep : ℕ) (w : Bytes) (t : Bytes)
    → lacks sep w ≡ true
    → split_at sep (w ++ (sep ∷ t)) ≡ w ∷ split_at sep t
unfolding split_at
split_at-append sep [] t h = rw ((==_iff sep sep).1 refl) refl
split_at-append sep (c ∷ w) t h =
    let apart : (c == sep) ≡ false = ground (arith, h) in
    rw (apart, split_at-append sep w t (ground (arith, h))) refl

split_at_whole : (sep : ℕ) (w : Bytes) → lacks sep w ≡ true → split_at sep w ≡ w ∷ []
unfolding split_at
split_at_whole sep [] h = refl
split_at_whole sep (c ∷ w) h =
    let apart : (c == sep) ≡ false = ground (arith, h) in
    rw (apart, split_at_whole sep w (ground (arith, h))) refl

pub split_at-join_with :
    (sep : ℕ) (w : Bytes) (ws : List Bytes)
    → All (λ v. lacks sep v ≡ true) (w ∷ ws)
    → split_at sep (join_with (sep ∷ []) (w ∷ ws)) ≡ w ∷ ws
unfolding join_with
split_at-join_with sep w [] (h, hs) = split_at_whole sep w h
split_at-join_with sep w (v ∷ ws) (h, hs) =
    split_at-append sep w (join_with (sep ∷ []) (v ∷ ws)) h
    ∙ ap (◌∷◌ w) (split_at-join_with sep v ws hs)

cut_or_all-append :
    (sep : ℕ) (s t : Bytes) → lacks sep s ≡ true → cut_or_all sep (s ++ (sep ∷ t)) ≡ (s, some t)
unfolding cut_or_all
cut_or_all-append sep s t h = rw (cut_at-append sep s t h) refl

cut_or_all-none : (sep : ℕ) (s : Bytes) → lacks sep s ≡ true → cut_or_all sep s ≡ (s, none)
unfolding cut_or_all
cut_or_all-none sep s h = rw (cut_at-none sep s h) refl

-- A text that can stand between the slashes of a package URL.
abbrev pub IsSegment : Bytes → Type 0
IsSegment s = (lacks b'/' s ≡ true) × (lacks b'?' s ≡ true) × (lacks b'#' s ≡ true)

abbrev pub query : List Bytes → Bytes
query [] = []
query (q ∷ qs) = b'?' ∷ join_with (codes "&") (q ∷ qs)

joined_to-query : (body : Bytes) (ks : List Bytes) → joined_to body ks ≡ body ++ query ks
unfolding joined_to
joined_to-query body [] = sym (append-nil body)
joined_to-query body (k ∷ ks) = refl

last_of-append : (s name : Bytes) (ss : List Bytes) → last_of s (ss ++ (name ∷ [])) ≡ name
last_of-append s name [] = refl
last_of-append s name (t ∷ ss) = last_of-append t name ss

-- Type and name are kept, and all that stands between them is dropped.
without_namespace-append :
    (typ name : Bytes) (namespace : List Bytes)
    → without_namespace
        (codes "pkg:" ++ join_with (codes "/") (typ ∷ namespace ++ (name ∷ [])))
        (typ ∷ namespace ++ (name ∷ []))
      ≡ codes "pkg:" ++ (typ ++ (b'/' ∷ name))
unfolding without_namespace join_with
without_namespace-append typ name [] = refl
without_namespace-append typ name (s ∷ []) = refl
without_namespace-append typ name (s ∷ t ∷ ss) =
    ap (λ last. codes "pkg:" ++ (typ ++ (b'/' ∷ last))) (last_of-append t name ss)

-- A qualifier of a package URL: a key, and a value where there is a `=`.
pub record Qualifier : Type 0 where
  pub key : Bytes
  pub value : Option Bytes

abbrev written : Bytes → Option Bytes → Bytes
written key none = key
written key (some value) = key ++ (b'=' ∷ value)

abbrev pub text_of : Qualifier → Bytes
text_of q = written q.key q.value

abbrev pub IsQualifier : Qualifier → Type 0
IsQualifier q = (lacks b'=' q.key ≡ true) × (lacks b'&' (text_of q) ≡ true)

key-written :
    (key : Bytes) (value : Option Bytes)
    → lacks b'=' key ≡ true
    → (cut_or_all b'=' (written key value)).0 ≡ key
key-written key none h = ap (λ p. p.0) (cut_or_all-none b'=' key h)
key-written key (some value) h = ap (λ p. p.0) (cut_or_all-append b'=' key value h)

List-cases :
    (qs : List Qualifier)
    → (qs ≡ []) ⊎ ((q : Qualifier) × (rest : List Qualifier) × (qs ≡ q ∷ rest))
List-cases [] = inl refl
List-cases (q ∷ rest) = inr (q, rest, refl)

module _ (equal_fold : Bytes → Bytes → Bool) where
  -- The qualifiers that make no claim about the distribution.
  abbrev pub unclaimed : List Qualifier → List Qualifier
  unclaimed [] = []
  unclaimed (q ∷ qs) =
      let others = unclaimed qs in if equal_fold q.key (codes "distro") then others else q ∷ others

  kept_qualifiers-unclaimed :
      (qs : List Qualifier)
      → All IsQualifier qs
      → kept_qualifiers equal_fold (map text_of qs) ≡ map text_of (unclaimed qs)
  unfolding kept_qualifiers
  kept_qualifiers-unclaimed [] h = refl
  kept_qualifiers-unclaimed (q ∷ qs) (h, hs) =
      rw (key-written q.key q.value h.0, kept_qualifiers-unclaimed qs hs)
        (elim (Bool-cases (equal_fold q.key (codes "distro"))) [
          | inl claim ↦ rw claim refl
          | inr other ↦ rw other refl
        ])

  with_qualifiers-query :
      (body : Bytes) (q : Qualifier) (qs : List Qualifier)
      → All IsQualifier (q ∷ qs)
      → with_qualifiers equal_fold body (some (join_with (codes "&") (map text_of (q ∷ qs))))
        ≡ body ++ query (map text_of (unclaimed (q ∷ qs)))
  unfolding with_qualifiers
  with_qualifiers-query body q qs h =
      rw
        (
          split_at-join_with b'&' (text_of q) (map text_of qs) (All-map-text (q ∷ qs) h),
          kept_qualifiers-unclaimed (q ∷ qs) h,
        )
        (joined_to-query body (map text_of (unclaimed (q ∷ qs))))
    where
      All-map-text :
          (ps : List Qualifier)
          → All IsQualifier ps
          → All (λ v. lacks b'&' v ≡ true) (map text_of ps)
      All-map-text [] a = tt
      All-map-text (p ∷ ps) (a, as') = (a.1, All-map-text ps as')

  strip_distro_claim_path :
      (body : Bytes)
      → has_prefix body (codes "pkg:") ≡ true
      → lacks b'?' body ≡ true
      → lacks b'#' body ≡ true
      → strip_distro_claim equal_fold body ≡ without_namespace body (split_at b'/' (drop 4 body))
  unfolding strip_distro_claim with_qualifiers
  strip_distro_claim_path body p h k =
      rw (p, cut_or_all-none b'?' body h, cut_or_all-none b'#' body k) refl

  -- A package URL keeps its type and its name, loses whatever namespace stands between them, and of
  -- its qualifiers keeps, in order, those whose key is not "distro" for EqualFold, without a `?` when
  -- none is left. No segment has a `/`, `?` or `#`, no qualifier a `&`, and all that follows the first
  -- `?` is taken as qualifiers.
  pub strip_distro_claim_parts :
      (typ name : Bytes) (namespace : List Bytes) (qs : List Qualifier)
      → All IsSegment (typ ∷ namespace ++ (name ∷ []))
      → All IsQualifier qs
      → strip_distro_claim equal_fold (
          (codes "pkg:" ++ join_with (codes "/") (typ ∷ namespace ++ (name ∷ [])))
          ++ query (map text_of qs))
        ≡ (codes "pkg:" ++ (typ ++ (b'/' ∷ name))) ++ query (map text_of (unclaimed qs))
  unfolding strip_distro_claim has_prefix
  strip_distro_claim_parts typ name namespace qs h hq =
      let ss = namespace ++ (name ∷ []) in
      let body = codes "pkg:" ++ join_with (codes "/") (typ ∷ ss) in
      let no_query : lacks b'?' body ≡ true =
        lacks-join_with b'?' b'/' (typ ∷ ss) refl (All-map IsSegment _ (λ s k. k.1) (typ ∷ ss) h) in
      let no_fragment : lacks b'#' body ≡ true =
        lacks-join_with b'#' b'/' (typ ∷ ss) refl (All-map IsSegment _ (λ s k. k.2) (typ ∷ ss) h) in
      let segments =
        split_at-join_with b'/' typ ss (All-map IsSegment _ (λ s k. k.0) (typ ∷ ss) h) in
      elim (List-cases qs) [
        | inl none' ↦ rw none' (
            ap (strip_distro_claim equal_fold) (append-nil body)
            ∙ strip_distro_claim_path body refl no_query no_fragment
            ∙ ap (without_namespace body) segments
            ∙ without_namespace-append typ name namespace
            ∙ sym (append-nil _))
        | inr (q, rest, e) ↦
            rw
              (
                e,
                cut_or_all-append b'?' body (join_with (codes "&") (map text_of (q ∷ rest)))
                    no_query,
                cut_or_all-none b'#' body no_fragment,
                segments,
                without_namespace-append typ name namespace,
              )
              (with_qualifiers-query (codes "pkg:" ++ (typ ++ (b'/' ∷ name))) q rest (rw e at hq))
      ]
