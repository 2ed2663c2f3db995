-- ===== src/Scan/Owners/Chased.antt =====
-- internal/scan/fileowners.go: where `chaseSymlink` ends.
use swinv.Prelude.{
  ℕ, zero, suc, ◌<◌, ◌≡◌, ◌↔◌, refl, Option, none, some, some-injective, Bytes, arith,
}
use mathlib.Core.Path.{subst}
use swinv.Scan.Owners.{
  Entry, regular, symlink, other, Paths, target_of, follow, chase, chase_symlink, max_hops,
}

-- So many links lead from a path to a regular file.
pub data Leads (os : Paths) : ℕ → Bytes → Bytes → Type 0 where
  there : (p : Bytes) → os.lstat p ≡ some regular → Leads os 0 p p
  hop :
      (n : ℕ) (p target q : Bytes)
      → os.lstat p ≡ some (symlink (some target))
      → Leads os n (target_of os p target) q
      → Leads os (suc n) p q

module _ (os : Paths) where
  follow_sound :
      (hops : ℕ) (p q : Bytes)
      → ((r : Bytes) → chase os hops r ≡ some q → (n : ℕ) × (n < hops) × Leads os n r q)
      → (o : Option Entry) → os.lstat p ≡ o
      → follow os (λ target. chase os hops (target_of os p target)) p o ≡ some q
      → (n : ℕ) × (n < suc hops) × Leads os n p q
  follow_sound hops p q later none i e = absurd (cc e)
  follow_sound hops p q later (some regular) i e =
      (0, omega arith, subst (Leads os 0 p) (some-injective p q e) (there p i))
  follow_sound hops p q later (some other) i e = absurd (cc e)
  follow_sound hops p q later (some (symlink none)) i e = absurd (cc e)
  follow_sound hops p q later (some (symlink (some target))) i e =
      let (n, l, r) = later (target_of os p target) e in
      (suc n, omega (arith, l), hop n p target q i r)

  chase_sound :
      (hops : ℕ) (p q : Bytes) → chase os hops p ≡ some q → (n : ℕ) × (n < hops) × Leads os n p q
  unfolding chase
  chase_sound zero p q e = absurd (cc e)
  chase_sound (suc hops) p q e =
      follow_sound hops p q (λ r. chase_sound hops r q) (os.lstat p) refl e

  chase_complete : (hops n : ℕ) (p q : Bytes) → n < hops → Leads os n p q → chase os hops p ≡ some q
  unfolding chase
  chase_complete zero n p q l r = absurd (omega (arith, l))
  chase_complete (suc hops) _ _ _ l (there p i) = rw i refl
  chase_complete (suc hops) _ _ _ l (hop m p target q i r) =
      rw i (chase_complete hops m (target_of os p target) q (omega (arith, l)) r)

  -- A file is found for a path exactly when fewer than eight links lead from the path to it and it is
  -- regular.
  pub chase_symlink_iff :
      (p q : Bytes) → (chase_symlink os p ≡ some q) ↔ ((n : ℕ) × (n < max_hops) × Leads os n p q)
  unfolding chase_symlink
  chase_symlink_iff p q = (chase_sound max_hops p q, λ r. chase_complete max_hops r.0 p q r.1 r.2)
