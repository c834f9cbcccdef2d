-- ===== src/Common/Maps.antt =====
-- Finite maps as association lists, and sets of numbers as ascending lists: Rust's `BTreeMap` and `BTreeSet`,
-- as far as the order of a map's entries is not seen.
use hart_link.Common.{
  ℕ, suc, ◌≡◌, refl, arith, ◌↔◌, Bool, true, false, not, ◌&&◌, ◌||◌, Option, none, some, List, [],
  ◌∷◌, length, any, retain, ltb, ◌==◌, ==_iff, if◌then◌else◌,
}

-- A type of keys, with the test whether two are equal.
pub record Key {ℓ} (K : Type ℓ) : Type ℓ where
  pub same : K → K → Bool
  pub same_iff : (a b : K) → (same a b ≡ true) ↔ (a ≡ b)

instance unfoldable pub nat_key : Key ℕ
nat_key = record { same = λ a b. a == b; same_iff = ==_iff }

pub pair_iff : (a b : ℕ × ℕ) → (((a.0 == b.0) && (a.1 == b.1)) ≡ true) ↔ (a ≡ b)
pair_iff (a, a') (b, b') = ground arith

instance unfoldable pub pair_key : Key (ℕ × ℕ)
pair_key = record { same = λ a b. (a.0 == b.0) && (a.1 == b.1); same_iff = pair_iff }

abbrev pub is_some {ℓ} : {A : Type ℓ} → Option A → Bool
is_some none = false
is_some (some _) = true

module _ {ℓ κ} {K : Type ℓ} {V : Type κ} ⦃o : Key K⦄ where
  unfoldable pub lookup : K → List (K × V) → Option V
  lookup k [] = none
  lookup k (e ∷ m) = elim (o.same k e.0) [ true ↦ some e.1 | false ↦ lookup k m ]

  -- `insert`, and the assignment to an entry.
  unfoldable pub put : K → V → List (K × V) → List (K × V)
  put k v [] = (k, v) ∷ []
  put k v (e ∷ m) = elim (o.same k e.0) [ true ↦ (k, v) ∷ m | false ↦ e ∷ put k v m ]

  -- `retain` with a test of the keys.
  unfoldable pub retain_keys : (K → Bool) → List (K × V) → List (K × V)
  retain_keys p m = retain (λ e. p e.0) m

  -- `remove`
  unfoldable pub erase : K → List (K × V) → List (K × V)
  unfolding retain_keys
  erase k m = retain_keys (λ x. not (o.same x k)) m

module _ {ℓ κ} {K : Type ℓ} {V : Type κ} ⦃o : Key K⦄ where
  pub lookup-put :
      (z k : K) (v : V) (m : List (K × V))
      → lookup z (put k v m) ≡ (if o.same z k then some v else lookup z m)
  unfolding lookup put
  lookup-put z k v [] = ground arith
  lookup-put z k v (e ∷ m) =
      ground (arith, lookup-put z k v m, o.same_iff k e.0, o.same_iff z e.0, o.same_iff z k)

  pub lookup-retain_keys :
      (z : K) (p : K → Bool) (m : List (K × V))
      → lookup z (retain_keys p m) ≡ (if p z then lookup z m else none)
  unfolding lookup retain_keys
  lookup-retain_keys z p [] = ground arith
  lookup-retain_keys z p (e ∷ m) = ground (arith, lookup-retain_keys z p m, o.same_iff z e.0)

  pub lookup-erase :
      (z k : K) (m : List (K × V))
      → lookup z (erase k m) ≡ (if o.same z k then none else lookup z m)
  unfolding erase
  lookup-erase z k m = ground (arith, lookup-retain_keys z (λ x. not (o.same x k)) m)

  pub length-put_new :
      (k : K) (v : V) (m : List (K × V)) → lookup k m ≡ none → length (put k v m) ≡ suc (length m)
  unfolding lookup put
  length-put_new k v [] h = refl
  length-put_new k v (e ∷ m) h = ground (arith, length-put_new k v m)

unfoldable pub contains : ℕ → List ℕ → Bool
contains x s = any (λ y. y == x) s

unfoldable pub set_insert : ℕ → List ℕ → List ℕ
set_insert x [] = x ∷ []
set_insert x (y ∷ s) = if ltb x y then x ∷ y ∷ s else if x == y then y ∷ s else y ∷ set_insert x s

unfoldable pub set_remove : ℕ → List ℕ → List ℕ
set_remove x s = retain (λ y. not (y == x)) s

pub contains-set_insert :
    (z x : ℕ) (s : List ℕ) → contains z (set_insert x s) ≡ ((z == x) || contains z s)
unfolding contains set_insert
contains-set_insert z x [] = ground arith
contains-set_insert z x (y ∷ s) = ground (arith, contains-set_insert z x s)

pub contains-set_remove :
    (z x : ℕ) (s : List ℕ) → contains z (set_remove x s) ≡ (not (z == x) && contains z s)
unfolding contains set_remove
contains-set_remove z x [] = ground arith
contains-set_remove z x (y ∷ s) = ground (arith, contains-set_remove z x s)
