-- ===== src/Common/Lists.antt =====
-- Lists measured and indexed by native numbers, under the library's names, and slices.
use Prim.Native.Nat.{ℕ, zero, suc, ◌+◌, ◌-◌, ◌≤◌, min}
use mathlib.Core.Path.{◌≡◌, refl, ap}
use mathlib.Core.Bool.{Bool, true, false, ◌&&◌, ◌||◌}
use mathlib.Core.List.{List, [], ◌∷◌, ◌++◌, map}
use mathlib.Core.Option.{Option, none, some}
use native.Mathlib.Omega.{arith}

module _ {ℓ} {A : Type ℓ} where
  abbrev pub length : List A → ℕ
  length [] = 0
  length (x ∷ xs) = suc (length xs)

  abbrev pub get_elem? : List A → ℕ → Option A
  get_elem? [] i = none
  get_elem? (x ∷ xs) zero = some x
  get_elem? (x ∷ xs) (suc i) = get_elem? xs i

  abbrev pub get_or : List A → ℕ → A → A
  get_or [] i d = d
  get_or (x ∷ xs) zero d = x
  get_or (x ∷ xs) (suc i) d = get_or xs i d

  abbrev pub take : ℕ → List A → List A
  take zero xs = []
  take (suc n) [] = []
  take (suc n) (x ∷ xs) = x ∷ take n xs

  abbrev pub drop : ℕ → List A → List A
  drop zero xs = xs
  drop (suc n) [] = []
  drop (suc n) (x ∷ xs) = drop n xs

  abbrev pub replicate : ℕ → A → List A
  replicate zero a = []
  replicate (suc n) a = a ∷ replicate n a

  -- A predicate of every element.
  abbrev pub All {κ} : (A → Type κ) → List A → Type κ
  All P [] = Unit
  All P (x ∷ xs) = P x × All P xs

  abbrev pub all : (A → Bool) → List A → Bool
  all p [] = true
  all p (x ∷ xs) = p x && all p xs

  abbrev pub any : (A → Bool) → List A → Bool
  any p [] = false
  any p (x ∷ xs) = p x || any p xs

  -- The elements that pass a Boolean test.
  abbrev pub retain : (A → Bool) → List A → List A
  retain p [] = []
  retain p (x ∷ xs) = elim (p x) [ true ↦ x ∷ retain p xs | false ↦ retain p xs ]

module _ {ℓ} {A : Type ℓ} where
  pub length-append : (xs ys : List A) → length (xs ++ ys) ≡ length xs + length ys
  length-append [] ys = omega arith
  length-append (x ∷ xs) ys = omega (arith, length-append xs ys)

  pub take-append-drop : (n : ℕ) (xs : List A) → take n xs ++ drop n xs ≡ xs
  take-append-drop zero xs = refl
  take-append-drop (suc n) [] = refl
  take-append-drop (suc n) (x ∷ xs) = ap (◌∷◌ x) (take-append-drop n xs)

  pub length-take : (n : ℕ) (xs : List A) → length (take n xs) ≡ min n (length xs)
  length-take zero xs = omega arith
  length-take (suc n) [] = omega arith
  length-take (suc n) (x ∷ xs) = omega (arith, length-take n xs)

  pub length-drop : (n : ℕ) (xs : List A) → length (drop n xs) ≡ length xs - n
  length-drop zero xs = omega arith
  length-drop (suc n) [] = omega arith
  length-drop (suc n) (x ∷ xs) = omega (arith, length-drop n xs)

  pub length-replicate : (n : ℕ) (a : A) → length (replicate n a) ≡ n
  length-replicate zero a = refl
  length-replicate (suc n) a = ap suc (length-replicate n a)

  pub take_all : (xs : List A) → take (length xs) xs ≡ xs
  take_all [] = refl
  take_all (x ∷ xs) = ap (◌∷◌ x) (take_all xs)

  pub drop_all : (n : ℕ) (xs : List A) → length xs ≤ n → drop n xs ≡ []
  drop_all zero [] h = refl
  drop_all (suc n) [] h = refl
  drop_all zero (x ∷ xs) h = absurd (omega arith)
  drop_all (suc n) (x ∷ xs) h = drop_all n xs (omega arith)

  pub take-append : (xs ys : List A) → take (length xs) (xs ++ ys) ≡ xs
  take-append [] ys = refl
  take-append (x ∷ xs) ys = ap (◌∷◌ x) (take-append xs ys)

  pub drop-append : (xs ys : List A) → drop (length xs) (xs ++ ys) ≡ ys
  drop-append [] ys = refl
  drop-append (x ∷ xs) ys = drop-append xs ys

  pub All-append {κ} : (P : A → Type κ) (xs ys : List A) → All P xs → All P ys → All P (xs ++ ys)
  All-append P [] ys h k = k
  All-append P (x ∷ xs) ys h k = (h.0, All-append P xs ys h.1 k)

-- `xs[from..to]`, for `from ≤ to ≤ xs.len()`.
abbrev pub slice {ℓ} : {A : Type ℓ} → ℕ → ℕ → List A → List A
slice from to xs = take (to - from) (drop from xs)

module _ {ℓ} {A : Type ℓ} where
  drop-length_append : (xs ys : List A) (n : ℕ) → n ≡ length xs → drop n (xs ++ ys) ≡ ys
  drop-length_append xs ys n e = rw e (drop-append xs ys)

  -- The part between two others, by its bounds.
  pub slice_of :
      (bytes xs ys zs : List A) (from to : ℕ)
      → bytes ≡ xs ++ (ys ++ zs)
      → from ≡ length xs
      → to ≡ length xs + length ys
      → slice from to bytes ≡ ys
  slice_of bytes xs ys zs from to e ef et =
      let width : to - from ≡ length ys = omega arith in
      rw (e, width, drop-length_append xs (ys ++ zs) from ef) (take-append ys zs)

  get_or-append : (xs ys : List A) (y d : A) → get_or (xs ++ y ∷ ys) (length xs) d ≡ y
  get_or-append [] ys y d = refl
  get_or-append (x ∷ xs) ys y d = get_or-append xs ys y d

  -- The element behind a prefix, by its index.
  pub get_or_of :
      (bytes xs : List A) (y : A) (ys : List A) (i : ℕ) (d : A)
      → bytes ≡ xs ++ y ∷ ys
      → i ≡ length xs
      → get_or bytes i d ≡ y
  get_or_of bytes xs y ys i d e ei = rw (e, ei) (get_or-append xs ys y d)

  pub get_or-prefix :
      (xs ys : List A) (i : ℕ) (d : A) → suc i ≤ length xs → get_or (xs ++ ys) i d ≡ get_or xs i d
  get_or-prefix [] ys i d h = absurd (omega arith)
  get_or-prefix (x ∷ xs) ys zero d h = refl
  get_or-prefix (x ∷ xs) ys (suc i) d h = get_or-prefix xs ys i d (omega arith)

  pub cons_parts : {x y : A} {xs ys : List A} → x ∷ xs ≡ y ∷ ys → (x ≡ y) × (xs ≡ ys)
  cons_parts e = (cc, cc)

  -- Where two splits of one list have the second cut later, the part between the cuts.
  pub append_split :
      (ys xs w z : List A)
      → xs ++ z ≡ ys ++ w
      → length ys ≤ length xs
      → (b : List A) × (xs ≡ ys ++ b) × (b ++ z ≡ w)
  append_split [] xs w z e h = (xs, refl, e)
  append_split (y ∷ ys) [] w z e h = absurd (omega arith)
  append_split (y ∷ ys) (x ∷ xs) w z e h =
      let (b, f, g) = append_split ys xs w z (cons_parts e).1 (omega arith) in
      (b, (λ i. (cons_parts e).0 i ∷ f i), g)

  pub replicate_prefix :
      (p : ℕ) (a : A) (xs w z : List A)
      → xs ++ z ≡ replicate p a ++ w
      → length xs ≤ p
      → xs ≡ replicate (length xs) a
  replicate_prefix p a [] w z e h = refl
  replicate_prefix zero a (x ∷ xs) w z e h = absurd (omega arith)
  replicate_prefix (suc p) a (x ∷ xs) w z e h =
      let tail_eq = replicate_prefix p a xs w z (cons_parts e).1 (omega arith) in
      λ i. (cons_parts e).0 i ∷ tail_eq i

  pub replicate_snoc : (n : ℕ) (a : A) → replicate n a ++ a ∷ [] ≡ a ∷ replicate n a
  replicate_snoc zero a = refl
  replicate_snoc (suc n) a = ap (◌∷◌ a) (replicate_snoc n a)

  pub append-eq-nil : (xs ys : List A) → xs ++ ys ≡ [] → xs ≡ []
  append-eq-nil [] ys e = refl
  append-eq-nil (x ∷ xs) ys e = absurd (cc)

  pub All-append_right {κ} : (P : A → Type κ) (xs ys : List A) → All P (xs ++ ys) → All P ys
  All-append_right P [] ys h = h
  All-append_right P (x ∷ xs) ys h = All-append_right P xs ys h.1

  pub length-map {κ} : {B : Type κ} (xs : List A) (f : A → B) → length (map f xs) ≡ length xs
  length-map [] f = refl
  length-map (x ∷ xs) f = ap suc (length-map xs f)

  -- The lists joined in order.
  abbrev pub flatten : List (List A) → List A
  flatten [] = []
  flatten (xs ∷ rest) = xs ++ flatten rest

  -- A prefix, and the slice from its end on, are a longer prefix.
  pub take-append-slice : (a b : ℕ) (xs : List A) → a ≤ b → take a xs ++ slice a b xs ≡ take b xs
  take-append-slice zero b xs h = let e : b - 0 ≡ b = omega arith in rw e
  take-append-slice (suc a) zero xs h = absurd (omega arith)
  take-append-slice (suc a) (suc b) [] h = nothing (suc b - suc a)
    where
      nothing : (n : ℕ) → take {A = A} n [] ≡ []
      nothing zero = refl
      nothing (suc n) = refl
  take-append-slice (suc a) (suc b) (x ∷ xs) h =
      let e : suc b - suc a ≡ b - a = omega arith in
      rw e (ap (◌∷◌ x) (take-append-slice a b xs (omega arith)))

  pub length-slice : (a b : ℕ) (xs : List A) → a ≤ b → b ≤ length xs → length (slice a b xs) ≡ b - a
  length-slice a b xs h k = omega (arith, length-take (b - a) (drop a xs), length-drop a xs)

  pub get_elem?-append : (xs ys : List A) (y : A) → get_elem? (xs ++ y ∷ ys) (length xs) ≡ some y
  get_elem?-append [] ys y = refl
  get_elem?-append (x ∷ xs) ys y = get_elem?-append xs ys y
