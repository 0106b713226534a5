-- ===== src/Prelude/Lists.antt =====
-- Lists: predicates by recursion, and measures by native numbers under the library's names.
use Prim.Native.Nat.{ℕ, zero, suc, ◌+◌}
use mathlib.Core.Path.{◌≡◌, refl, ap}
use mathlib.Core.Logic.{◌≢◌, ◌⊎◌, inl, inr}
use mathlib.Core.Bool.{Bool, true, false}
use mathlib.Core.List.{List, [], ◌∷◌, ◌++◌}
use mathlib.Core.Option.{Option, none, some}
use native.Mathlib.Omega.{arith}

module _ {ℓ} {A : Type ℓ} where
  abbrev pub length : List A → ℕ
  length [] = 0
  length (x ∷ xs) = suc (length xs)

  abbrev pub take : ℕ → List A → List A
  take zero xs = []
  take (suc n) [] = []
  take (suc n) (x ∷ xs) = x ∷ take n xs

  abbrev pub drop : ℕ → List A → List A
  drop zero xs = xs
  drop (suc n) [] = []
  drop (suc n) (x ∷ xs) = drop n xs

  abbrev pub get_elem? : List A → ℕ → Option A
  get_elem? [] i = none
  get_elem? (x ∷ xs) zero = some x
  get_elem? (x ∷ xs) (suc i) = get_elem? xs i

  abbrev pub is_empty : List A → Bool
  is_empty [] = true
  is_empty (x ∷ xs) = false

  pub get_elem?-append_left :
      (xs ys : List A) (i : ℕ) {x : A} → get_elem? xs i ≡ some x → get_elem? (xs ++ ys) i ≡ some x
  get_elem?-append_left [] ys i h = cc
  get_elem?-append_left (a ∷ xs) ys zero h = h
  get_elem?-append_left (a ∷ xs) ys (suc i) h = get_elem?-append_left xs ys i h

  pub take-length-append : (xs ys : List A) → take (length xs) (xs ++ ys) ≡ xs
  take-length-append [] ys = refl
  take-length-append (x ∷ xs) ys = ap (◌∷◌ x) (take-length-append xs ys)

  pub drop-length-append : (xs ys : List A) → drop (length xs) (xs ++ ys) ≡ ys
  drop-length-append [] ys = refl
  drop-length-append (x ∷ xs) ys = drop-length-append xs ys

  pub length-append : (xs ys : List A) → length (xs ++ ys) ≡ length xs + length ys
  length-append [] ys = omega arith
  length-append (x ∷ xs) ys = omega (arith, length-append xs ys)

  pub is_empty-false : (xs : List A) → xs ≢ [] → is_empty xs ≡ false
  is_empty-false [] h = absurd (h refl)
  is_empty-false (x ∷ xs) h = refl

  pub ne-nil_of_is_empty : (xs : List A) → is_empty xs ≡ false → xs ≢ []
  ne-nil_of_is_empty [] h = cc
  ne-nil_of_is_empty (x ∷ xs) h = λ e. cc

module _ {ℓ κ} {A : Type ℓ} (P : A → Type κ) where
  -- Every element has the property.
  abbrev pub All : List A → Type κ
  All [] = Unit
  All (x ∷ xs) = P x × All xs

  pub All-append : (xs ys : List A) → All xs → All ys → All (xs ++ ys)
  All-append [] ys hx hy = hy
  All-append (x ∷ xs) ys (px, hx) hy = (px, All-append xs ys hx hy)

module _ {ℓ} {A : Type ℓ} (P : A → Type 0) where
  -- Some element has it, with its place.
  abbrev pub Any : List A → Type 0
  Any [] = ⊥
  Any (x ∷ xs) = P x ⊎ Any xs

  -- What holds of every element holds of the one found.
  pub All-Any {κ} :
      (Q : A → Type κ) (R : Type κ)
      → ((x : A) → P x → Q x → R)
      → (xs : List A) → Any xs
      → All Q xs
      → R
  All-Any Q R k [] a q = absurd a
  All-Any Q R k (x ∷ xs) (inl p) (q, _) = k x p q
  All-Any Q R k (x ∷ xs) (inr a) (_, qs) = All-Any Q R k xs a qs

pub Any-map :
    {A : Type 0} (P Q : A → Type 0) → ((x : A) → P x → Q x) → (xs : List A) → Any P xs → Any Q xs
Any-map P Q k [] a = a
Any-map P Q k (x ∷ xs) (inl p) = inl (k x p)
Any-map P Q k (x ∷ xs) (inr a) = inr (Any-map P Q k xs a)

-- What holds of each element found holds of all.
pub All-Any_converse {κ} :
    {A : Type 0} (P : A → Type κ) (xs : List A) → ((x : A) → Any (λ y. y ≡ x) xs → P x) → All P xs
All-Any_converse P [] k = tt
All-Any_converse P (x ∷ xs) k = (k x (inl refl), All-Any_converse P xs (λ y a. k y (inr a)))
