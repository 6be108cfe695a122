-- ===== src/Prelude/Lists.antt =====
-- Lists measured and indexed by native numbers, under the library's names, and sets of numbers kept
-- as lists.
use Prim.Native.Nat.{ℕ, zero, suc, ◌+◌, ◌-◌, ◌<◌, ◌≤◌, min}
use mathlib.Core.Path.{◌≡◌, refl, ap}
use mathlib.Core.Bool.{Bool, true, false, ◌||◌}
use mathlib.Core.List.{List, [], ◌∷◌, ◌++◌}
use native.Mathlib.Omega.{arith}
use cpa_helper_s.Prelude.Tests.{◌==◌, if◌then◌else◌}

module _ {ℓ} {A : Type ℓ} where
  abbrev pub length : List A → ℕ
  length [] = 0
  length (x ∷ xs) = suc (length xs)

  abbrev pub drop : ℕ → List A → List A
  drop zero xs = xs
  drop (suc n) [] = []
  drop (suc n) (x ∷ xs) = drop n xs

  abbrev pub replicate : ℕ → A → List A
  replicate zero a = []
  replicate (suc n) a = a ∷ replicate n a

  pub length-append : (xs ys : List A) → length (xs ++ ys) ≡ length xs + length ys
  length-append [] ys = omega arith
  length-append (x ∷ xs) ys = omega (arith, length-append xs ys)

  pub length-drop : (n : ℕ) (xs : List A) → length (drop n xs) ≡ length xs - n
  length-drop zero xs = omega arith
  length-drop (suc n) [] = omega arith
  length-drop (suc n) (x ∷ xs) = omega (arith, length-drop n xs)

  pub length-replicate : (n : ℕ) (a : A) → length (replicate n a) ≡ n
  length-replicate zero a = refl
  length-replicate (suc n) a = ap suc (length-replicate n a)

-- A predicate by recursion computes to tuples, which the tactics read and build.
abbrev pub All {ℓ κ} : {A : Type ℓ} → (A → Type κ) → List A → Type κ
All P [] = Unit
All P (x ∷ xs) = P x × All P xs

pub All-map {ℓ κ ρ} :
    {A : Type ℓ} (P : A → Type κ) (Q : A → Type ρ) (xs : List A)
    → ((x : A) → P x → Q x)
    → All P xs
    → All Q xs
All-map P Q [] f all = tt
All-map P Q (x ∷ xs) f all = (f x all.0, All-map P Q xs f all.1)

-- A list of numbers as a set.
abbrev pub contains : ℕ → List ℕ → Bool
contains a [] = false
contains a (x ∷ xs) = x == a || contains a xs

-- The first occurrence goes.
abbrev pub erase : ℕ → List ℕ → List ℕ
erase a [] = []
erase a (x ∷ xs) = if x == a then xs else x ∷ erase a xs

pub length-erase :
    (a : ℕ) (xs : List ℕ) → contains a xs ≡ true → suc (length (erase a xs)) ≡ length xs
length-erase a [] h = ground arith
length-erase a (x ∷ xs) h = ground (arith, length-erase a xs)

pub length-erase-le : (a : ℕ) (xs : List ℕ) → length (erase a xs) ≤ length xs
length-erase-le a [] = omega arith
length-erase-le a (x ∷ xs) = ground (arith, length-erase-le a xs)

pub erase-append :
    (a : ℕ) (xs ys : List ℕ) → contains a xs ≡ false → erase a (xs ++ ys) ≡ xs ++ erase a ys
erase-append a [] ys h = refl
erase-append a (x ∷ xs) ys h = ground (arith, erase-append a xs ys)

-- Every entry is below a bound, and no number stands twice.
abbrev pub Below : ℕ → List ℕ → Type 0
Below n = All (λ x. x < n)

abbrev pub Distinct : List ℕ → Type 0
Distinct [] = Unit
Distinct (x ∷ xs) = (contains x xs ≡ false) × Distinct xs

pub not-contains-of_Below : (a n : ℕ) (xs : List ℕ) → Below n xs → n ≤ a → contains a xs ≡ false
not-contains-of_Below a n [] b h = refl
not-contains-of_Below a n (x ∷ xs) b h = ground (arith, not-contains-of_Below a n xs b.1)

pub Below-mono : (m n : ℕ) (xs : List ℕ) → m ≤ n → Below m xs → Below n xs
Below-mono m n [] h b = tt
Below-mono m n (x ∷ xs) h b = (omega arith, Below-mono m n xs h b.1)

pub Below-erase : (a n : ℕ) (xs : List ℕ) → Below n xs → Below n (erase a xs)
Below-erase a n [] b = tt
Below-erase a n (x ∷ xs) b = ground (arith, Below-erase a n xs b.1)

pub not-contains-erase :
    (a b : ℕ) (xs : List ℕ) → contains a xs ≡ false → contains a (erase b xs) ≡ false
not-contains-erase a b [] h = refl
not-contains-erase a b (x ∷ xs) h = ground (arith, not-contains-erase a b xs)

pub Distinct-erase : (a : ℕ) (xs : List ℕ) → Distinct xs → Distinct (erase a xs)
Distinct-erase a [] d = tt
Distinct-erase a (x ∷ xs) d = ground (arith, Distinct-erase a xs d.1, not-contains-erase x a xs d.0)

pub erased-not-contains : (a : ℕ) (xs : List ℕ) → Distinct xs → contains a (erase a xs) ≡ false
erased-not-contains a [] d = refl
erased-not-contains a (x ∷ xs) d = ground (arith, erased-not-contains a xs d.1)

module _ {ℓ} {A : Type ℓ} where
  abbrev pub take : ℕ → List A → List A
  take zero xs = []
  take (suc n) [] = []
  take (suc n) (x ∷ xs) = x ∷ take n xs

  -- The entries pushed one after the other.
  abbrev pub push_all : List A → List A → List A
  push_all [] ys = ys
  push_all (x ∷ xs) ys = push_all xs (x ∷ ys)

  pub take_all : (n : ℕ) (xs : List A) → length xs ≤ n → take n xs ≡ xs
  take_all zero [] h = refl
  take_all (suc n) [] h = refl
  take_all zero (x ∷ xs) h = absurd (omega arith)
  take_all (suc n) (x ∷ xs) h = ap (λ ys. x ∷ ys) (take_all n xs (omega arith))

  pub drop_all : (n : ℕ) (xs : List A) → length xs ≤ n → drop n xs ≡ []
  drop_all zero [] h = refl
  drop_all zero (x ∷ xs) h = absurd (omega arith)
  drop_all (suc n) [] h = refl
  drop_all (suc n) (x ∷ xs) h = drop_all n xs (omega arith)

  pub drop-drop : (m n k : ℕ) (xs : List A) → m + n ≡ k → drop m (drop n xs) ≡ drop k xs
  drop-drop m zero k xs h = let m_k : m ≡ k = omega arith in rw m_k refl
  drop-drop zero (suc n) k xs h = let k_n : k ≡ suc n = omega arith in rw k_n refl
  drop-drop (suc m) (suc n) zero xs h = absurd (omega arith)
  drop-drop (suc m) (suc n) (suc k) [] h = refl
  drop-drop (suc m) (suc n) (suc k) (x ∷ xs) h = drop-drop (suc m) n k xs (omega arith)

  pub take-append-drop : (n : ℕ) (xs : List A) → take n xs ++ drop n xs ≡ xs
  take-append-drop zero xs = refl
  take-append-drop (suc n) [] = refl
  take-append-drop (suc n) (x ∷ xs) = ap (λ ys. x ∷ ys) (take-append-drop n xs)

  pub length-take : (n : ℕ) (xs : List A) → length (take n xs) ≡ min n (length xs)
  length-take zero xs = omega arith
  length-take (suc n) [] = omega arith
  length-take (suc n) (x ∷ xs) = omega (arith, length-take n xs)

-- How often a number stands in a list.
abbrev pub count : ℕ → List ℕ → ℕ
count a [] = 0
count a (x ∷ xs) = if x == a then suc (count a xs) else count a xs

pub count-append : (a : ℕ) (xs ys : List ℕ) → count a (xs ++ ys) ≡ count a xs + count a ys
count-append a [] ys = omega arith
count-append a (x ∷ xs) ys = ground (arith, count-append a xs ys)

pub count-erase :
    (a b : ℕ) (xs : List ℕ)
    → count b (erase a xs) + (if a == b then (if contains a xs then 1 else 0) else 0) ≡ count b xs
count-erase a b [] = ground arith
count-erase a b (x ∷ xs) = ground (arith, count-erase a b xs)

pub contains-of_count : (a : ℕ) (xs : List ℕ) → count a xs ≡ 0 → contains a xs ≡ false
contains-of_count a [] h = refl
contains-of_count a (x ∷ xs) h = ground (arith, contains-of_count a xs)

pub count-of_contains : (a : ℕ) (xs : List ℕ) → contains a xs ≡ true → 0 < count a xs
count-of_contains a [] h = ground arith
count-of_contains a (x ∷ xs) h = ground (arith, count-of_contains a xs)
