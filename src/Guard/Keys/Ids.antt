-- ===== src/Guard/Keys/Ids.antt =====
-- Lists of root key ids, read as sets: `slices.Contains` and `slices.DeleteFunc`.
use brollyzapper.Base.{
  ℕ, ◌==◌, ◌≡◌, refl, Bool, true, false, not, ◌&&◌, ◌||◌, List, [], ◌∷◌, ◌++◌, select, arith,
}

abbrev pub contains : List ℕ → ℕ → Bool
contains [] a = false
contains (x ∷ xs) a = x == a || contains xs a

-- `slices.DeleteFunc`.
abbrev pub delete_func : (ℕ → Bool) → List ℕ → List ℕ
delete_func p xs = select (λ x. not (p x)) xs

pub contains-append :
    (xs ys : List ℕ) (a : ℕ) → contains (xs ++ ys) a ≡ (contains xs a || contains ys a)
contains-append [] ys a = refl
contains-append (x ∷ xs) ys a = ground (arith, contains-append xs ys a)

pub contains-snoc : (xs : List ℕ) (y a : ℕ) → contains (xs ++ y ∷ []) a ≡ (contains xs a || y == a)
contains-snoc xs y a = ground (arith, contains-append xs (y ∷ []) a)

tested : (p : ℕ → Bool) (x a : ℕ) → (x == a) ≡ true → p x ≡ p a
tested p x a h = let e : x ≡ a = ground arith in rw e

pub contains-select :
    (p : ℕ → Bool) (xs : List ℕ) (a : ℕ) → contains (select p xs) a ≡ (contains xs a && p a)
contains-select p [] a = refl
contains-select p (x ∷ xs) a = ground (arith, contains-select p xs a, tested p x a)

pub contains-delete_func :
    (p : ℕ → Bool) (xs : List ℕ) (a : ℕ)
    → contains (delete_func p xs) a ≡ (contains xs a && not (p a))
contains-delete_func p xs a = contains-select (λ x. not (p x)) xs a
