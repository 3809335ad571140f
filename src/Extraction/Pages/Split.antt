-- ===== src/Extraction/Pages/Split.antt =====
-- The first rows of a list, and the rows they leave.
use mathlib.Core.List.{append_assoc}
use commerce_data_platform.Prelude.{
  ℕ, zero, suc, ◌≤◌, ◌<◌, ◌≡◌, refl, ◌∙◌, ap, List, [], ◌∷◌, ◌++◌, arith, length, take, drop,
}
use commerce_data_platform.Extraction.Pages.{last}

module _ {A : Type 0} where
  abbrev pub init : A → List A → List A
  init r [] = []
  init r (x ∷ xs) = r ∷ init x xs

  pub init-append-last : (r : A) (xs : List A) → r ∷ xs ≡ init r xs ++ last r xs ∷ []
  init-append-last r [] = refl
  init-append-last r (x ∷ xs) = ap (λ (t : List A). r ∷ t) (init-append-last x xs)

  pub take-append-drop : (n : ℕ) (xs : List A) → xs ≡ take n xs ++ drop n xs
  take-append-drop zero xs = refl
  take-append-drop (suc n) [] = refl
  take-append-drop (suc n) (x ∷ xs) = ap (λ (t : List A). x ∷ t) (take-append-drop n xs)

  pub length-take-le : (n : ℕ) (xs : List A) → length (take n xs) ≤ n
  length-take-le zero xs = omega arith
  length-take-le (suc n) [] = omega arith
  length-take-le (suc n) (x ∷ xs) = omega (arith, length-take-le n xs)

  length-drop-le : (n : ℕ) (xs : List A) → length (drop n xs) ≤ length xs
  length-drop-le zero xs = omega arith
  length-drop-le (suc n) [] = omega arith
  length-drop-le (suc n) (x ∷ xs) = omega (arith, length-drop-le n xs)

  pub short_take : (n : ℕ) (xs : List A) → length (take n xs) < n → take n xs ≡ xs
  short_take zero xs h = absurd (omega arith)
  short_take (suc n) [] h = refl
  short_take (suc n) (x ∷ xs) h = ap (λ (t : List A). x ∷ t) (short_take n xs (omega arith))

  pub split_page :
      (n : ℕ) (xs : List A) (r : A) (rs : List A)
      → take n xs ≡ r ∷ rs
      → xs ≡ init r rs ++ last r rs ∷ drop n xs
  split_page n xs r rs e =
      take-append-drop n xs
      ∙ ap (λ (t : List A). t ++ drop n xs) (e ∙ init-append-last r rs)
      ∙ append_assoc (init r rs) (last r rs ∷ []) (drop n xs)

  pub take_none : (n : ℕ) (xs : List A) → 0 < n → take n xs ≡ [] → xs ≡ []
  take_none zero xs h e = absurd (omega arith)
  take_none (suc n) [] h e = refl
  take_none (suc n) (x ∷ xs) h e = cc

  pub length-drop-lt :
      (n : ℕ) (xs : List A) (r : A) (rs : List A)
      → take n xs ≡ r ∷ rs
      → length (drop n xs) < length xs
  length-drop-lt zero xs r rs e = cc
  length-drop-lt (suc n) [] r rs e = cc
  length-drop-lt (suc n) (x ∷ xs) r rs e = omega (arith, length-drop-le n xs)
