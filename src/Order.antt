-- ===== src/Order.antt =====
-- Strict total orders as Boolean tests, and the lexicographic order of lists: how Python compares
-- tuples and texts, and PostgreSQL rows and texts of the collation "C".
use commerce_data_platform.Prelude.{
  ℕ, ◌≡◌, refl, Bool, true, false, List, [], ◌∷◌, arith, ltb, if◌then◌else◌,
}

pub record StrictOrder {ℓ} (A : Type ℓ) : Type ℓ where
  pub lt : A → A → Bool
  pub irrefl : (a : A) → lt a a ≡ false
  pub trans : (a b c : A) → lt a b ≡ true → lt b c ≡ true → lt a c ≡ true
  pub total : (a b : A) → lt a b ≡ false → lt b a ≡ false → a ≡ b

pub ltb_irrefl : (a : ℕ) → ltb a a ≡ false
ltb_irrefl a = ground arith

pub ltb_trans : (a b c : ℕ) → ltb a b ≡ true → ltb b c ≡ true → ltb a c ≡ true
ltb_trans a b c p q = ground arith

pub ltb_total : (a b : ℕ) → ltb a b ≡ false → ltb b a ≡ false → a ≡ b
ltb_total a b p q = ground arith

abbrev pub number_order : StrictOrder ℕ
number_order = record { lt = ltb; irrefl = ltb_irrefl; trans = ltb_trans; total = ltb_total }

module _ {ℓ} {A : Type ℓ} (o : StrictOrder A) where
  -- antisymmetry, from the first two laws
  pub lt-asymm : (a b : A) → o.lt a b ≡ true → o.lt b a ≡ false
  lt-asymm a b h = ground (arith, o.trans a b a, o.irrefl a)

  unfoldable pub lex : List A → List A → Bool
  lex [] [] = false
  lex [] (y ∷ ys) = true
  lex (x ∷ xs) [] = false
  lex (x ∷ xs) (y ∷ ys) = if o.lt x y then true else if o.lt y x then false else lex xs ys

  pub lex_irrefl : (xs : List A) → lex xs xs ≡ false
  unfolding lex
  lex_irrefl [] = refl
  lex_irrefl (x ∷ xs) = rw (o.irrefl x) (lex_irrefl xs)

  pub lex_trans : (xs ys zs : List A) → lex xs ys ≡ true → lex ys zs ≡ true → lex xs zs ≡ true
  unfolding lex
  lex_trans [] [] zs p q = cc
  lex_trans [] (y ∷ ys) [] p q = cc
  lex_trans [] (y ∷ ys) (z ∷ zs) p q = refl
  lex_trans (x ∷ xs) [] zs p q = cc
  lex_trans (x ∷ xs) (y ∷ ys) [] p q = cc
  lex_trans (x ∷ xs) (y ∷ ys) (z ∷ zs) p q = ground (
    arith,
    lex_trans xs ys zs,
    o.trans x y z,
    o.trans y z x,
    o.trans z x y,
    o.trans z y x,
    o.trans y x z,
    o.total x y,
    o.total y z,
    o.total x z,
    lt-asymm x y,
    lt-asymm y z,
    lt-asymm x z,
  )

  pub lex_total : (xs ys : List A) → lex xs ys ≡ false → lex ys xs ≡ false → xs ≡ ys
  unfolding lex
  lex_total [] [] p q = refl
  lex_total [] (y ∷ ys) p q = cc
  lex_total (x ∷ xs) [] p q = cc
  lex_total (x ∷ xs) (y ∷ ys) p q =
      ground (arith, o.total x y, lex_total xs ys, lt-asymm x y, lt-asymm y x)

  abbrev pub list_order : StrictOrder (List A)
  list_order = record { lt = lex; irrefl = lex_irrefl; trans = lex_trans; total = lex_total }
