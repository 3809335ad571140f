-- ===== src/Sql/Members.antt =====
-- The rows that a statement finds, as members of the table.
use mathlib.Core.List.{Mem, mem-cons_self, mem-cons_of_mem}
use commerce_data_platform.Prelude.{
  ◌≡◌, subst, inl, inr, Bool, true, false, none, some, List, [], ◌∷◌, Bool-cases, All, All-map,
}
use commerce_data_platform.Sql.{select, fetchone}

module _ {R : Type 0} where
  pub All-Mem : (xs : List R) → All (λ x. Mem x xs) xs
  All-Mem [] = tt
  All-Mem (x ∷ xs) = (mem-cons_self, All-map (λ y h. mem-cons_of_mem x h) xs (All-Mem xs))

  pub fetchone-Mem : (p : R → Bool) (rows : List R) (r : R) → fetchone p rows ≡ some r → Mem r rows
  unfolding fetchone
  fetchone-Mem p [] r h = absurd (cc)
  fetchone-Mem p (x ∷ rows) r h = elim (Bool-cases (p x)) [
    | inl found ↦
        let same = of_some (rw found at h) in subst (λ y. Mem y (x ∷ rows)) same mem-cons_self
    | inr passed ↦ mem-cons_of_mem x (fetchone-Mem p rows r (rw passed at h))
  ]
    where
      of_some : {a b : R} → some a ≡ some b → a ≡ b
      of_some same = cc

  -- A statement about the rows that a condition finds.
  pub select-All_if :
      (P : R → Type 0) (p : R → Bool) (xs : List R)
      → All P (select p xs)
      → All (λ x. p x ≡ true → P x) xs
  unfolding select
  select-All_if P p [] h = tt
  select-All_if P p (x ∷ xs) h = elim (Bool-cases (p x)) [
    | inl found ↦ let h' = rw found at h in ((λ _. h'.0), select-All_if P p xs h'.1)
    | inr passed ↦ ((λ found. absurd (cc (found, passed))), select-All_if P p xs (rw passed at h))
  ]

  pub fetchone-none-All :
      (p : R → Bool) (rows : List R) → fetchone p rows ≡ none → All (λ x. p x ≡ false) rows
  unfolding fetchone
  fetchone-none-All p [] h = tt
  fetchone-none-All p (x ∷ rows) h = elim (Bool-cases (p x)) [
    | inl found ↦ absurd (cc (rw found at h))
    | inr passed ↦ (passed, fetchone-none-All p rows (rw passed at h))
  ]
