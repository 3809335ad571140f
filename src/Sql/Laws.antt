-- ===== src/Sql/Laws.antt =====
-- What the statements of `Sql` do to the row that a key finds, and to the number of rows.
use mathlib.Core.Option
use commerce_data_platform.Prelude.{
  ◌+◌, ◌≤◌, ◌≡◌, refl, Bool, true, false, none, some, List, [], ◌∷◌, ◌++◌, arith, if◌then◌else◌,
  inl, inr, Bool-cases,
}
use commerce_data_platform.Sql.{fetchone, rowcount, update_row, update_where}

module _ {A : Type 0} where
  pub fetchone_sound :
      (p : A → Bool) (rows : List A) (r : A) → fetchone p rows ≡ some r → p r ≡ true
  unfolding fetchone
  fetchone_sound p [] r h = cc
  fetchone_sound p (x ∷ rows) r h = ground (arith, fetchone_sound p rows r)

  -- An update that keeps the key changes the row of that key, if the condition finds it.
  pub fetchone-update_where :
      (q p : A → Bool) (f : A → A) (rows : List A)
      → ((r : A) → p r ≡ true → q (f r) ≡ q r)
      → fetchone q (update_where p f rows) ≡ Option.map (update_row p f) (fetchone q rows)
  unfolding fetchone update_where
  fetchone-update_where q p f [] keeps = refl
  fetchone-update_where q p f (x ∷ rows) keeps =
      ground (arith, keeps x, fetchone-update_where q p f rows keeps)

  -- An update of rows with other keys leaves the row of this key alone.
  pub fetchone-update_where_other :
      (q p : A → Bool) (f : A → A) (rows : List A)
      → ((r : A) → p r ≡ true → q r ≡ false)
      → ((r : A) → p r ≡ true → q (f r) ≡ false)
      → fetchone q (update_where p f rows) ≡ fetchone q rows
  unfolding fetchone update_where
  fetchone-update_where_other q p f [] before after = refl
  fetchone-update_where_other q p f (x ∷ rows) before after =
      ground (arith, before x, after x, fetchone-update_where_other q p f rows before after)

  pub rowcount-update_where :
      (q p : A → Bool) (f : A → A) (rows : List A)
      → ((r : A) → p r ≡ true → q (f r) ≡ q r)
      → rowcount q (update_where p f rows) ≡ rowcount q rows
  unfolding rowcount update_where
  rowcount-update_where q p f [] keeps = refl
  rowcount-update_where q p f (x ∷ rows) keeps =
      ground (arith, keeps x, rowcount-update_where q p f rows keeps)

  pub rowcount_mono :
      (p q : A → Bool) (rows : List A)
      → ((r : A) → p r ≡ true → q r ≡ true)
      → rowcount p rows ≤ rowcount q rows
  unfolding rowcount
  rowcount_mono p q [] sub = omega arith
  rowcount_mono p q (x ∷ rows) sub = ground (arith, sub x, rowcount_mono p q rows sub)

  pub fetchone-rowcount_zero :
      (q : A → Bool) (rows : List A) → rowcount q rows ≡ 0 → fetchone q rows ≡ none
  unfolding fetchone rowcount
  fetchone-rowcount_zero q [] h = refl
  fetchone-rowcount_zero q (x ∷ rows) h = ground (arith, fetchone-rowcount_zero q rows)

  pub rowcount-fetchone-none :
      (q : A → Bool) (rows : List A) → fetchone q rows ≡ none → rowcount q rows ≡ 0
  unfolding fetchone rowcount
  rowcount-fetchone-none q [] h = refl
  rowcount-fetchone-none q (x ∷ rows) h = ground (arith, rowcount-fetchone-none q rows)

  -- Where a key finds one row at most, a condition on that key finds the row if it holds of it.
  pub rowcount-fetchone :
      (p q : A → Bool) (rows : List A) (r : A)
      → ((x : A) → p x ≡ true → q x ≡ true)
      → rowcount q rows ≤ 1
      → fetchone q rows ≡ some r
      → rowcount p rows ≡ (if p r then 1 else 0)
  unfolding fetchone rowcount
  rowcount-fetchone p q [] r sub one h = cc
  rowcount-fetchone p q (x ∷ rows) r sub one h =
      ground (arith, sub x, rowcount_mono p q rows sub, rowcount-fetchone p q rows r sub)

  pub rowcount-append :
      (q : A → Bool) (rows more : List A)
      → rowcount q (rows ++ more) ≡ rowcount q rows + rowcount q more
  unfolding rowcount
  rowcount-append q [] more = omega arith
  rowcount-append q (x ∷ rows) more = omega (arith, rowcount-append q rows more)

  pub fetchone-append_some :
      (q : A → Bool) (rows more : List A) (r : A)
      → fetchone q rows ≡ some r
      → fetchone q (rows ++ more) ≡ some r
  unfolding fetchone
  fetchone-append_some q [] more r h = cc
  fetchone-append_some q (x ∷ rows) more r h = ground (arith, fetchone-append_some q rows more r)

  pub fetchone-append_none :
      (q : A → Bool) (rows more : List A)
      → fetchone q rows ≡ none
      → fetchone q (rows ++ more) ≡ fetchone q more
  unfolding fetchone
  fetchone-append_none q [] more h = refl
  fetchone-append_none q (x ∷ rows) more h = ground (arith, fetchone-append_none q rows more)

  -- A row that was appended is found, or one before it is.
  pub fetchone-append_last :
      (q : A → Bool) (rows : List A) (r : A)
      → q r ≡ true
      → (x : A) × (fetchone q (rows ++ r ∷ []) ≡ some x)
  unfolding fetchone
  fetchone-append_last q [] r h = (r, rw h)
  fetchone-append_last q (x ∷ rows) r h = elim (Bool-cases (q x)) [
    | inl e ↦ (x, rw e)
    | inr e ↦ rw e (fetchone-append_last q rows r h)
  ]
