-- ===== src/Action/Keeps.antt =====
-- A predicate on the state that calls keep, whatever their outcome, and its laws for the ways in
-- which calls are put together.
use commerce_data_platform.Prelude.{Bool, true, false, ◌≡◌, refl, sym, subst, if◌then◌else◌}
use commerce_data_platform.Exceptions.{Exception, Result, ok, err}
use commerce_data_platform.Action.{Action, catch, handled, commit_or_rollback, transaction, ◌>>=◌}

module _ {S : Type 0} (Q : S → Type 0) where
  abbrev pub Keeps : {A : Type 0} → Action S A → Type 0
  Keeps m = (s : S) → Q s → Q ((m s).1)

  pub >>=-Keeps :
      {A B : Type 0} (m : Action S A) (f : A → Action S B)
      → Keeps m
      → ((a : A) → Keeps (f a))
      → Keeps (m >>= f)
  >>=-Keeps {A} {B} m f keeps rest s q = go (m s) (keeps s q)
    where
      go :
          (x : Result A × S)
          → Q (x.1)
          → Q ((elim x.0 as (λ _. Result B × S) [ ok a ↦ f a (x.1) | err e ↦ (err e, x.1) ]).1)
      go (ok a, u) kept = rest a u kept
      go (err e, u) kept = kept

  pub catch-Keeps :
      {A : Type 0} (m : Action S A) (handler : Exception → Action S A)
      → Keeps m
      → ((e : Exception) → Keeps (handler e))
      → Keeps (catch m handler)
  catch-Keeps {A} m handler keeps rest s q = go (m s) (keeps s q)
    where
      go : (x : Result A × S) → Q (x.1) → Q ((handled handler x).1)
      go (ok a, u) kept = kept
      go (err e, u) kept = rest e u kept

  pub transaction-Keeps : {A : Type 0} (m : Action S A) → Keeps m → Keeps (transaction m)
  transaction-Keeps {A} m keeps s q = go (m s) (keeps s q)
    where
      go : (x : Result A × S) → Q (x.1) → Q ((commit_or_rollback s x).1)
      go (ok a, u) kept = kept
      go (err e, u) kept = q

  pub unchanged-Keeps : {A : Type 0} (m : Action S A) → ((s : S) → (m s).1 ≡ s) → Keeps m
  unchanged-Keeps m same s q = subst Q (sym (same s)) q

  pub if-Keeps :
      {A : Type 0} (c : Bool) (m k : Action S A) → Keeps m → Keeps k → Keeps (if c then m else k)
  if-Keeps true m k of_m of_k = of_m
  if-Keeps false m k of_m of_k = of_k

-- What a bind ends with, by the outcome of its first call.
pub >>=-cases :
    {S A B : Type 0} (P : Result B × S → Type 0) (m : Action S A) (f : A → Action S B) (s : S)
    → ((e : Exception) (u : S) → m s ≡ (err e, u) → P (err e, u))
    → ((a : A) (u : S) → m s ≡ (ok a, u) → P (f a u))
    → P ((m >>= f) s)
>>=-cases {S} {A} {B} P m f s raised gave = go (m s) raised gave
  where
    go :
        (x : Result A × S)
        → ((e : Exception) (u : S) → x ≡ (err e, u) → P (err e, u))
        → ((a : A) (u : S) → x ≡ (ok a, u) → P (f a u))
        → P (elim x.0 as (λ _. Result B × S) [ ok a ↦ f a (x.1) | err e ↦ (err e, x.1) ])
    go (ok a, u) on_err on_ok = on_ok a u refl
    go (err e, u) on_err on_ok = on_err e u refl
