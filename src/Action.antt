-- ===== src/Action.antt =====
-- A call that reads and writes a state and may raise. What was written before a raise stays
-- written, so the state comes back beside the error too; a database transaction puts it back.
pub mod Keeps
use commerce_data_platform.Prelude.{Bool, Option, none, some, if◌then◌else◌, ◌≡◌, refl, ap}
use commerce_data_platform.Exceptions.{Exception, Result, ok, err}

abbrev pub Action : Type 0 → Type 0 → Type 0
Action S A = S → Result A × S

module _ {S A : Type 0} where
  abbrev pub pure : A → Action S A
  pure a s = (ok a, s)

  abbrev pub raise : Exception → Action S A
  raise e s = (err e, s)

  abbrev pub lift : Result A → Action S A
  lift r s = (r, s)

  abbrev pub gets : (S → A) → Action S A
  gets f s = (ok (f s), s)

  abbrev pub or_raise : Option A → Exception → Action S A
  or_raise none e = raise e
  or_raise (some a) e = pure a

  abbrev pub commit_or_rollback : S → Result A × S → Result A × S
  commit_or_rollback s (ok a, s') = (ok a, s')
  commit_or_rollback s (err e, s') = (err e, s)

  -- `with connection.transaction()`: an exception rolls every write of the block back.
  abbrev pub transaction : Action S A → Action S A
  transaction m s = commit_or_rollback s (m s)

module _ {S : Type 0} where
  abbrev pub modify : (S → S) → Action S (Unit {0})
  modify f s = (ok tt, f s)

  abbrev pub raise_if : Bool → Exception → Action S (Unit {0})
  raise_if b e s = (if b then err e else ok tt, s)

infixl 5 ◌>>=◌ ◌>>◌
abbrev pub ◌>>=◌ : {S A B : Type 0} → Action S A → (A → Action S B) → Action S B
◌>>=◌ m f s = let (r, s') = m s in elim r [ ok a ↦ f a s' | err e ↦ (err e, s') ]

abbrev pub ◌>>◌ : {S A B : Type 0} → Action S A → Action S B → Action S B
m >> k = m >>= λ _. k

module _ {S A : Type 0} where
  abbrev pub handled : (Exception → Action S A) → Result A × S → Result A × S
  handled handler (ok a, s) = (ok a, s)
  handled handler (err e, s) = handler e s

  -- `try: … except Exception as error: …`
  abbrev pub catch : Action S A → (Exception → Action S A) → Action S A
  catch m handler s = handled handler (m s)

  -- `finally: …`: an exception of the cleaning up takes the place of the outcome.
  abbrev pub finally : Action S A → Action S (Unit {0}) → Action S A
  finally m clean s =
      let (r, s') = m s in
      let (cleaned, s'') = clean s' in (elim cleaned [ ok _ ↦ r | err e ↦ err e ], s'')

-- `with suppress(Exception): …`
abbrev pub suppress : {S A : Type 0} → Action S A → S → S
suppress m s = (m s).1

-- A bind that gives a result went through both calls.
module _ {S A B : Type 0} where
  abbrev pub Binds : Action S A → (A → Action S B) → S → B → S → Type 0
  Binds m f s b t = (a : A) × (u : S) × (m s ≡ (ok a, u)) × (f a u ≡ (ok b, t))

  pub >>=-ok :
      (m : Action S A) (f : A → Action S B) (s : S) (b : B) (t : S)
      → (m >>= f) s ≡ (ok b, t)
      → Binds m f s b t
  >>=-ok m f s b t h = go (m s) refl h
    where
      go :
          (x : Result A × S)
          → m s ≡ x
          → elim x.0 [ ok a ↦ f a (x.1) | err e ↦ (err e, x.1) ] ≡ (ok b, t)
          → Binds m f s b t
      go (ok a, u) called next = (a, u, called, next)
      go (err e, u) called next = cc

pub pure-ok : {S A : Type 0} {a b : A} {s t : S} → pure a s ≡ (ok b, t) → (a ≡ b) × (s ≡ t)
pure-ok {a = a} {b = b} h = (of_ok (ap (λ x. x.0) h), ap (λ x. x.1) h)
  where
    of_ok : ok a ≡ ok b → a ≡ b
    of_ok same = cc

-- A handler that always raises leaves a result only to the call itself.
pub catch-ok :
    {S A : Type 0} (m : Action S A) (handler : Exception → Action S A) (s : S) (a : A) (t : S)
    → ((e : Exception) (u : S) → handler e u ≡ (ok a, t) → ⊥)
    → catch m handler s ≡ (ok a, t)
    → m s ≡ (ok a, t)
catch-ok {S} {A} m handler s a t raises h = go (m s) h
  where
    go : (x : Result A × S) → handled handler x ≡ (ok a, t) → x ≡ (ok a, t)
    go (ok b, u) same = same
    go (err e, u) same = absurd (raises e u same)
