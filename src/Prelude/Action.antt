-- ===== src/Prelude/Action.antt =====
-- Actions on a state that may run into undefined behaviour: `none` is a null pointer, an access
-- out of a buffer's bounds, or a loop that does not end.
use mathlib.Core.Path.{◌≡◌, refl, ap}
use mathlib.Core.Option.{Option, none, some}

abbrev pub M : Type 0 → Type 0 → Type 0
M S A = S → Option (A × S)

module _ {S : Type 0} where
  abbrev pub pure : {A : Type 0} → A → M S A
  pure a s = some (a, s)

  infixl 5 ◌>>=◌ ◌>>◌
  abbrev pub ◌>>=◌ : {A B : Type 0} → M S A → (A → M S B) → M S B
  ◌>>=◌ m f s = elim (m s) [ none ↦ none | some (a, s') ↦ f a s' ]

  abbrev pub ◌>>◌ : {B : Type 0} → M S (Unit {0}) → M S B → M S B
  ◌>>◌ m k s = elim (m s) [ none ↦ none | some (a, s') ↦ k s' ]

  -- An action that goes on.
  pub bind_some :
      {A B : Type 0} (m : M S A) (f : A → M S B) (a : A) (s s' : S)
      → m s ≡ some (a, s')
      → (◌>>=◌ m f) s ≡ f a s'
  bind_some m f a s s' e = ap (λ r. elim r [ none ↦ none | some (a, s') ↦ f a s' ]) e

  -- An action that has gone on.
  pub bind_inv :
      {A B : Type 0} (m : M S A) (f : A → M S B) (s : S) (r : B × S)
      → (◌>>=◌ m f) s ≡ some r
      → (a : A) × (s' : S) × (m s ≡ some (a, s')) × (f a s' ≡ some r)
  bind_inv m f s r e = inv (m s) f r e
    where
      inv :
          {A B : Type 0} (o : Option (A × S)) (f : A → M S B) (r : B × S)
          → elim o [ none ↦ none | some (a, s') ↦ f a s' ] ≡ some r
          → (a : A) × (s' : S) × (o ≡ some (a, s')) × (f a s' ≡ some r)
      inv none f r e = cc
      inv (some (a, s')) f r e = (a, s', refl, e)
