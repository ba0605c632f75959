-- ===== src/InstitutionData/Table.antt =====
-- SQL on one table, as a list of rows: `SELECT` of one row, `UPDATE ... WHERE`, and its row count
-- as a test. A key is the test of a `WHERE` on the primary key.
use mathlib.Core.Option
use guru_ji.Prelude.{
  ◌≡◌, refl, Bool, true, false, ◌&&◌, Option, none, some, List, [], ◌∷◌, arith, if◌then◌else◌, any,
  find, Bool-cases, inl, inr,
}

module _ {ℓ} {A : Type ℓ} where
  -- `UPDATE table SET ... WHERE p`
  abbrev pub update : (A → Bool) → (A → A) → List A → List A
  update p f [] = []
  update p f (x ∷ xs) = (if p x then f x else x) ∷ update p f xs

  -- `DELETE FROM table WHERE p`
  abbrev pub delete : (A → Bool) → List A → List A
  delete p [] = []
  delete p (x ∷ xs) = let rest = delete p xs in if p x then rest else x ∷ rest

  -- At most one row has the key.
  abbrev pub AtMostOne : (A → Bool) → List A → Type 0
  AtMostOne key [] = Unit
  AtMostOne key (x ∷ xs) = (key x ≡ true → any key xs ≡ false) × AtMostOne key xs

  abbrev pub holds : (A → Bool) → Option A → Bool
  holds g none = false
  holds g (some a) = g a

  -- An update of the row with a key, under a guard, is seen by a lookup of that key.
  pub find-update :
      (key guard : A → Bool) (f : A → A) (t : List A)
      → ((a : A) → key (f a) ≡ key a)
      → find key (update (λ a. key a && guard a) f t)
        ≡ Option.map (λ a. if guard a then f a else a) (find key t)
  find-update key guard f [] h = refl
  find-update key guard f (x ∷ xs) h = ground (arith, h x, find-update key guard f xs h)

  pub find-update_key :
      (key : A → Bool) (f : A → A) (t : List A)
      → ((a : A) → key (f a) ≡ key a)
      → find key (update key f t) ≡ Option.map f (find key t)
  find-update_key key f [] h = refl
  find-update_key key f (x ∷ xs) h = ground (arith, h x, find-update_key key f xs h)

  -- An update of other rows is not seen.
  pub find-update_other :
      (key p : A → Bool) (f : A → A) (t : List A)
      → ((a : A) → p a ≡ true → key a ≡ false)
      → ((a : A) → p a ≡ true → key (f a) ≡ false)
      → find key (update p f t) ≡ find key t
  find-update_other key p f [] h k = refl
  find-update_other key p f (x ∷ xs) h k =
      ground (arith, h x, k x, find-update_other key p f xs h k)

  any-and : (p q : A → Bool) (t : List A) → any p t ≡ false → any (λ a. p a && q a) t ≡ false
  any-and p q [] h = refl
  any-and p q (x ∷ xs) h = ground (arith, any-and p q xs)

  -- Under a primary key the row count of a guarded update is the guard of the row found.
  pub any-guard :
      (key guard : A → Bool) (t : List A)
      → AtMostOne key t
      → any (λ a. key a && guard a) t ≡ holds guard (find key t)
  any-guard key guard [] u = refl
  any-guard key guard (x ∷ xs) u = elim (Bool-cases (key x)) [
    | inl e ↦ ground (arith, any-and key guard xs (u.0 e))
    | inr e ↦ ground (arith, any-guard key guard xs u.1)
  ]

  pub any-update :
      (key p : A → Bool) (f : A → A) (t : List A)
      → ((a : A) → key (f a) ≡ key a)
      → any key (update p f t) ≡ any key t
  any-update key p f [] h = refl
  any-update key p f (x ∷ xs) h = ground (arith, h x, any-update key p f xs h)

  pub AtMostOne-update :
      (key p : A → Bool) (f : A → A) (t : List A)
      → ((a : A) → key (f a) ≡ key a)
      → AtMostOne key t
      → AtMostOne key (update p f t)
  AtMostOne-update key p f [] h u = tt
  AtMostOne-update key p f (x ∷ xs) h u =
      (ground (arith, h x, any-update key p f xs h), AtMostOne-update key p f xs h u.1)

  -- A guarded change, read only where the guard holds.
  pub map-guarded :
      (guard : A → Bool) (f : A → A) (o : Option A)
      → (if holds guard o then Option.map (λ a. if guard a then f a else a) o else none)
        ≡ (if holds guard o then Option.map f o else none)
  map-guarded guard f none = refl
  map-guarded guard f (some a) = ground arith
