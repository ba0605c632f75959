-- ===== src/Agents/Bindings/Reads.antt =====
-- What a reference reads from the outputs of the completed steps, as relations.
use guru_ji.Prelude.{
  ℕ, zero, suc, String, ◌≡◌, ◌≢◌, ◌⊎◌, refl, sym, Option, none, some, List, [], ◌∷◌, inl, inr,
  Option-cases,
}
use mathlib.Core.Path.{subst}
use guru_ji.Domain.Values.{scalar, list, tuple, mapping, Items, nil, cons, get}
use guru_ji.Gateway.Spec.{Scalar, null, boolean, number, text}
use guru_ji.Gateway.Types.{Object, Json}
use guru_ji.Agents.Contracts.{BindingError}
use guru_ji.Agents.Bindings.{
  Segment, key, each, index, Reference, Resolved, value, error, or_none, get_each, nth, follow,
  walk, present, without_none, resolve_reference,
}

pub Resolved-cases :
    {A : Type 0} (o : Resolved A) → ((a : A) × (o ≡ value a)) ⊎ ((e : BindingError) × (o ≡ error e))
Resolved-cases (value a) = inl (a, refl)
Resolved-cases (error e) = inr (e, refl)

value-injective : {A : Type 0} {a b : A} → value a ≡ value b → a ≡ b
value-injective h = cc

module _ {N : Type 0} where
  -- What a key reads from one element of a list.
  pub data ItemAt (k : String) : Json N → Json N → Type 0 where
    found : {e : Object N} {u : Json N} → get k e ≡ some u → ItemAt k (mapping e) u
    absent : {e : Object N} → get k e ≡ none → ItemAt k (mapping e) (scalar null)
    of_scalar : {s : Scalar N} → ItemAt k (scalar s) (scalar null)
    of_list : {xs : Items (Scalar N)} → ItemAt k (list xs) (scalar null)
    of_tuple : {xs : Items (Scalar N)} → ItemAt k (tuple xs) (scalar null)

  -- The column of a list of dictionaries.
  pub data Column (k : String) : Items (Scalar N) → Items (Scalar N) → Type 0 where
    no_rows : Column k nil nil
    row :
        {v u : Json N} {vs us : Items (Scalar N)}
        → ItemAt k v u
        → Column k vs us
        → Column k (cons v vs) (cons u us)

  -- The element of a list at a position; a position past the end reads None.
  pub data At : ℕ → Items (Scalar N) → Json N → Type 0 where
    past : {n : ℕ} → At n nil (scalar null)
    front : {v : Json N} {vs : Items (Scalar N)} → At zero (cons v vs) v
    behind : {n : ℕ} {v u : Json N} {vs : Items (Scalar N)} → At n vs u → At (suc n) (cons v vs) u

  -- What one segment of a path reads.
  pub data Follows : Segment → Json N → Json N → Type 0 where
    field :
        {k : String} {e : Object N} {u : Json N}
        → ItemAt k (mapping e) u
        → Follows (key k) (mapping e) u
    column :
        {k : String} {vs us : Items (Scalar N)}
        → Column k vs us
        → Follows (key k) (list vs) (list us)
    every : {vs : Items (Scalar N)} → Follows each (list vs) (list vs)
    nothing : Follows each (scalar null) (list nil)
    single :
        {v : Json N}
        → ((vs : Items (Scalar N)) → v ≢ list vs)
        → v ≢ scalar null
        → Follows each v (list (cons v nil))
    element :
        {n : ℕ} {vs : Items (Scalar N)} {u : Json N} → At n vs u → Follows (index n) (list vs) u

  -- What a path reads, segment by segment.
  pub data Walks : List Segment → Json N → Json N → Type 0 where
    arrived : {v : Json N} → Walks [] v v
    step :
        {s : Segment} {path : List Segment} {v u w : Json N}
        → Follows s v u
        → Walks path u w
        → Walks (s ∷ path) v w

  -- The elements that are not None, in order.
  pub data Kept : Items (Scalar N) → Items (Scalar N) → Type 0 where
    empty : Kept nil nil
    dropped : {vs us : Items (Scalar N)} → Kept vs us → Kept (cons (scalar null) vs) us
    kept :
        {v : Json N} {vs us : Items (Scalar N)}
        → v ≢ scalar null
        → Kept vs us
        → Kept (cons v vs) (cons v us)

  -- A list without its None elements; any other value as it is.
  pub data Cleaned : Json N → Json N → Type 0 where
    of_list : {vs us : Items (Scalar N)} → Kept vs us → Cleaned (list vs) (list us)
    other : {v : Json N} → ((vs : Items (Scalar N)) → v ≢ list vs) → Cleaned v v

  or_none-ItemAt : (k : String) (e : Object N) → ItemAt k (mapping e) (or_none (get k e))
  or_none-ItemAt k e = elim (Option-cases (get k e)) [
    | inl h ↦ subst (λ o. ItemAt k (mapping e) (or_none o)) (sym h) (absent h)
    | inr (u, h) ↦ subst (λ o. ItemAt k (mapping e) (or_none o)) (sym h) (found h)
  ]

  get_each-Column : (k : String) (vs : Items (Scalar N)) → Column k vs (get_each k vs)
  unfolding get_each
  get_each-Column k nil = no_rows
  get_each-Column k (cons (mapping e) vs) = row (or_none-ItemAt k e) (get_each-Column k vs)
  get_each-Column k (cons (scalar s) vs) = row of_scalar (get_each-Column k vs)
  get_each-Column k (cons (list xs) vs) = row of_list (get_each-Column k vs)
  get_each-Column k (cons (tuple xs) vs) = row of_tuple (get_each-Column k vs)

  nth-At : (n : ℕ) (vs : Items (Scalar N)) → At n vs (nth n vs)
  unfolding nth
  nth-At n nil = past
  nth-At zero (cons v vs) = front
  nth-At (suc n) (cons v vs) = behind (nth-At n vs)

  follow-Follows :
      (t : String) (s : Segment) (v u : Json N) → follow t s v ≡ value u → Follows s v u
  unfolding follow
  follow-Follows t (key k) (list xs) u h =
      subst (Follows (key k) (list xs)) (value-injective h) (column (get_each-Column k xs))
  follow-Follows t (key k) (mapping e) u h =
      subst (Follows (key k) (mapping e)) (value-injective h) (field (or_none-ItemAt k e))
  follow-Follows t (key k) (scalar s) u h = absurd (cc)
  follow-Follows t (key k) (tuple xs) u h = absurd (cc)
  follow-Follows t each (list xs) u h = subst (Follows each (list xs)) (value-injective h) every
  follow-Follows t each (scalar null) u h =
      subst (Follows each (scalar null)) (value-injective h) nothing
  follow-Follows t each (scalar (boolean b)) u h =
      subst (Follows each (scalar (boolean b))) (value-injective h)
        (single (λ vs q. absurd (cc)) (λ q. absurd (cc)))
  follow-Follows t each (scalar (number b)) u h =
      subst (Follows each (scalar (number b))) (value-injective h)
        (single (λ vs q. absurd (cc)) (λ q. absurd (cc)))
  follow-Follows t each (scalar (text b)) u h =
      subst (Follows each (scalar (text b))) (value-injective h)
        (single (λ vs q. absurd (cc)) (λ q. absurd (cc)))
  follow-Follows t each (tuple xs) u h =
      subst (Follows each (tuple xs)) (value-injective h)
        (single (λ vs q. absurd (cc)) (λ q. absurd (cc)))
  follow-Follows t each (mapping e) u h =
      subst (Follows each (mapping e)) (value-injective h)
        (single (λ vs q. absurd (cc)) (λ q. absurd (cc)))
  follow-Follows t (index n) (list xs) u h =
      subst (Follows (index n) (list xs)) (value-injective h) (element (nth-At n xs))
  follow-Follows t (index n) (scalar s) u h = absurd (cc)
  follow-Follows t (index n) (tuple s) u h = absurd (cc)
  follow-Follows t (index n) (mapping s) u h = absurd (cc)

  walk-Walks :
      (t : String) (path : List Segment) (v u : Json N) → walk t path v ≡ value u → Walks path v u
  unfolding walk
  walk-Walks t [] v u h = subst (Walks [] v) (value-injective h) arrived
  walk-Walks t (s ∷ path) v u h = elim (Resolved-cases (follow t s v)) [
    | inl (w, e) ↦ step (follow-Follows t s v w e) (walk-Walks t path w u (cc))
    | inr (x, e) ↦ absurd (cc)
  ]

  present-Kept : (vs : Items (Scalar N)) → Kept vs (present vs)
  unfolding present
  present-Kept nil = empty
  present-Kept (cons (scalar null) vs) = dropped (present-Kept vs)
  present-Kept (cons (scalar (boolean b)) vs) = kept (λ q. absurd (cc)) (present-Kept vs)
  present-Kept (cons (scalar (number b)) vs) = kept (λ q. absurd (cc)) (present-Kept vs)
  present-Kept (cons (scalar (text b)) vs) = kept (λ q. absurd (cc)) (present-Kept vs)
  present-Kept (cons (list xs) vs) = kept (λ q. absurd (cc)) (present-Kept vs)
  present-Kept (cons (tuple xs) vs) = kept (λ q. absurd (cc)) (present-Kept vs)
  present-Kept (cons (mapping e) vs) = kept (λ q. absurd (cc)) (present-Kept vs)

  pub without_none-Cleaned : (v : Json N) → Cleaned v (without_none v)
  unfolding without_none
  without_none-Cleaned (list xs) = of_list (present-Kept xs)
  without_none-Cleaned (scalar s) = other (λ vs q. absurd (cc))
  without_none-Cleaned (tuple xs) = other (λ vs q. absurd (cc))
  without_none-Cleaned (mapping e) = other (λ vs q. absurd (cc))

module _ {N : Type 0} (read_reference : String → Option Reference) (results : Object N) where
  -- The text is a reference to a completed step, whose output its path walks to the value.
  pub record Refers (t : String) (u : Json N) : Type 0 where
    pub reference : Reference
    pub read : read_reference t ≡ some reference
    pub output : Json N
    pub completed : get reference.step results ≡ some output
    pub walks : Walks reference.path output u

  pub resolve_reference-Refers :
      (t : String) (u : Json N) → resolve_reference read_reference t results ≡ value u → Refers t u
  unfolding resolve_reference
  resolve_reference-Refers t u h = elim (Option-cases (read_reference t)) [
    | inl e ↦ absurd (cc)
    | inr (r, e) ↦ elim (Option-cases (get r.step results)) [
      | inl f ↦ absurd (cc)
      | inr (v, f) ↦ record {
        reference = r;
        read = e;
        output = v;
        completed = f;
        walks = walk-Walks t r.path v u (cc);
      }
    ]
  ]
