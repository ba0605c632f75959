-- ===== src/Map/Gate/Held.antt =====
-- What readers see while a pass is held, and after a manager has published it.
use guru_ji.Prelude.{
  String, ◌≡◌, refl, sym, ap, ◌∙◌, Bool, true, false, not, ◌⊎◌, inl, inr, none, some, List, [], ◌∷◌,
  if◌then◌else◌, ◌==◌, string_eq, eq_iff, arith, any, all, map, Bool-cases, Member, here, there,
  contains, ◌<◌, option_eq,
}
use mathlib.Core.Path.{subst}
use guru_ji.InstitutionData.Table.{update}
use guru_ji.Map.Grades.{
  grade_eq, grade_rank, Asset, has_id, Change, hold_row, put_back, publish_row, of_run,
  apply_proposed, coalesce,
}
use guru_ji.Map.Gate.{
  is_security, was_grade, was_scorer, is_kept, change_of, held_changes, hold_changes,
}

-- The primary key: no two assets have the same id.
abbrev pub IsKeyed : List Asset → Type 0
IsKeyed [] = Unit
IsKeyed (x ∷ t) = (any (has_id x.asset_id) t ≡ false) × IsKeyed t

eq_comm : (s t : String) → (s == t) ≡ false → (t == s) ≡ false
eq_comm s t h = elim (Bool-cases (t == s)) [
  | inl e ↦ let q : (s == t) ≡ true = (eq_iff s t).1 (sym ((eq_iff t s).0 e)) in absurd (cc)
  | inr e ↦ e
]

update_none :
    (id : String) (f : Asset → Asset) (t : List Asset)
    → any (has_id id) t ≡ false
    → update (has_id id) f t ≡ t
update_none id f [] h = refl
update_none id f (x ∷ t) h =
    let e : has_id id x ≡ false = ground (arith, h) in
    rw e (ap (λ r. x ∷ r) (update_none id f t (ground (arith, h))))

update_first :
    (f : Asset → Asset) (x : Asset) (t : List Asset)
    → any (has_id x.asset_id) t ≡ false
    → update (has_id x.asset_id) f (x ∷ t) ≡ f x ∷ t
update_first f x t h =
    let e : has_id x.asset_id x ≡ true = (eq_iff x.asset_id x.asset_id).1 refl in
    rw e (ap (λ r. f x ∷ r) (update_none x.asset_id f t h))

abbrev spares : String → List Change → Bool
spares id held = all (λ h. not (id == h.asset_id)) held

module _ (run : String) where
  put_back_lem :
      (held : List Change) (x : Asset) (t : List Asset)
      → spares x.asset_id held ≡ true
      → put_back held run (x ∷ t) ≡ x ∷ put_back held run t
  unfolding put_back
  put_back_lem [] x t h = refl
  put_back_lem (g ∷ held) x t h =
      let e : (x.asset_id == g.asset_id) ≡ false = ground (arith, h) in
      rw e (put_back_lem held x (update (has_id g.asset_id) (hold_row g run) t) (ground (arith, h)))

module _ (before : List Asset) (canaries : List String) where
  spares-held_changes :
      (id : String) (t : List Asset)
      → any (has_id id) t ≡ false
      → spares id (held_changes before canaries t) ≡ true
  unfolding held_changes change_of
  spares-held_changes id [] h = refl
  spares-held_changes id (x ∷ t) h =
      let ne : (id == x.asset_id) ≡ false = eq_comm x.asset_id id (ground (arith, h)) in
      let rest = spares-held_changes id t (ground (arith, h)) in
      elim (Bool-cases (is_kept before canaries x)) [
        | inl e ↦ rw e rest
        | inr e ↦ rw e (rw ne rest)
      ]

module _ (before : List Asset) (canaries : List String) (run : String) where
  -- What holding a pass leaves of one asset.
  unfoldable pub held_row : Asset → Asset
  held_row x = if is_kept before canaries x then x else hold_row (change_of before x) run x

  put_back_first :
      (x : Asset) (t : List Asset)
      → any (has_id x.asset_id) t ≡ false
      → put_back (change_of before x ∷ held_changes before canaries t) run (x ∷ t)
        ≡ hold_row (change_of before x) run x ∷ put_back (held_changes before canaries t) run t
  unfolding put_back change_of hold_row
  put_back_first x t h =
      ap (put_back (held_changes before canaries t) run)
        (update_first (hold_row (change_of before x) run) x t h)
      ∙ put_back_lem run (held_changes before canaries t) (hold_row (change_of before x) run x) t
          (spares-held_changes before canaries x.asset_id t h)

  held_cons :
      (x : Asset) (t : List Asset)
      → any (has_id x.asset_id) t ≡ false
      → hold_changes before canaries run (x ∷ t) ≡ held_row x ∷ hold_changes before canaries run t
  unfolding hold_changes held_changes held_row
  held_cons x t h = elim (Bool-cases (is_kept before canaries x)) [
    | inl e ↦ rw e (
        put_back_lem run (held_changes before canaries t) x t
          (spares-held_changes before canaries x.asset_id t h))
    | inr e ↦ rw e (put_back_first x t h)
  ]

  hold_nothing : hold_changes before canaries run [] ≡ []
  unfolding hold_changes held_changes put_back
  hold_nothing = refl

  hold_changes-map :
      (t : List Asset) → IsKeyed t → hold_changes before canaries run t ≡ map held_row t
  hold_changes-map [] k = hold_nothing
  hold_changes-map (x ∷ t) (h, k) =
      held_cons x t h ∙ ap (λ r. held_row x ∷ r) (hold_changes-map t k)

  -- The grade that readers see, or why a change of it is not held.
  abbrev pub ReadsBefore : Asset → Type 0
  ReadsBefore x =
      ((held_row x).grade ≡ was_grade before x)
      ⊎ ((contains canaries x.asset_key ≡ true)
          ⊎ ((grade_rank x.grade < grade_rank (was_grade before x))
              × (is_security x.status ≡ true)))

  kept_reads :
      (x : Asset)
      → is_kept before canaries x ≡ true
      → (x.grade ≡ was_grade before x)
        ⊎ ((contains canaries x.asset_key ≡ true)
            ⊎ ((grade_rank x.grade < grade_rank (was_grade before x))
                × (is_security x.status ≡ true)))
  unfolding is_kept
  kept_reads x h = elim (Bool-cases (x.grade == was_grade before x)) [
    | inl e ↦ inl ((grade_eq.decides x.grade (was_grade before x)).0 e)
    | inr e ↦ elim (Bool-cases (contains canaries x.asset_key)) [
      | inl k ↦ inr (inl k)
      | inr k ↦ inr (inr (ground (arith, h, e, k), ground (arith, h, e, k)))
    ]
  ]

  held-ReadsBefore : (x : Asset) → ReadsBefore x
  unfolding held_row hold_row change_of
  held-ReadsBefore x = elim (Bool-cases (is_kept before canaries x)) [
    | inl e ↦ rw e (kept_reads x e)
    | inr e ↦ inl (rw e refl)
  ]

  -- When no two assets have the same id, holding a pass leaves each asset in its place as `held_row`
  -- leaves it: readers see its grade from before the pass, but for a known look-alike that was set
  -- back, and for a fall of an asset that is out of the institution's hands.
  pub hold_changes-ReadsBefore :
      (t : List Asset)
      → IsKeyed t
      → (hold_changes before canaries run t ≡ map held_row t) × ((x : Asset) → ReadsBefore x)
  hold_changes-ReadsBefore t k = (hold_changes-map t k, held-ReadsBefore)

  -- The asset with the grade and the reasons that the pass gave it, and nothing proposed.
  abbrev pub published : Asset → Asset
  published x = record x {
    scorer_version = coalesce x.scorer_version (was_scorer before x);
    proposed = none;
  }

  Member-map : {x : Asset} {t : List Asset} → Member x t → Member (held_row x) (map held_row t)
  Member-map here = here
  Member-map (there m) = there (Member-map m)

  Member-update :
      (p : Asset → Bool) (f : Asset → Asset) {x : Asset} {t : List Asset}
      → Member x t
      → p x ≡ true
      → Member (f x) (update p f t)
  Member-update p f {x} here h = rw h here
  Member-update p f (there m) h = there (Member-update p f m h)

  publish-held :
      (x : Asset)
      → is_kept before canaries x ≡ false
      → (of_run (some run) (held_row x) ≡ true) × (publish_row (held_row x) ≡ published x)
  unfolding held_row hold_row change_of of_run publish_row
  publish-held x h = rw h (ground (arith, eq_iff run run), refl)

  -- When no two assets have the same id and a manager publishes a held pass, every asset whose change was held gets the grade and the
  -- reasons that the pass had given it, and has no proposal left.
  pub apply_proposed-hold_changes :
      (t : List Asset) (x : Asset)
      → IsKeyed t
      → Member x t
      → is_kept before canaries x ≡ false
      → Member (published x) (apply_proposed (some run) (hold_changes before canaries run t))
  unfolding apply_proposed
  apply_proposed-hold_changes t x k m h =
      let (named, same) = publish-held x h in
      subst
        (λ y.
          Member y (update (of_run (some run)) publish_row (hold_changes before canaries run t)))
        same
        (Member-update (of_run (some run)) publish_row
          (subst (Member (held_row x)) (sym (hold_changes-map t k)) (Member-map m)) named)
