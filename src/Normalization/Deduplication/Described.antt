-- ===== src/Normalization/Deduplication/Described.antt =====
-- What the loop of `find_duplicates` gives each record of a batch, read off the records before it.
use guru_ji.Prelude.{
  ℕ, zero, suc, String, ◌≡◌, refl, sym, ap, ◌∙◌, Bool, true, false, inl, inr, Eq, string_eq, ◌==◌,
  eq_iff, Option, none, some, List, [], ◌∷◌, ◌++◌, arith, any, find, get_elem?, take, contains, not,
  option_eq, length, if◌then◌else◌, Bool-cases,
}
use mathlib.Core.Path.{subst}
use guru_ji.Normalization.Deduplication.Differing.{contains-differing}
use guru_ji.Normalization.Deduplication.{
  only_bars, Action, insert, update, missing_key, duplicate_in_batch, conflict_in_batch, exact_key,
  conflicting_key, identical, differing_fields, field_of, differing, DuplicateCandidate,
  CanonicalRecord, Pass, locator_of, against, is_existing, claim_key, repeat_key, compare_first,
  meet, visit, visit_all, keyed_pass, option_bind,
}

module _ {ℓ} {A : Type ℓ} where
  get_elem?-append :
      (xs ys : List A) (i : ℕ) {a : A} → get_elem? xs i ≡ some a → get_elem? (xs ++ ys) i ≡ some a
  get_elem?-append [] ys i h = absurd (cc)
  get_elem?-append (x ∷ xs) ys zero h = h
  get_elem?-append (x ∷ xs) ys (suc i) h = get_elem?-append xs ys i h

  get_elem?-length :
      (xs : List A) (y : A) (ys : List A) → get_elem? (xs ++ y ∷ ys) (length xs) ≡ some y
  get_elem?-length [] y ys = refl
  get_elem?-length (x ∷ xs) y ys = get_elem?-length xs y ys

  module _ (p : A → Bool) where
    find-snoc_miss : (xs : List A) (y : A) → p y ≡ false → find p (xs ++ y ∷ []) ≡ find p xs
    find-snoc_miss [] y h = rw h refl
    find-snoc_miss (x ∷ xs) y h = rw (find-snoc_miss xs y h) refl

    find-snoc_hit :
        (xs : List A) (y : A) → find p xs ≡ none → p y ≡ true → find p (xs ++ y ∷ []) ≡ some y
    find-snoc_hit [] y n h = rw h refl
    find-snoc_hit (x ∷ xs) y n h = ground (arith, find-snoc_hit xs y, n, h)

    find-snoc_kept : (xs : List A) (y a : A) → find p xs ≡ some a → find p (xs ++ y ∷ []) ≡ some a
    find-snoc_kept [] y a h = absurd (cc)
    find-snoc_kept (x ∷ xs) y a h = ground (arith, find-snoc_kept xs y a, h)

  append_assoc : (xs ys zs : List A) → (xs ++ ys) ++ zs ≡ xs ++ (ys ++ zs)
  append_assoc [] ys zs = refl
  append_assoc (x ∷ xs) ys zs = ap (λ t. x ∷ t) (append_assoc xs ys zs)

  append_nil : (xs : List A) → xs ++ [] ≡ xs
  append_nil [] = refl
  append_nil (x ∷ xs) = ap (λ t. x ∷ t) (append_nil xs)

  length_snoc : (xs : List A) (y : A) → length (xs ++ y ∷ []) ≡ suc (length xs)
  length_snoc [] y = refl
  length_snoc (x ∷ xs) y = ap suc (length_snoc xs y)

module _ {V : Type 0} ⦃e : Eq V⦄ (decimal : ℕ → String)
    (existing : List (String × List (String × V))) where
  -- The first of the records that has a key.
  abbrev owner : String → List (CanonicalRecord V) → Option (CanonicalRecord V)
  owner key before = find (λ o. o.record_key == key) before

  -- The same content.
  abbrev repeats : CanonicalRecord V → CanonicalRecord V → Bool
  repeats r o = o.content_hash == r.content_hash

  -- The action and the candidates of a record at `index`, from the record that first had its key:
  -- a row of the same content is dropped, and one of other content is a conflict that names the
  -- fields that differ, at most 20.
  abbrev told :
      ℕ → CanonicalRecord V → Option (CanonicalRecord V) → Action × List DuplicateCandidate
  told index r none = (if any (λ x. x.0 == r.record_key) existing then update else insert, [])
  told index r (some o) = (
    if repeats r o then duplicate_in_batch else conflict_in_batch,
    record {
      kind = if repeats r o then exact_key else conflicting_key;
      left_locator = locator_of decimal index r.source_locator;
      right_locator = o.source_locator;
      record_key = some r.record_key;
      score = if repeats r o then 100 else 95;
      evidence = if repeats r o then identical else differing_fields (take 20 (differing r o));
    }
        ∷ [],
  )

  abbrev pub described :
      List (CanonicalRecord V) → CanonicalRecord V → Action × List DuplicateCandidate
  described before r =
      if only_bars r.record_key
      then (missing_key, [])
      else told (length before) r (owner r.record_key before)

  abbrev pub described_actions :
      List (CanonicalRecord V) → List (CanonicalRecord V) → List (ℕ × Action)
  described_actions before [] = []
  described_actions before (r ∷ rest) =
      (length before, (described before r).0) ∷ described_actions (before ++ r ∷ []) rest

  abbrev pub described_candidates :
      List (CanonicalRecord V) → List (CanonicalRecord V) → List DuplicateCandidate
  described_candidates before [] = []
  described_candidates before (r ∷ rest) =
      (described before r).1 ++ described_candidates (before ++ r ∷ []) rest

  -- What the dictionary says of a key agrees with the records read so far.
  data Points (before : List (CanonicalRecord V))
      : Option (String × ℕ) → Option (CanonicalRecord V) → Type 0 where
    neither : Points before none none
    both :
        {k : String} {i : ℕ} {o : CanonicalRecord V}
        → get_elem? before i ≡ some o
        → Points before (some (k, i)) (some o)

  abbrev entry : String → Pass → Option (String × ℕ)
  entry key p = find (λ x. x.0 == key) p.first_by_key

  abbrev AllPoint : List (CanonicalRecord V) → Pass → Type 0
  AllPoint before p =
      (key : String) → only_bars key ≡ false → Points before (entry key p) (owner key before)

  against_lem :
      (index : ℕ) (r o : CanonicalRecord V)
      → let (action, candidate) = against (locator_of decimal index r.source_locator) r o in
        told index r (some o) ≡ (action, candidate ∷ [])
  unfolding against
  against_lem index r o = elim (Bool-cases (repeats r o)) [ inl e ↦ rw e refl | inr e ↦ rw e refl ]

  -- One round from `p` to `q`, which gives the record this outcome.
  abbrev IsRound :
      List (CanonicalRecord V)
      → CanonicalRecord V
      → Action × List DuplicateCandidate
      → Pass
      → Pass
      → Type 0
  IsRound before r outcome p q =
      (q.actions ≡ p.actions ++ (length before, outcome.0) ∷ [])
      × (q.candidates ≡ p.candidates ++ outcome.1)
      × AllPoint (before ++ r ∷ []) q

  Points-grow :
      (before : List (CanonicalRecord V)) (r : CanonicalRecord V) {x : Option (String × ℕ)}
      {y : Option (CanonicalRecord V)}
      → Points before x y
      → Points (before ++ r ∷ []) x y
  Points-grow before r neither = neither
  Points-grow before r (both {i} h) = both (get_elem?-append before (r ∷ []) i h)

  -- A record that claims no key leaves what the dictionary says.
  Points-kept :
      (key : String) (before : List (CanonicalRecord V)) (r : CanonicalRecord V)
      {x : Option (String × ℕ)}
      → owner key (before ++ r ∷ []) ≡ owner key before
      → Points before x (owner key before)
      → Points (before ++ r ∷ []) x (owner key (before ++ r ∷ []))
  Points-kept key before r {x} h d =
      subst (λ y. Points (before ++ r ∷ []) x y) (sym h) (Points-grow before r d)

  owner-other :
      (key : String) (before : List (CanonicalRecord V)) (r : CanonicalRecord V)
      → (r.record_key == key) ≡ false
      → owner key (before ++ r ∷ []) ≡ owner key before
  owner-other key before r h = find-snoc_miss (λ o. o.record_key == key) before r h

  AllPoint-missing :
      (before : List (CanonicalRecord V)) (r : CanonicalRecord V) (p : Pass)
      → only_bars r.record_key ≡ true
      → AllPoint before p
      → AllPoint (before ++ r ∷ []) p
  AllPoint-missing before r p b d key s = elim (Bool-cases (r.record_key == key)) [
    | inl h ↦
        let w : only_bars r.record_key ≡ only_bars key =
          ap only_bars ((eq_iff r.record_key key).0 h) in
        absurd (cc)
    | inr h ↦ Points-kept key before r (owner-other key before r h) (d key s)
  ]

  AllPoint-repeated :
      (before : List (CanonicalRecord V)) (r o : CanonicalRecord V) (p : Pass)
      → owner r.record_key before ≡ some o
      → AllPoint before p
      → AllPoint (before ++ r ∷ []) p
  AllPoint-repeated before r o p b d key s = elim (Bool-cases (r.record_key == key)) [
    | inl h ↦
        let q : owner key before ≡ some o =
          subst (λ k. owner k before ≡ some o) ((eq_iff r.record_key key).0 h) b in
        Points-kept key before r (find-snoc_kept (λ x. x.record_key == key) before r o q ∙ sym q)
          (d key s)
    | inr h ↦ Points-kept key before r (owner-other key before r h) (d key s)
  ]

  -- The record that claims a key is the first to have it.
  AllPoint-claimed :
      (before : List (CanonicalRecord V)) (r : CanonicalRecord V) (p : Pass)
      → owner r.record_key before ≡ none
      → entry r.record_key p ≡ none
      → AllPoint before p
      → AllPoint (before ++ r ∷ []) (claim_key decimal existing (length before) r.record_key p)
  unfolding claim_key
  AllPoint-claimed before r p b f d key s =
      let n = length before in
      let keys = p.first_by_key ++ (r.record_key, n) ∷ [] in
      elim (Bool-cases (r.record_key == key)) [
        | inl h ↦
            let k : r.record_key ≡ key = (eq_iff r.record_key key).0 h in
            let e1 : owner key (before ++ r ∷ []) ≡ some r =
              find-snoc_hit (λ o. o.record_key == key) before r
                (subst (λ t. owner t before ≡ none) k b) h in
            let e2 : find (λ x. x.0 == key) keys ≡ some (r.record_key, n) =
              find-snoc_hit (λ x. x.0 == key) p.first_by_key (r.record_key, n)
                (subst (λ t. entry t p ≡ none) k f) h in
            subst (λ y. Points (before ++ r ∷ []) (find (λ x. x.0 == key) keys) y) (sym e1)
              (subst (λ x. Points (before ++ r ∷ []) x (some r)) (sym e2)
                (both (get_elem?-length before r [])))
        | inr h ↦
            subst (λ x. Points (before ++ r ∷ []) x (owner key (before ++ r ∷ [])))
              (sym (find-snoc_miss (λ x. x.0 == key) p.first_by_key (r.record_key, n) h))
              (Points-kept key before r (owner-other key before r h) (d key s))
      ]

  meet-IsRound :
      (before : List (CanonicalRecord V)) (r : CanonicalRecord V) (rest : List (CanonicalRecord V))
      (p : Pass) (x : Option (String × ℕ)) (y : Option (CanonicalRecord V))
      → Points before x y
      → entry r.record_key p ≡ x
      → owner r.record_key before ≡ y
      → AllPoint before p
      → (q : Pass) × (meet decimal existing (before ++ r ∷ rest) (length before) r x p ≡ some q)
        × IsRound before r (told (length before) r y) p q
  unfolding meet claim_key compare_first repeat_key is_existing
  meet-IsRound before r rest p none none neither f b d =
      let q = claim_key decimal existing (length before) r.record_key p in
      (q, refl, (refl, sym (append_nil p.candidates), AllPoint-claimed before r p b f d))
  meet-IsRound before r rest p (some (k, i)) (some o) (both h) f b d =
      let g : get_elem? (before ++ r ∷ rest) i ≡ some o = get_elem?-append before (r ∷ rest) i h in
      let q = repeat_key decimal existing (length before) r o p in
      let e1 = ap (λ z. compare_first decimal existing (length before) r z p) g in
      let l = against_lem (length before) r o in
      (
        q,
        e1,
        (
          ap (λ x. p.actions ++ (length before, x.0) ∷ []) (sym l),
          ap (λ x. p.candidates ++ x.1) (sym l),
          AllPoint-repeated before r o q b d,
        ),
      )
  meet-IsRound before r rest p none (some o) h f b d = elim h [ ]
  meet-IsRound before r rest p (some (k, i)) none h f b d = elim h [ ]

  visit-IsRound :
      (before : List (CanonicalRecord V)) (r : CanonicalRecord V) (rest : List (CanonicalRecord V))
      (p : Pass)
      → AllPoint before p
      → (q : Pass) × (visit decimal existing (before ++ r ∷ rest) (length before) r p ≡ some q)
        × IsRound before r (described before r) p q
  unfolding visit
  visit-IsRound before r rest p d = elim (Bool-cases (only_bars r.record_key)) [
    | inl h ↦
        let q : Pass = record p { actions = p.actions ++ (length before, missing_key) ∷ [] } in
        rw h (q, refl, (refl, sym (append_nil p.candidates), AllPoint-missing before r q h d))
    | inr h ↦ rw h (
        meet-IsRound before r rest p (entry r.record_key p) (owner r.record_key before)
          (d r.record_key h) refl refl d)
  ]

  visit_all_lem :
      (before rest : List (CanonicalRecord V)) (p : Pass)
      → AllPoint before p
      → (q : Pass) × (visit_all decimal existing (before ++ rest) (length before) rest p ≡ some q)
        × (q.actions ≡ p.actions ++ described_actions before rest)
        × (q.candidates ≡ p.candidates ++ described_candidates before rest)
  unfolding visit_all
  visit_all_lem before [] p d = (p, refl, sym (append_nil p.actions), sym (append_nil p.candidates))
  visit_all_lem before (r ∷ rest) p d =
      let (q, run, (acts, cands, points)) = visit-IsRound before r rest p d in
      let (z, runs, all_acts, all_cands) = visit_all_lem (before ++ r ∷ []) rest q points in
      let go_on = λ (t : List (CanonicalRecord V)) (n : ℕ) (x : Pass).
        visit_all decimal existing t n rest x in
      let place = append_assoc before (r ∷ []) rest in
      let e1 : go_on (before ++ r ∷ rest) (suc (length before)) q ≡ some z =
        subst (λ n. go_on (before ++ r ∷ rest) n q ≡ some z) (length_snoc before r)
          (subst (λ t. go_on t (length (before ++ r ∷ [])) q ≡ some z) place runs) in
      (
        z,
        ap (λ o. option_bind o (go_on (before ++ r ∷ rest) (suc (length before)))) run ∙ e1,
        all_acts
            ∙ (ap (λ t. t ++ described_actions (before ++ r ∷ []) rest) acts
                ∙ append_assoc p.actions _ _),
        all_cands
            ∙ (ap (λ t. t ++ described_candidates (before ++ r ∷ []) rest) cands
                ∙ append_assoc p.candidates _ _),
      )

  -- The loop reaches the end of every batch. Each record gets one action, in order: `missing_key`
  -- when its key is bars alone; if no earlier record has its key, `update` when the key is on file
  -- and `insert` when not; and otherwise `duplicate_in_batch` when the first record with the key
  -- has the same content, and `conflict_in_batch` when not, with one candidate that names that
  -- record. The candidate of a conflict lists at most 20 of the names that the two read differently.
  pub keyed_pass_lem :
      (records : List (CanonicalRecord V))
      → (q : Pass) × (keyed_pass decimal existing records ≡ some q)
        × (q.actions ≡ described_actions [] records)
        × (q.candidates ≡ described_candidates [] records)
        × ((r o : CanonicalRecord V) (n : String)
            → contains (differing r o) n ≡ not (field_of r.fields n == field_of o.fields n))
  unfolding keyed_pass
  keyed_pass_lem records =
      let (q, run, acts, cands) =
        visit_all_lem [] records record { candidates = []; actions = []; first_by_key = [] }
          (λ key h. neither) in
      (q, run, acts, cands, contains-differing)
