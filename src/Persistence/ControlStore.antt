-- ===== src/Persistence/ControlStore.antt =====
-- The rows of `InMemoryControlStore` of apps/api/app/persistence/database.py, and the operations on
-- voice sessions and usage counters. A value with the time that
-- `prune_retention` reads is `Stamped`; times are numbers, which the stored ISO texts order alike.
pub mod Usage
use guru_ji.Prelude.{
  ℕ, suc, ◌+◌, ◌-◌, ◌*◌, String, Bool, true, false, not, ◌&&◌, ◌||◌, Option, none, some, List, [],
  ◌∷◌, ◌++◌, if◌then◌else◌, ◌==◌, string_eq, nat_eq, contains, length, take, drop, find, any,
  select, ltb, leb, is_some,
}
use guru_ji.InstitutionData.Table.{update, delete}

pub record Stamped (A : Type 0) : Type 0 where
  pub item : A
  pub at : ℕ

pub record OutboxRecord (P : Type 0) : Type 0 where
  pub outbox_id : String
  pub event_type : String
  pub payload : P
  pub delivered_at : Option ℕ

pub record VoiceRow (P : Type 0) : Type 0 where
  pub session_id : String
  pub principal_id : String
  pub institution_id : String
  pub principal_json : P
  pub ticket_sha256 : String
  pub created_at : ℕ
  pub ticket_expires_at : ℕ
  pub expires_at : ℕ
  pub claimed_at : Option ℕ
  pub closed_at : Option ℕ

-- One counter of `_usage`: its key and its count. A day is a number, ordered as its ISO date.
pub record UsageCount : Type 0 where
  pub institution_id : String
  pub principal_id : String
  pub counter : String
  pub day : ℕ
  pub used : ℕ

module _ {ℓ} {A : Type ℓ} where
  -- `xs.append(x)`, then `del xs[:-n]` when there are more than n.
  unfoldable pub append_bounded : ℕ → A → List A → List A
  append_bounded n x xs =
      let ys = xs ++ x ∷ [] in if ltb n (length ys) then drop (length ys - n) ys else ys

  abbrev pub reverse_onto : List A → List A → List A
  reverse_onto [] ys = ys
  reverse_onto (x ∷ xs) ys = reverse_onto xs (x ∷ ys)

  -- `xs[-limit:][::-1]`
  unfoldable pub recent : ℕ → List A → List A
  recent limit xs = if limit == 0 then [] else reverse_onto (drop (length xs - limit) xs) []

  -- `sorted(rows, key=key)`, which is stable.
  abbrev pub insert_by : (A → ℕ) → A → List A → List A
  insert_by key x [] = x ∷ []
  insert_by key x (y ∷ ys) =
      let rest = insert_by key x ys in if leb (key x) (key y) then x ∷ y ∷ ys else y ∷ rest

  abbrev pub sorted_by : (A → ℕ) → List A → List A
  sorted_by key [] = []
  sorted_by key (x ∷ xs) = insert_by key x (sorted_by key xs)

-- `_is_active`
abbrev pub is_none : Option ℕ → Bool
is_none o = not (is_some o)

module _ {P : Type 0} where
  unfoldable pub is_active : VoiceRow P → ℕ → Bool
  is_active r now =
      if is_some r.closed_at
      then false
      else if is_none r.claimed_at
      then ltb now r.ticket_expires_at && ltb now r.expires_at
      else ltb now r.expires_at

  abbrev pub has_session : String → VoiceRow P → Bool
  has_session id r = r.session_id == id

  -- `none` is the ValueError on a session id that is taken.
  unfoldable pub create_voice_session : VoiceRow P → List (VoiceRow P) → Option (List (VoiceRow P))
  create_voice_session r t = if any (has_session r.session_id) t then none else some (t ++ r ∷ [])

  unfoldable pub get_voice_session : String → List (VoiceRow P) → Option (VoiceRow P)
  get_voice_session id t = find (has_session id) t

  -- The conditions of `claim_voice_session` on the row.
  unfoldable pub is_claimable : String → ℕ → VoiceRow P → Bool
  is_claimable digest now r =
      r.ticket_sha256 == digest
      && (is_none r.claimed_at
          && (is_none r.closed_at && (ltb now r.ticket_expires_at && ltb now r.expires_at)))

  abbrev pub claim_at : ℕ → VoiceRow P → VoiceRow P
  claim_at now r = record r { claimed_at = some now }

  unfoldable pub claim_found :
      String
      → String
      → ℕ
      → Option (VoiceRow P)
      → List (VoiceRow P)
      → Option (VoiceRow P) × List (VoiceRow P)
  claim_found id digest now none t = (none, t)
  claim_found id digest now (some r) t =
      if is_claimable digest now r
      then (some (claim_at now r), update (has_session id) (claim_at now) t)
      else (none, t)

  unfoldable pub claim_voice_session :
      String → String → ℕ → List (VoiceRow P) → Option (VoiceRow P) × List (VoiceRow P)
  unfolding claim_found get_voice_session
  claim_voice_session id digest now t = claim_found id digest now (get_voice_session id t) t

  -- `principal_id is not None and row["principal_id"] != principal_id`
  abbrev pub other_owner : Option String → VoiceRow P → Bool
  other_owner none r = false
  other_owner (some p) r = not (r.principal_id == p)

  abbrev pub close_at : ℕ → VoiceRow P → VoiceRow P
  close_at now r = record r { closed_at = some now }

  unfoldable pub close_found :
      String
      → Option String
      → ℕ
      → Option (VoiceRow P)
      → List (VoiceRow P)
      → Bool × List (VoiceRow P)
  close_found id owner now none t = (false, t)
  close_found id owner now (some r) t =
      if is_some r.closed_at || other_owner owner r
      then (false, t)
      else (true, update (has_session id) (close_at now) t)

  unfoldable pub close_voice_session :
      String → Option String → ℕ → List (VoiceRow P) → Bool × List (VoiceRow P)
  unfolding close_found get_voice_session
  close_voice_session id owner now t = close_found id owner now (get_voice_session id t) t

  unfoldable pub active_voice_sessions : ℕ → Option String → List (VoiceRow P) → List (VoiceRow P)
  unfolding is_active
  active_voice_sessions now owner t =
      sorted_by (λ r. r.created_at) (select (λ r. is_active r now && not (other_owner owner r)) t)

-- One key of `_usage`.
abbrev pub has_key : String → String → String → ℕ → UsageCount → Bool
has_key institution principal counter day u =
    u.institution_id == institution
    && (u.principal_id == principal && (u.counter == counter && u.day == day))

abbrev pub used_of : Option UsageCount → ℕ
used_of none = 0
used_of (some u) = u.used

-- `self._usage[key] = n`
abbrev pub set_usage : String → String → String → ℕ → ℕ → List UsageCount → List UsageCount
set_usage institution principal counter day n [] =
    record {
      institution_id = institution;
      principal_id = principal;
      counter = counter;
      day = day;
      used = n;
    }
    ∷ []
set_usage institution principal counter day n (u ∷ us) =
    let rest = set_usage institution principal counter day n us in
    if has_key institution principal counter day u then record u { used = n } ∷ us else u ∷ rest

unfoldable pub take_usage :
    String → String → String → ℕ → ℕ → List UsageCount → Bool × List UsageCount
take_usage institution principal counter day cap t =
    let used = used_of (find (has_key institution principal counter day) t) in
    if leb cap used
    then (false, t)
    else (true, set_usage institution principal counter day (used + 1) t)
