-- ===== src/Conversation/History.antt =====
-- apps/api/app/conversation/contracts.py: the history of a conversation that a request brings, and
-- the constructor of a turn. `words` is `str.split`.
pub mod Bounded
use guru_ji.Prelude.{
  ℕ, zero, suc, ◌+◌, ◌-◌, String, Bool, true, false, not, Option, none, some, List, [], ◌∷◌,
  if◌then◌else◌, ◌==◌, string_eq, ltb, length, drop, contains,
}
use guru_ji.Domain.Text.{join, text_take, text_length}

abbrev pub max_history_turns : ℕ
max_history_turns = 12

abbrev pub max_history_turn_chars : ℕ
max_history_turn_chars = 1000

abbrev pub max_history_chars : ℕ
max_history_chars = 6000

abbrev pub max_turn_chars : ℕ
max_turn_chars = 4000

pub data Role : Type 0 where
  user assistant : Role

pub record HistoryTurn : Type 0 where
  pub role : Role
  pub text : String

-- A turn as the client sends it: a role that is known, and a text, or neither.
pub record RawTurn : Type 0 where
  pub role : Option Role
  pub text : Option String

abbrev pub with_turn : Option HistoryTurn → List HistoryTurn → List HistoryTurn
with_turn none ts = ts
with_turn (some t) ts = t ∷ ts

module _ (words : String → List String) where
  unfoldable pub trim : String → String
  trim t = text_take max_history_turn_chars (join " " (words t))

  unfoldable pub read_turn : Option Role → Option String → Option HistoryTurn
  unfolding trim
  read_turn (some r) (some t) =
      if trim t == "" then none else some (record { role = r; text = trim t })
  read_turn _ _ = none

  unfoldable pub read_turns : List RawTurn → List HistoryTurn
  unfolding read_turn
  read_turns [] = []
  read_turns (x ∷ xs) = with_turn (read_turn x.role x.text) (read_turns xs)

-- The turns kept, their characters, and whether the loop has left off.
pub record Kept : Type 0 where
  pub turns : List HistoryTurn
  pub total : ℕ
  pub full : Bool

unfoldable pub keep_turn : HistoryTurn → Kept → Kept
keep_turn t k =
    if k.full
    then k
    else if ltb max_history_chars (k.total + text_length t.text)
    then record k { full = true }
    else record { turns = t ∷ k.turns; total = k.total + text_length t.text; full = false }

-- The loop over the reversed turns, with its `break`, is a fold from the right.
unfoldable pub keep_recent : List HistoryTurn → Kept
unfolding keep_turn
keep_recent [] = record { turns = []; total = 0; full = false }
keep_recent (t ∷ ts) = keep_turn t (keep_recent ts)

-- `items[-max_history_turns:]`
unfoldable pub last_turns : List HistoryTurn → List HistoryTurn
last_turns ts = drop (length ts - max_history_turns) ts

unfoldable pub bound_history : (String → List String) → List RawTurn → List HistoryTurn
unfolding read_turns last_turns keep_recent
bound_history words turns = (keep_recent (last_turns (read_turns words turns))).turns

abbrev pub languages : List String
languages = "en-IN" ∷ "hi-IN" ∷ "kn-IN" ∷ []

pub record Turn : Type 0 where
  pub text : String
  pub language_hint : Option String
  pub history : List HistoryTurn

abbrev known_language : Option String → Option String
known_language none = none
known_language (some l) = if contains languages l then some l else none

-- The fields of a turn that its constructor changes; `none` is the ValueError.
unfoldable pub make_turn :
    (String → List String) → String → Option String → List RawTurn → Option Turn
unfolding bound_history
make_turn words text language turns =
    let joined = join " " (words text) in
    if joined == ""
    then none
    else if ltb max_turn_chars (text_length joined)
    then none
    else some (record {
      text = joined;
      language_hint = known_language language;
      history = bound_history words turns;
    })
