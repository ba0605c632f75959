-- ===== src/Conversation/History/Bounded.antt =====
-- The bounds of a history, and which turns it keeps.
use guru_ji.Prelude.{
  ℕ, zero, suc, ◌+◌, ◌-◌, ◌≤◌, String, ◌≡◌, refl, ap, false, Option, none, some, List, [], ◌∷◌, All,
  arith, if-cases, ltb, length, drop, length-drop, ◌==◌, string_eq,
}
use mathlib.Core.Path.{subst}
use guru_ji.Domain.Text.{text_length, text_length-text_take, join}
use guru_ji.Conversation.History.{
  HistoryTurn, RawTurn, Role, Kept, trim, read_turn, read_turns, with_turn, keep_turn, keep_recent,
  last_turns, bound_history, max_history_chars,
}

-- The end of a list.
pub data IsEnd : List HistoryTurn → List HistoryTurn → Type 0 where
  whole : {ts : List HistoryTurn} → IsEnd ts ts
  later : {t : HistoryTurn} {xs ts : List HistoryTurn} → IsEnd xs ts → IsEnd xs (t ∷ ts)

IsEnd-trans : {xs ys zs : List HistoryTurn} → IsEnd xs ys → IsEnd ys zs → IsEnd xs zs
IsEnd-trans h whole = h
IsEnd-trans h (later k) = later (IsEnd-trans h k)

drop-IsEnd : (n : ℕ) (ts : List HistoryTurn) → IsEnd (drop n ts) ts
drop-IsEnd zero ts = whole
drop-IsEnd (suc n) [] = whole
drop-IsEnd (suc n) (t ∷ ts) = later (drop-IsEnd n ts)

IsEnd-length : {xs ys : List HistoryTurn} → IsEnd xs ys → length xs ≤ length ys
IsEnd-length whole = omega arith
IsEnd-length (later h) = omega (arith, IsEnd-length h)

abbrev pub chars : List HistoryTurn → ℕ
chars [] = 0
chars (t ∷ ts) = text_length t.text + chars ts

-- What the loop has kept of the turns it has seen.
record IsKept (ts : List HistoryTurn) (k : Kept) : Type 0 where
  end_of : IsEnd k.turns ts
  counted : k.total ≡ chars k.turns
  short : k.total ≤ max_history_chars
  complete : k.full ≡ false → k.turns ≡ ts

keep_turn-IsKept :
    (t : HistoryTurn) (ts : List HistoryTurn) (k : Kept)
    → IsKept ts k
    → IsKept (t ∷ ts) (keep_turn t k)
unfolding keep_turn
keep_turn-IsKept t ts k h =
    if-cases (IsKept (t ∷ ts)) k.full
      (λ f. record {
        end_of = later h.end_of;
        counted = h.counted;
        short = h.short;
        complete = λ e. absurd (cc);
      })
      λ open_still.
        if-cases (IsKept (t ∷ ts)) (ltb max_history_chars (k.total + text_length t.text))
          (λ over. record {
            end_of = later h.end_of;
            counted = h.counted;
            short = h.short;
            complete = λ e. absurd (cc);
          })
          λ fits. record {
            end_of = subst (λ xs. IsEnd (t ∷ k.turns) (t ∷ xs)) (h.complete open_still) whole;
            counted = omega (arith, h.counted);
            short = ground (arith, fits);
            complete = λ e. ap (λ xs. t ∷ xs) (h.complete open_still);
          }

keep_recent-IsKept : (ts : List HistoryTurn) → IsKept ts (keep_recent ts)
unfolding keep_recent
keep_recent-IsKept [] = record {
  end_of = whole;
  counted = refl;
  short = omega arith;
  complete = λ e. refl;
}
keep_recent-IsKept (t ∷ ts) = keep_turn-IsKept t ts (keep_recent ts) (keep_recent-IsKept ts)

-- Each text of a client's turn is cut to its bound and not empty.
abbrev pub IsTrimmed : HistoryTurn → Type 0
IsTrimmed t = (text_length t.text ≤ 1000) × ((t.text == "") ≡ false)

All-IsEnd : {xs ys : List HistoryTurn} → IsEnd xs ys → All IsTrimmed ys → All IsTrimmed xs
All-IsEnd whole h = h
All-IsEnd (later e) (a, h) = All-IsEnd e h

module _ (words : String → List String) where
  unfoldable Trimmed : Option HistoryTurn → Type 0
  Trimmed none = Unit
  Trimmed (some t) = IsTrimmed t

  read_turn-Trimmed : (r : Option Role) (t : Option String) → Trimmed (read_turn words r t)
  unfolding read_turn trim Trimmed
  read_turn-Trimmed none t = tt
  read_turn-Trimmed (some r) none = tt
  read_turn-Trimmed (some r) (some t) =
      if-cases Trimmed (trim words t == "") (λ e. tt)
        (λ e. (text_length-text_take 1000 (join " " (words t)), e))

  with_turn-IsTrimmed :
      (o : Option HistoryTurn) (ts : List HistoryTurn)
      → Trimmed o
      → All IsTrimmed ts
      → All IsTrimmed (with_turn o ts)
  unfolding Trimmed
  with_turn-IsTrimmed none ts h k = k
  with_turn-IsTrimmed (some t) ts h k = (h, k)

  read_turns-IsTrimmed : (xs : List RawTurn) → All IsTrimmed (read_turns words xs)
  unfolding read_turns
  read_turns-IsTrimmed [] = tt
  read_turns-IsTrimmed (x ∷ xs) =
      with_turn-IsTrimmed _ _ (read_turn-Trimmed x.role x.text) (read_turns-IsTrimmed xs)

  -- A history has at most 12 turns and 6000 characters, each turn has at most 1000 and is not
  -- empty, and it is the most recent part of the readable turns that the client sent.
  pub bound_history-IsEnd :
      (turns : List RawTurn)
      → IsEnd (bound_history words turns) (read_turns words turns)
        × (length (bound_history words turns) ≤ 12)
        × (chars (bound_history words turns) ≤ 6000)
        × All IsTrimmed (bound_history words turns)
  unfolding bound_history last_turns
  bound_history-IsEnd turns =
      let ts = read_turns words turns in
      let k = keep_recent-IsKept (last_turns ts) in
      let part = IsEnd-trans k.end_of (drop-IsEnd (length ts - 12) ts) in
      (
        part,
        omega (arith, IsEnd-length k.end_of, length-drop (length ts - 12) ts),
        omega (arith, k.counted, k.short),
        All-IsEnd part (read_turns-IsTrimmed turns),
      )
