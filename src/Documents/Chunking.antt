-- ===== src/Documents/Chunking.antt =====
-- apps/api/app/documents/chunking.py. `str.splitlines`, `str.split` and the split at the pattern
-- `_SENTENCE_BOUNDARY` are parameters. The `while` loop runs on fuel, which is the length of its
-- buffer; `endless` stands for a run that needs more.
pub mod Bounded
use guru_ji.Prelude.{
  ℕ, zero, suc, ◌-◌, ◌/◌, max, String, Bool, true, false, not, ◌&&◌, ◌||◌, Option, none, some, List,
  [], ◌∷◌, ◌++◌, if◌then◌else◌, ◌==◌, string_eq, nat_eq, ltb, leb, length, select, map,
}
use guru_ji.Domain.Text.{strip, is_blank, text_length, text_take, text_drop, text_append, join}

pub record TextChunk : Type 0 where
  pub chunk_index : ℕ
  pub text : String
  pub page_number : Option ℕ
  pub locator : String

unfoldable pub token_estimate : TextChunk → ℕ
token_estimate c = max 1 (text_length c.text / 4)

pub record ParsedText : Type 0 where
  pub locator : String
  pub text : String
  pub page : Option ℕ

pub record Splitters : Type 0 where
  pub splitlines : String → List String
  pub words : String → List String
  pub sentences : String → List String

-- The collapsed lines of `_clean`; `blank` tells that the last one kept is blank, or that none is.
unfoldable pub clean_lines : (String → List String) → Bool → List String → List String
clean_lines words blank [] = []
clean_lines words blank (line ∷ lines) =
    let collapsed = join " " (words line) in
    let after_text = clean_lines words false lines in
    let after_blank = clean_lines words true lines in
    if not (collapsed == "")
    then collapsed ∷ after_text
    else if blank
    then after_blank
    else "" ∷ after_blank

unfoldable pub clean : Splitters → String → String
unfolding clean_lines
clean f text = strip (join "\n" (clean_lines f.words true (f.splitlines text)))

unfoldable pub pieces_of : Splitters → String → List String
pieces_of f text = select (λ piece. not (piece == "") && not (is_blank piece)) (f.sentences text)

-- `chunks.append(TextChunk(len(chunks), text, section.page, section.locator))`
unfoldable pub append : ParsedText → List TextChunk → String → List TextChunk
append s chunks text =
    chunks
    ++ record {
      chunk_index = length chunks;
      text = text;
      page_number = s.page;
      locator = s.locator;
    }
      ∷ []

-- The chunks and the buffer.
abbrev pub Buffered : Type 0
Buffered = List TextChunk × String

-- `text[-n:] if n else ""`
unfoldable pub last : ℕ → String → String
last n text = if n == 0 then "" else text_drop (text_length text - n) text

-- How the loops end: with all of their input read, or with the chunks that are returned at once.
pub data Run (A : Type 0) : Type 0 where
  goes_on : A → Run A
  full : List TextChunk → Run A
  endless : Run A

pub data Chunked : Type 0 where
  value_error : Chunked
  chunked : List TextChunk → Chunked
  never : Chunked

-- What follows a part of the run, unless that part returns.
unfoldable pub and_then : {A B : Type 0} → (A → Run B) → Run A → Run B
and_then f (goes_on a) = f a
and_then f (full chunks) = full chunks
and_then f endless = endless

abbrev pub finished : Run (List TextChunk) → Chunked
finished (goes_on chunks) = chunked chunks
finished (full chunks) = chunked chunks
finished endless = never

module _ (chunk_chars overlap_chars max_chunks : ℕ) (s : ParsedText) where
  -- `while len(buffer) > chunk_chars`, from the fuel.
  unfoldable pub cut : ℕ → List TextChunk → String → Option Buffered
  unfolding append
  cut zero chunks buffer =
      if ltb chunk_chars (text_length buffer) then none else some (chunks, buffer)
  cut (suc fuel) chunks buffer =
      let rest =
        cut fuel (append s chunks (text_take chunk_chars buffer))
          (text_drop (chunk_chars - overlap_chars) buffer) in
      if ltb chunk_chars (text_length buffer) then rest else some (chunks, buffer)

  unfoldable pub candidate_of : String → String → String
  candidate_of buffer piece =
      if buffer == "" then strip piece else strip (text_append buffer (text_append " " piece))

  -- A round up to the `while` loop.
  unfoldable pub take_piece : String → Buffered → Buffered
  unfolding append candidate_of last
  take_piece piece (chunks, buffer) =
      let candidate = candidate_of buffer piece in
      if leb (text_length candidate) chunk_chars || ltb (text_length buffer) 80
      then (chunks, candidate)
      else (
        append s chunks buffer,
        strip (text_append (last overlap_chars buffer) (text_append " " piece)),
      )

  abbrev cut_all : Buffered → Option Buffered
  cut_all (chunks, buffer) = cut (text_length buffer) chunks buffer

  abbrev is_full : List TextChunk → Bool
  is_full chunks = leb max_chunks (length chunks)

  abbrev pub check_full : Option Buffered → Run Buffered
  check_full none = endless
  check_full (some (chunks, buffer)) =
      if is_full chunks then full chunks else goes_on (chunks, buffer)

  unfoldable pub next : String → Buffered → Run Buffered
  unfolding cut take_piece
  next piece b = check_full (cut_all (take_piece piece b))

  unfoldable pub run_pieces : List String → Buffered → Run Buffered
  unfolding next and_then
  run_pieces [] b = goes_on b
  run_pieces (piece ∷ pieces) b = and_then (run_pieces pieces) (next piece b)

  -- The end of a section.
  unfoldable pub with_last : Buffered → List TextChunk
  unfolding append
  with_last (chunks, buffer) = if buffer == "" then chunks else append s chunks buffer

  unfoldable pub flush : Buffered → Run (List TextChunk)
  unfolding with_last
  flush b = if is_full (with_last b) then full (with_last b) else goes_on (with_last b)

module _ (f : Splitters) (chunk_chars overlap_chars max_chunks : ℕ) where
  unfoldable pub run_section : ParsedText → List TextChunk → Run (List TextChunk)
  unfolding clean pieces_of run_pieces flush and_then
  run_section s chunks =
      let text = clean f s.text in
      if text == ""
      then goes_on chunks
      else and_then (flush chunk_chars overlap_chars max_chunks s)
          (run_pieces chunk_chars overlap_chars max_chunks s (pieces_of f text) (chunks, ""))

  unfoldable pub run_sections : List ParsedText → List TextChunk → Run (List TextChunk)
  unfolding run_section and_then
  run_sections [] chunks = goes_on chunks
  run_sections (s ∷ sections) chunks = and_then (run_sections sections) (run_section s chunks)

  unfoldable pub chunk_texts : List ParsedText → Chunked
  unfolding run_sections
  chunk_texts sections =
      if chunk_chars == 0 || leb chunk_chars overlap_chars
      then value_error
      else finished (run_sections sections [])
