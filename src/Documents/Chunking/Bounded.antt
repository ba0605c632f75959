-- ===== src/Documents/Chunking/Bounded.antt =====
-- The loops of `chunk_texts` end, and what its chunks are.
use guru_ji.Prelude.{
  ℕ, zero, suc, ◌+◌, ◌-◌, ◌≤◌, ◌<◌, String, ◌≡◌, refl, false, ◌||◌, Option, some, List, [], ◌∷◌,
  ◌++◌, if-cases, if-elim, ◌==◌, string_eq, nat_eq, ltb, leb, length, arith,
}
use guru_ji.Domain.Text.{text_length, text_length-text_drop, text_length-text_take_full}
use guru_ji.Documents.Chunking.{
  TextChunk, ParsedText, Splitters, Buffered, append, with_last, cut, candidate_of, take_piece,
  check_full, next, run_pieces, Run, goes_on, full, endless, flush, run_section, run_sections,
  chunked, chunk_texts, and_then, finished, clean, pieces_of,
}

module _ (chunk_chars : ℕ) where
  -- Chunks numbered from `n` on, none empty and none longer than `chunk_chars`.
  pub data Numbered : ℕ → List TextChunk → Type 0 where
    no_more : {n : ℕ} → Numbered n []
    chunk :
        {n : ℕ} {c : TextChunk} {chunks : List TextChunk}
        → c.chunk_index ≡ n
        → 0 < text_length c.text
        → text_length c.text ≤ chunk_chars
        → Numbered (suc n) chunks
        → Numbered n (c ∷ chunks)

  Numbered-snoc :
      {n : ℕ} {chunks : List TextChunk} (c : TextChunk)
      → Numbered n chunks
      → c.chunk_index ≡ n + length chunks
      → 0 < text_length c.text
      → text_length c.text ≤ chunk_chars
      → Numbered n (chunks ++ c ∷ [])
  Numbered-snoc c no_more e p q = chunk (omega (arith, e)) p q no_more
  Numbered-snoc c (chunk i a b h) e p q = chunk i a b (Numbered-snoc c h (omega (arith, e)) p q)

  append-Numbered :
      (s : ParsedText) (chunks : List TextChunk) (text : String)
      → Numbered 0 chunks
      → 0 < text_length text
      → text_length text ≤ chunk_chars
      → Numbered 0 (append s chunks text)
  unfolding append
  append-Numbered s chunks text h p q = Numbered-snoc _ h (omega arith) p q

  -- A run that has not needed more fuel than it has.
  pub data Sound {A : Type 0} (Q : A → Type 0) : Run A → Type 0 where
    sound : {a : A} → Q a → Sound Q (goes_on a)
    stopped : {chunks : List TextChunk} → Numbered 0 chunks → Sound Q (full chunks)

  and_then-Sound :
      {A B : Type 0} {Q : A → Type 0} {P : B → Type 0} (f : A → Run B) {r : Run A}
      → Sound Q r
      → ((a : A) → Q a → Sound P (f a))
      → Sound P (and_then f r)
  unfolding and_then
  and_then-Sound f (sound q) h = h _ q
  and_then-Sound f (stopped k) h = stopped k

  -- Chunks so far, and a buffer that is short enough.
  unfoldable pub IsBuffered : Buffered → Type 0
  IsBuffered (chunks, buffer) = Numbered 0 chunks × (text_length buffer ≤ chunk_chars)

  -- The `while` loop has ended.
  unfoldable IsCut : Option Buffered → Type 0
  IsCut o = (b : Buffered) × (o ≡ some b) × IsBuffered b

module _ (chunk_chars overlap_chars max_chunks : ℕ) (valid : overlap_chars < chunk_chars)
    (s : ParsedText) where
  cut-IsCut :
      (fuel : ℕ) (chunks : List TextChunk) (buffer : String)
      → text_length buffer ≤ fuel
      → Numbered chunk_chars 0 chunks
      → IsCut chunk_chars (cut chunk_chars overlap_chars max_chunks s fuel chunks buffer)
  unfolding cut IsCut IsBuffered
  cut-IsCut zero chunks buffer h k =
      if-cases (IsCut chunk_chars) (ltb chunk_chars (text_length buffer))
        (λ e. absurd (ground arith)) (λ e. (_, refl, (k, ground (arith, e))))
  cut-IsCut (suc fuel) chunks buffer h k =
      if-cases (IsCut chunk_chars) (ltb chunk_chars (text_length buffer))
        (λ e.
          let whole = text_length-text_take_full chunk_chars buffer (ground (arith, e)) in
          cut-IsCut fuel _ _
            (ground (arith, e, text_length-text_drop (chunk_chars - overlap_chars) buffer))
            (append-Numbered chunk_chars s chunks _ k (omega (arith, whole))
              (omega (arith, whole))))
        (λ e. (_, refl, (k, ground (arith, e))))

  unfoldable IsTaken : Buffered → Type 0
  IsTaken (chunks, buffer) = Numbered chunk_chars 0 chunks

  take_piece-IsTaken :
      (piece : String) (chunks : List TextChunk) (buffer : String)
      → Numbered chunk_chars 0 chunks
      → text_length buffer ≤ chunk_chars
      → IsTaken (take_piece chunk_chars overlap_chars max_chunks s piece (chunks, buffer))
  unfolding take_piece IsTaken
  take_piece-IsTaken piece chunks buffer k h =
      if-cases IsTaken
        (leb (text_length (candidate_of chunk_chars overlap_chars max_chunks s buffer piece))
            chunk_chars
          || ltb (text_length buffer) 80)
        (λ e. k) (λ e. append-Numbered chunk_chars s chunks buffer k (ground (arith, e)) h)

  unfoldable pub IsSound : Run Buffered → Type 0
  IsSound r = Sound chunk_chars (IsBuffered chunk_chars) r

  check_full-IsSound :
      (o : Option Buffered)
      → IsCut chunk_chars o
      → IsSound (check_full chunk_chars overlap_chars max_chunks s o)
  unfolding IsCut IsBuffered IsSound
  check_full-IsSound o ((chunks, buffer), e, (k, h)) =
      rw e (if-elim IsSound (leb max_chunks (length chunks)) (stopped k) (sound (k, h)))

  cut_taken :
      (b : Buffered)
      → IsTaken b
      → IsCut chunk_chars (cut chunk_chars overlap_chars max_chunks s (text_length b.1) b.0 b.1)
  unfolding IsTaken
  cut_taken (chunks, buffer) k = cut-IsCut (text_length buffer) chunks buffer (omega arith) k

  next-IsSound :
      (piece : String) (b : Buffered)
      → IsBuffered chunk_chars b
      → IsSound (next chunk_chars overlap_chars max_chunks s piece b)
  unfolding next IsBuffered
  next-IsSound piece (chunks, buffer) (k, h) =
      check_full-IsSound _ (cut_taken _ (take_piece-IsTaken piece chunks buffer k h))

  run_pieces-IsSound :
      (pieces : List String) (b : Buffered)
      → IsBuffered chunk_chars b
      → IsSound (run_pieces chunk_chars overlap_chars max_chunks s pieces b)
  unfolding run_pieces IsSound
  run_pieces-IsSound [] b h = sound h
  run_pieces-IsSound (piece ∷ pieces) b h =
      and_then-Sound chunk_chars (run_pieces chunk_chars overlap_chars max_chunks s pieces)
        (next-IsSound piece b h) (λ a k. run_pieces-IsSound pieces a k)

  first_pieces :
      (pieces : List String) (chunks : List TextChunk)
      → Numbered chunk_chars 0 chunks
      → Sound chunk_chars
          (IsBuffered chunk_chars)
          (run_pieces chunk_chars overlap_chars max_chunks s pieces (chunks, ""))
  unfolding IsSound IsBuffered text_length
  first_pieces pieces chunks k = run_pieces-IsSound pieces (chunks, "") (k, omega arith)

  not_empty : (text : String) → (text == "") ≡ false → 0 < text_length text
  unfolding text_length
  not_empty String.[] h = absurd (cc)
  not_empty (String.◌∷◌ c text) h = omega arith

  unfoldable IsListed : List TextChunk → Type 0
  IsListed chunks = Numbered chunk_chars 0 chunks

  with_last-Numbered :
      (b : Buffered)
      → IsBuffered chunk_chars b
      → Numbered chunk_chars 0 (with_last chunk_chars overlap_chars max_chunks s b)
  unfolding with_last IsBuffered IsListed
  with_last-Numbered (chunks, buffer) (k, h) =
      if-cases IsListed (buffer == "") (λ e. k)
        (λ e. append-Numbered chunk_chars s chunks buffer k (not_empty buffer e) h)

  unfoldable IsFlushed : Run (List TextChunk) → Type 0
  IsFlushed r = Sound chunk_chars (Numbered chunk_chars 0) r

  flush-IsFlushed :
      (b : Buffered)
      → IsBuffered chunk_chars b
      → IsFlushed (flush chunk_chars overlap_chars max_chunks s b)
  unfolding flush IsFlushed
  flush-IsFlushed b h =
      let all = with_last-Numbered b h in
      if-elim IsFlushed
        (leb max_chunks (length (with_last chunk_chars overlap_chars max_chunks s b))) (stopped all)
        (sound all)

module _ (f : Splitters) (chunk_chars overlap_chars max_chunks : ℕ)
    (valid : overlap_chars < chunk_chars) where
  section-IsFlushed :
      (s : ParsedText) (chunks : List TextChunk)
      → Numbered chunk_chars 0 chunks
      → IsFlushed chunk_chars overlap_chars max_chunks valid s
          (run_section f chunk_chars overlap_chars max_chunks s chunks)
  unfolding run_section IsFlushed
  section-IsFlushed s chunks k =
      if-elim (IsFlushed chunk_chars overlap_chars max_chunks valid s) (clean f s.text == "")
        (sound k)
        (and_then-Sound chunk_chars (flush chunk_chars overlap_chars max_chunks s)
          (first_pieces chunk_chars overlap_chars max_chunks valid s (pieces_of f (clean f s.text))
            chunks k)
          (λ b h. flush-IsFlushed chunk_chars overlap_chars max_chunks valid s b h))

  sections-Sound :
      (sections : List ParsedText) (chunks : List TextChunk)
      → Numbered chunk_chars 0 chunks
      → Sound chunk_chars
          (Numbered chunk_chars 0)
          (run_sections f chunk_chars overlap_chars max_chunks sections chunks)
  unfolding run_sections IsFlushed
  sections-Sound [] chunks k = sound k
  sections-Sound (s ∷ sections) chunks k =
      and_then-Sound chunk_chars (run_sections f chunk_chars overlap_chars max_chunks sections)
        (section-IsFlushed s chunks k) (sections-Sound sections)

  finished-Numbered :
      (r : Run (List TextChunk))
      → Sound chunk_chars (Numbered chunk_chars 0) r
      → (chunks : List TextChunk) × (finished r ≡ chunked chunks) × Numbered chunk_chars 0 chunks
  finished-Numbered (goes_on chunks) (sound k) = (chunks, refl, k)
  finished-Numbered (full chunks) (stopped k) = (chunks, refl, k)
  finished-Numbered endless k = elim k [ ]

  -- With an overlap shorter than a chunk, the loops of `chunk_texts` end on every text: it returns
  -- chunks, numbered from 0 in order, none of them empty and none longer than `chunk_chars`.
  pub chunk_texts-Numbered :
      (sections : List ParsedText)
      → (chunks : List TextChunk) × (chunk_texts f chunk_chars overlap_chars max_chunks sections
          ≡ chunked chunks)
        × Numbered chunk_chars 0 chunks
  unfolding chunk_texts
  chunk_texts-Numbered sections =
      let e : (chunk_chars == 0 || leb chunk_chars overlap_chars) ≡ false = ground (arith, valid) in
      rw e (finished-Numbered _ (sections-Sound sections [] no_more))
