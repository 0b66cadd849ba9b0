-- ===== src/Text/Chunks/Bounds.antt =====
-- gorp-core/src/utils.rs, chunk_message: how long a chunk is.
use Prim.Native.String.{[], ◌∷◌, len}
use Prim.Native.String.len
use text.Mathlib.TextPositions.{len-append}
use text.Mathlib.TextLemmas.{nil-append, cons-append}
use gorp_rs.Base.{
  ℕ, ◌+◌, ◌≤◌, Char, code, String, Bool, true, false, not, ◌&&◌, ◌==◌, ◌≡◌, ◌≢◌, refl, ◌⊎◌, inl,
  inr, ltb, leb, leb→le, ltb→lt, eqb, List, ◌++◌, if◌then◌else◌, All, All-append, arith, Bool-cases,
  eq_iff, tests,
}
use gorp_rs.Base
use gorp_rs.Text.{◌^^◌, trim, trim_start, trim_end, all_chars}
use gorp_rs.Text.Chunks.{
  words_from, Chunking, push_chunk, save, add_word, add_words, add_line, add_lines, lines,
  chunk_message,
}

module _ (space : Char → Bool) where
  abbrev no_space : String → Bool
  no_space = all_chars (λ c. not (space c))

  len-trim_start : (s : String) → len (trim_start space s) ≤ len s
  unfolding trim_start
  len-trim_start [] = omega arith
  len-trim_start (c ∷ s) =
      ground (arith, len-trim_start s, len.cons c s, len.cons c (trim_start space s))

  len_if : (b : Bool) (s t : String) (k : ℕ) → len s ≤ k → len t ≤ k → len (if b then s else t) ≤ k
  len_if true s t k h h' = h
  len_if false s t k h h' = h'

  len-trim_end : (s : String) → len (trim_end space s) ≤ len s
  unfolding trim_end
  len-trim_end [] = omega arith
  len-trim_end (c ∷ s) =
      len_if (space c && trim_end space s == "") [] (c ∷ trim_end space s) (len (c ∷ s))
        (omega (arith, len.nil))
        (omega (arith, len-trim_end s, len.cons c s, len.cons c (trim_end space s)))

  no_space-trim_start : (s : String) → no_space s ≡ true → no_space (trim_start space s) ≡ true
  unfolding trim_start all_chars
  no_space-trim_start [] h = h
  no_space-trim_start (c ∷ s) h = ground (arith, no_space-trim_start s)

  no_space-trim_end : (s : String) → no_space s ≡ true → no_space (trim_end space s) ≡ true
  unfolding trim_end all_chars
  no_space-trim_end [] h = h
  no_space-trim_end (c ∷ s) h = ground (arith, no_space-trim_end s)

  no_space-append :
      (s t : String) → no_space s ≡ true → no_space t ≡ true → no_space (s ^^ t) ≡ true
  unfolding all_chars
  no_space-append [] t h k = rw nil-append k
  no_space-append (c ∷ s) t h k = rw cons-append (ground (arith, no_space-append s t))

  no_space-snoc :
      (s : String) (c : Char)
      → no_space s ≡ true
      → space c ≡ false
      → no_space (s ^^ (c ∷ [])) ≡ true
  unfolding all_chars
  no_space-snoc s c h k = no_space-append s (c ∷ []) h (ground arith)

  words_from-no_space :
      (s current : String)
      → no_space current ≡ true
      → All (λ (w : String). no_space w ≡ true) (words_from space current s)
  unfolding words_from all_chars
  words_from-no_space [] current h = ground arith
  words_from-no_space (c ∷ s) current h = ground (
    arith,
    words_from-no_space s "" refl,
    λ (k : space c ≡ false).
        words_from-no_space s (current ^^ (c ∷ [])) (no_space-snoc current c h k),
    h,
  )

  module _ (max_chars : ℕ) where
    -- A text within the limit, or without whitespace.
    abbrev pub Fits : String → Type 0
    Fits s = (len s ≤ max_chars) ⊎ (no_space s ≡ true)

    Fits-trim : (s : String) → Fits s → Fits (trim space s)
    unfolding trim
    Fits-trim s (inl h) =
        inl (omega (arith, h, len-trim_start s, len-trim_end (trim_start space s)))
    Fits-trim s (inr h) = inr (no_space-trim_end (trim_start space s) (no_space-trim_start s h))

    abbrev AllFit : Chunking → Type 0
    AllFit st = All Fits st.chunks × Fits st.current

    All-push_chunk :
        (part : String) (chunks : List String)
        → Fits part
        → All Fits chunks
        → All Fits (push_chunk space max_chars part chunks)
    All-push_chunk part chunks h hs = All-append Fits chunks _ hs (Fits-trim part h, tt)

    empty-Fits : Fits ""
    unfolding all_chars
    empty-Fits = inr refl

    save-AllFit : (st : Chunking) → AllFit st → AllFit (save space max_chars st)
    save-AllFit st (hs, h) = (All-push_chunk st.current st.chunks h hs, empty-Fits)

    joined-Fits :
        (a sep b : String) → len sep ≡ 1 → len a + len b + 1 ≤ max_chars → Fits (a ^^ sep ^^ b)
    joined-Fits a sep b one h =
        inl (omega (arith, len-append a (sep ^^ b), len-append sep b, one, h))

    add_word-AllFit :
        (word : String) (st : Chunking)
        → no_space word ≡ true
        → AllFit st
        → AllFit (add_word space max_chars word st)
    unfolding add_word
    add_word-AllFit word st w (hs, h) =
        ground
          (arith, All-push_chunk st.current st.chunks h hs, joined-Fits st.current " " word refl)

    add_words-AllFit :
        (words : List String) (st : Chunking)
        → All (λ (w : String). no_space w ≡ true) words
        → AllFit st
        → AllFit (add_words space max_chars words st)
    unfolding add_words
    add_words-AllFit Base.[] st w h = h
    add_words-AllFit (Base.◌∷◌ word words) st (w, ws) h =
        add_words-AllFit words (add_word space max_chars word st) ws (add_word-AllFit word st w h)

    saved-AllFit :
        (b : Bool) (st : Chunking) → AllFit st → AllFit (if b then save space max_chars st else st)
    saved-AllFit true st h = save-AllFit st h
    saved-AllFit false st h = h

    cleared-AllFit :
        (b : Bool) (st : Chunking) → AllFit st → AllFit (if b then st else save space max_chars st)
    cleared-AllFit true st h = h
    cleared-AllFit false st h = save-AllFit st h

    -- Whether a line goes to a new chunk.
    abbrev overflows : String → Chunking → Bool
    overflows line st = not (st.current == "") && ltb max_chars (len st.current + len line + 1)

    abbrev saved_for : String → Chunking → Chunking
    saved_for line st = if overflows line st then save space max_chars st else st

    -- Behind it, the line has room.
    saved_for-room :
        (line : String) (st : Chunking)
        → (saved_for line st).current ≢ ""
        → len (saved_for line st).current + len line + 1 ≤ max_chars
    saved_for-room line st h = ground (arith, eq_iff st.current "")

    longer-Fits :
        (line : String) (st : Chunking)
        → len line ≤ max_chars
        → let saved = saved_for line st in
          Fits (if saved.current == "" then line else saved.current ^^ "\n" ^^ line)
    longer-Fits line st h =
        let saved = saved_for line st in
        elim (Bool-cases (saved.current == "")) [
          | inl e ↦ rw e (inl h)
          | inr e ↦ rw e (
              joined-Fits saved.current "\n" line refl
                (saved_for-room line st (ground (arith, e, eq_iff saved.current ""))))
        ]

    add_line-AllFit :
        (line : String) (st : Chunking) → AllFit st → AllFit (add_line space max_chars line st)
    unfolding add_line all_chars
    add_line-AllFit line st h =
        let saved = saved_for line st in
        let sound : AllFit saved = saved-AllFit (overflows line st) st h in
        elim (Bool-cases (ltb max_chars (len line))) [
          | inl e ↦ rw e (
              add_words-AllFit (words_from space "" line) _ (words_from-no_space line "" refl)
                (cleared-AllFit (saved.current == "") saved sound))
          | inr e ↦ rw e (sound.0, longer-Fits line st (ground (arith, e)))
        ]

    add_lines-AllFit :
        (ls : List String) (st : Chunking) → AllFit st → AllFit (add_lines space max_chars ls st)
    unfolding add_lines
    add_lines-AllFit Base.[] st h = h
    add_lines-AllFit (Base.◌∷◌ line ls) st h =
        add_lines-AllFit ls (add_line space max_chars line st) (add_line-AllFit line st h)

    -- Every chunk of a text has at most `max_chars` bytes or holds no whitespace.
    pub chunk_message-Fits : (s : String) → All Fits (chunk_message space max_chars s)
    unfolding chunk_message
    chunk_message-Fits s =
        let st = add_lines space max_chars (lines s) (record { chunks = Base.[]; current = "" }) in
        let (hs, h) =
          add_lines-AllFit (lines s) (record { chunks = Base.[]; current = "" }) (tt, empty-Fits) in
        elim (Bool-cases (leb (len s) max_chars)) [
          | inl e ↦ rw e (inl (leb→le (len s) max_chars e), tt)
          | inr e ↦ rw e (elim (Bool-cases (st.current == "")) [
            | inl k ↦ rw k hs
            | inr k ↦ rw k (All-push_chunk st.current st.chunks h hs)
          ])
        ]
