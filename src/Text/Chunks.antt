-- ===== src/Text/Chunks.antt =====
-- gorp-core/src/utils.rs, chunk_message: a long text in chunks. `len` counts bytes.
pub mod Bounds
use Prim.Native.String.{[], ◌∷◌, len}
use gorp_rs.Base.{
  ℕ, ◌+◌, Char, code, String, Bool, not, ◌&&◌, ◌==◌, ltb, leb, eqb, List, ◌++◌, if◌then◌else◌,
}
use gorp_rs.Base
use gorp_rs.Text.{◌^^◌, trim, starts_with_char}

-- A character before the first of some lines.
abbrev cons_line : Char → List String → List String
cons_line c Base.[] = Base.◌∷◌ (c ∷ []) Base.[]
cons_line c (Base.◌∷◌ l ls) = Base.◌∷◌ (c ∷ l) ls

-- `str::lines`: a line ends with "\n" or "\r\n".
unfoldable pub lines : String → List String
unfolding starts_with_char
lines [] = Base.[]
lines (c ∷ s) =
    let rest = lines s in
    if eqb (code c) b'\n'
    then Base.◌∷◌ "" rest
    else if eqb (code c) b'\r' && starts_with_char s b'\n'
    then rest
    else cons_line c rest

-- `str::split_whitespace`, where `current` is the word that has begun.
abbrev pub push_word : String → List String → List String
push_word current rest = if current == "" then rest else Base.◌∷◌ current rest

unfoldable pub words_from : (Char → Bool) → String → String → List String
words_from space current [] = push_word current Base.[]
words_from space current (c ∷ s) =
    let rest = words_from space "" s in
    let longer = words_from space (current ^^ (c ∷ [])) s in
    if space c then push_word current rest else longer

-- `chunks` and `current`.
pub record Chunking : Type 0 where
  pub chunks : List String
  pub current : String

module _ (space : Char → Bool) (max_chars : ℕ) where
  abbrev pub push_chunk : String → List String → List String
  push_chunk part chunks = chunks ++ Base.◌∷◌ (trim space part) Base.[]

  abbrev pub save : Chunking → Chunking
  save st = record { chunks = push_chunk st.current st.chunks; current = "" }

  -- The words of a line that is too long; `current` is `line_part`.
  unfoldable pub add_word : String → Chunking → Chunking
  unfolding trim
  add_word word st =
      if ltb max_chars (len st.current + len word + 1)
      then record {
        chunks = if st.current == "" then st.chunks else push_chunk st.current st.chunks;
        current = word;
      }
      else record st { current = if st.current == "" then word else st.current ^^ " " ^^ word }

  unfoldable pub add_words : List String → Chunking → Chunking
  unfolding add_word
  add_words Base.[] st = st
  add_words (Base.◌∷◌ word words) st = add_words words (add_word word st)

  unfoldable pub add_line : String → Chunking → Chunking
  unfolding trim add_words words_from
  add_line line st =
      let saved =
        if not (st.current == "") && ltb max_chars (len st.current + len line + 1)
        then save st
        else st in
      let cleared = if saved.current == "" then saved else save saved in
      let longer = if saved.current == "" then line else saved.current ^^ "\n" ^^ line in
      if ltb max_chars (len line)
      then add_words (words_from space "" line) cleared
      else record saved { current = longer }

  unfoldable pub add_lines : List String → Chunking → Chunking
  unfolding add_line
  add_lines Base.[] st = st
  add_lines (Base.◌∷◌ line lines) st = add_lines lines (add_line line st)

  unfoldable pub chunk_message : String → List String
  unfolding lines add_lines trim
  chunk_message text =
      let st = add_lines (lines text) (record { chunks = Base.[]; current = "" }) in
      if leb (len text) max_chars
      then Base.◌∷◌ text Base.[]
      else if st.current == ""
      then st.chunks
      else push_chunk st.current st.chunks
