-- ===== src/Text/Laws.antt =====
-- Texts without a character, and the path traversal test.
use Prim.Native.String.{[], ◌∷◌}
use text.Mathlib.TextLemmas.{nil-append, cons-append}
use gorp_rs.Base.{
  ℕ, ◌≡◌, ◌≢◌, refl, code, Char, String, Bool, true, false, arith, ◌∙◌, sym, Bool-cases, inl, inr,
  ◌==◌, eq_iff,
}
use gorp_rs.Text.{all_chars, has_prefix, contains, ◌^^◌, join, ends_with_char, starts_with_char}

abbrev pub Avoids : ℕ → String → Type 0
Avoids k [] = Unit
Avoids k (c ∷ s) = (code c ≢ k) × Avoids k s

pub all_chars-Avoids :
    (p : Char → Bool) (k : ℕ)
    → ((c : Char) → code c ≡ k → p c ≡ false)
    → (s : String) → all_chars p s ≡ true
    → Avoids k s
unfolding all_chars
all_chars-Avoids p k h [] a = tt
all_chars-Avoids p k h (c ∷ s) a =
    ground (arith, λ (e : code c ≡ k). h c e, all_chars-Avoids p k h s)

-- A text with no dot does not hold "..".
pub contains-dots_Avoids : (s : String) → Avoids b'.' s → contains s ".." ≡ false
unfolding contains
contains-dots_Avoids [] a = refl
contains-dots_Avoids (c ∷ s) a = ground (arith, contains-dots_Avoids s a.1)

contains-append_dots :
    (d t : String)
    → has_prefix t "." ≡ false
    → contains t ".." ≡ false
    → contains (d ^^ t) ".." ≡ contains d ".."
unfolding contains
contains-append_dots [] t h k = rw nil-append k
contains-append_dots (c ∷ []) t h k = rw (cons-append, nil-append) (ground arith)
contains-append_dots (c ∷ e ∷ d) t h k =
    let ih = contains-append_dots (e ∷ d) t h k in
    rw cons-append (rw cons-append (ground (arith, rw cons-append at ih)))

slash-append : (s : String) → "/" ^^ s ≡ "/" ∷ s
slash-append s = rw (cons-append, nil-append)

-- Behind a slash, a text with no dot adds no "..".
pub contains-slash :
    (d s : String) → Avoids b'.' s → contains (d ^^ "/" ^^ s) ".." ≡ contains d ".."
unfolding contains
contains-slash d s a = rw slash-append (contains-append_dots d _ refl (contains-dots_Avoids s a))

contains-append_slash :
    (d s : String)
    → Avoids b'.' s
    → ends_with_char d b'/' ≡ true
    → contains (d ^^ s) ".." ≡ contains d ".."
unfolding contains ends_with_char
contains-append_slash [] s a h = cc
contains-append_slash (c ∷ []) s a h =
    rw (cons-append, nil-append) (ground (arith, contains-dots_Avoids s a))
contains-append_slash (c ∷ e ∷ d) s a h =
    let ih = contains-append_slash (e ∷ d) s a h in
    rw cons-append (rw cons-append (ground (arith, rw cons-append at ih)))

starts_with_char-Avoids : (k : ℕ) (s : String) → Avoids k s → starts_with_char s k ≡ false
unfolding starts_with_char
starts_with_char-Avoids k [] a = refl
starts_with_char-Avoids k (c ∷ s) a = ground arith

-- Joining a name with no dot and no slash to a directory adds no "..".
pub contains-join :
    (d s : String) → Avoids b'.' s → Avoids b'/' s → contains (join d s) ".." ≡ contains d ".."
unfolding join
contains-join d s a b = elim (Bool-cases (d == "")) [
  | inl e ↦
      rw (e, (eq_iff d "").0 e, join, starts_with_char-Avoids b'/' s b)
        (contains-dots_Avoids s a ∙ empty)
  | inr e ↦ elim (Bool-cases (ends_with_char d b'/')) [
    | inl f ↦ rw (e, f, join, starts_with_char-Avoids b'/' s b) (contains-append_slash d s a f)
    | inr f ↦ rw (e, f, join, starts_with_char-Avoids b'/' s b) (contains-slash d s a)
  ]
]
  where
    empty : false ≡ contains "" ".."
    empty = sym (contains-dots_Avoids "" tt)
