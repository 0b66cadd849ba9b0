-- ===== src/Commands/Quotes.antt =====
-- gorp-core/src/commands.rs, parse_args: arguments in quotes.
use Prim.Native.String.{[], ◌∷◌}
use text.Mathlib.TextLemmas.{nil-append, cons-append, append-nil, append_assoc}
use gorp_rs.Base.{
  ℕ, ◌≡◌, ◌≢◌, refl, sym, ap, ◌∙◌, code, Char, String, Bool, true, false, arith, List, Option, none,
  some, ◌==◌, eq_iff, eqb, eqb_iff, if◌then◌else◌, All,
}
use gorp_rs.Base
use gorp_rs.Text.{◌^^◌}
use gorp_rs.Text.Laws.{Avoids}
use gorp_rs.Commands.{push_arg, scan, parse_args}

abbrev quote : String
quote = "\""

abbrev pub quoted : String → String
quoted s = quote ^^ s ^^ quote

-- Each argument in double quotes, with a space between two.
abbrev pub quoted_line : List String → String
quoted_line Base.[] = ""
quoted_line (Base.◌∷◌ x Base.[]) = quoted x
quoted_line (Base.◌∷◌ x (Base.◌∷◌ y args)) = quoted x ^^ " " ^^ quoted_line (Base.◌∷◌ y args)

-- Some text without a double quote.
abbrev pub CanBeQuoted : String → Type 0
CanBeQuoted s = (s ≢ "") × Avoids b'"' s

longer :
    (current : String) (c : Char) (s : String) → (current ^^ (c ∷ [])) ^^ s ≡ current ^^ (c ∷ s)
longer current c s =
    append_assoc current (c ∷ []) s
    ∙ ap (λ t. current ^^ t) (cons-append c [] s ∙ ap (λ t. c ∷ t) (nil-append s))

no_quote : (c : Char) → code c ≢ b'"' → eqb (code c) b'"' ≡ false
no_quote c h = ground arith

scan_inside :
    (current s rest : String)
    → Avoids b'"' s
    → scan (some b'"') current (s ^^ quote ^^ rest) ≡ push_arg (current ^^ s) (scan none [] rest)
unfolding scan
scan_inside current [] rest a = rw (nil-append, cons-append, nil-append, append-nil) refl
scan_inside current (c ∷ s) rest a =
    rw (cons-append, scan, no_quote c a.0)
      (scan_inside (current ^^ (c ∷ [])) s rest a.1
        ∙ ap (λ t. push_arg t (scan none [] rest)) (longer current c s))

push_arg_nonempty : (s : String) (rest : List String) → s ≢ "" → push_arg s rest ≡ Base.◌∷◌ s rest
push_arg_nonempty s rest h = ground (arith, eq_iff s "")

scan-quoted :
    (s rest : String)
    → CanBeQuoted s
    → scan none [] (quoted s ^^ rest) ≡ Base.◌∷◌ s (scan none [] rest)
unfolding scan
scan-quoted s rest (h, a) =
    ap (λ t. scan none [] t)
      (append_assoc quote (s ^^ quote) rest
        ∙ ap (λ t. quote ^^ t) (append_assoc s quote rest)
        ∙ cons-append "\"" [] (s ^^ quote ^^ rest)
        ∙ ap (λ t. "\"" ∷ t) (nil-append (s ^^ quote ^^ rest)))
    ∙ scan_inside [] s rest a
    ∙ rw nil-append (push_arg_nonempty s (scan none [] rest) h)

scan_space : (rest : String) → scan none [] (" " ^^ rest) ≡ scan none [] rest
unfolding scan
scan_space rest = rw (cons-append, nil-append) refl

-- Arguments that are not empty and hold no double quote, each put in double quotes and joined by
-- spaces, are parsed as they were, whatever blanks and single quotes they hold.
pub parse_args-quoted_line :
    (args : List String) → All CanBeQuoted args → parse_args (quoted_line args) ≡ args
unfolding parse_args scan
parse_args-quoted_line Base.[] h = refl
parse_args-quoted_line (Base.◌∷◌ x Base.[]) h =
    ap (λ t. scan none [] t) (sym (append-nil (quoted x))) ∙ scan-quoted x "" h.0
parse_args-quoted_line (Base.◌∷◌ x (Base.◌∷◌ y args)) h =
    scan-quoted x (" " ^^ quoted_line (Base.◌∷◌ y args)) h.0
    ∙ ap (λ r. Base.◌∷◌ x r)
        (scan_space (quoted_line (Base.◌∷◌ y args)) ∙ parse_args-quoted_line (Base.◌∷◌ y args) h.1)
