-- ===== src/Webserver/Escape.antt =====
-- webserver/nginx.go: texts of an app's manifest inside the quoted strings of the configuration, and
-- how the web server reads such a string.
use Prim.Native.Char.{Char, code}
use text.Mathlib.TextLemmas.{cons-append, nil-append}
use text.Mathlib.TextEquality.{Char-path}
use statiko.Base.{
  String, ◌<>◌, nat_eq, true, false, ◌≡◌, refl, sym, ap, ◌∙◌, Option, none, some, List, [], ◌∷◌,
  arith, if◌then◌else◌,
}

abbrev quote_char : Char
quote_char = "\""

abbrev slash_char : Char
slash_char = "\\"

abbrev dollar_char : Char
dollar_char = "$"

pub data Kind : Type 0 where
  quote : Kind
  slash : Kind
  money : Kind
  other : Kind

unfoldable pub kind_of : Char → Kind
kind_of c =
    if nat_eq (code c) b'"'
    then quote
    else if nat_eq (code c) b'\\'
    then slash
    else if nat_eq (code c) b'$'
    then money
    else other

-- The name that follows the dollar sign.
abbrev variable_name : List Char
variable_name = "{" ∷ "d" ∷ "o" ∷ "l" ∷ "l" ∷ "a" ∷ "r" ∷ "}" ∷ []

unfoldable pub prefixed : List Char → String → String
prefixed [] t = t
prefixed (c ∷ l) t = String.◌∷◌ c (prefixed l t)

-- The text that `escapeConfigString` adds for one character.
abbrev escape_as : Kind → Char → String → String
escape_as quote c t = String.◌∷◌ slash_char (String.◌∷◌ c t)
escape_as slash c t = String.◌∷◌ slash_char (String.◌∷◌ c t)
escape_as money c t = String.◌∷◌ c (prefixed variable_name t)
escape_as other c t = String.◌∷◌ c t

unfoldable pub escape_char : Char → String → String
escape_char c t = escape_as (kind_of c) c t

-- `escapeConfigString`
unfoldable pub escape_config_string : String → String
escape_config_string String.[] = ""
escape_config_string (String.◌∷◌ c s) = escape_char c (escape_config_string s)

-- Where the reader of a quoted string is: after a backslash, or in the name of a variable.
pub data Mode : Type 0 where
  plain : Mode
  escaped : Mode
  variable : Char → List Char → Mode

abbrev keep : Char → Option (String × String) → Option (String × String)
keep c none = none
keep c (some (s, t)) = some (String.◌∷◌ c s, t)

-- The value of a quoted string, read from after the opening quotation mark, and the text after the
-- closing one. The only variable is `$dollar`, which holds a dollar sign.
unfoldable pub read_quoted : Mode → String → Option (String × String)
read_quoted m String.[] = none
read_quoted plain (String.◌∷◌ c s) = elim (kind_of c) [
  | quote ↦ some ("", s)
  | slash ↦ read_quoted escaped s
  | money ↦ read_quoted (variable "{" ("d" ∷ "o" ∷ "l" ∷ "l" ∷ "a" ∷ "r" ∷ "}" ∷ [])) s
  | other ↦ keep c (read_quoted plain s)
]
read_quoted escaped (String.◌∷◌ c s) = elim (kind_of c) [
  | quote ↦ keep c (read_quoted plain s)
  | slash ↦ keep c (read_quoted plain s)
  | money ↦ none
  | other ↦ none
]
read_quoted (variable x l) (String.◌∷◌ c s) = elim (nat_eq (code c) (code x)) [
  | false ↦ none
  | true ↦ elim l [ [] ↦ keep "$" (read_quoted plain s) | y ∷ k ↦ read_quoted (variable y k) s ]
]

prefixed-append : (l : List Char) (t q : String) → (prefixed l t <> q) ≡ prefixed l (t <> q)
unfolding prefixed
prefixed-append [] t q = refl
prefixed-append (c ∷ l) t q =
    cons-append c (prefixed l t) q ∙ ap (λ x. String.◌∷◌ c x) (prefixed-append l t q)

escape_as-append :
    (k : Kind) (c : Char) (t q : String) → (escape_as k c t <> q) ≡ escape_as k c (t <> q)
escape_as-append quote c t q =
    cons-append slash_char (String.◌∷◌ c t) q
    ∙ ap (λ x. String.◌∷◌ slash_char x) (cons-append c t q)
escape_as-append slash c t q =
    cons-append slash_char (String.◌∷◌ c t) q
    ∙ ap (λ x. String.◌∷◌ slash_char x) (cons-append c t q)
escape_as-append money c t q =
    cons-append c (prefixed variable_name t) q
    ∙ ap (λ x. String.◌∷◌ c x) (prefixed-append variable_name t q)
escape_as-append other c t q = cons-append c t q

money_lem : (c : Char) → kind_of c ≡ money → c ≡ dollar_char
unfolding kind_of
money_lem c e = Char-path c dollar_char (ground (arith, e))

read_char :
    (c : Char) (t : String) → read_quoted plain (escape_char c t) ≡ keep c (read_quoted plain t)
unfolding escape_char read_quoted prefixed kind_of
read_char c t = choose (kind_of c) refl
  where
    choose :
        (k : Kind)
        → kind_of c ≡ k
        → read_quoted plain (escape_as k c t) ≡ keep c (read_quoted plain t)
    choose quote e = rw (read_quoted, e) refl
    choose slash e = rw (read_quoted, e) refl
    choose money e =
        rw (read_quoted, e) (ap (λ x. keep x (read_quoted plain t)) (sym (money_lem c e)))
    choose other e = rw (read_quoted, e) refl

-- Whatever the text is, the web server reads the quoted string made of the escaped text as the text
-- itself, and goes on after the closing quotation mark: no text can end the string early.
pub read_quoted-escape_config_string :
    (s rest : String)
    → read_quoted plain (escape_config_string s <> String.◌∷◌ "\"" rest) ≡ some (s, rest)
unfolding escape_config_string escape_char read_quoted kind_of
read_quoted-escape_config_string String.[] =
    λ rest. rw (nil-append (String.◌∷◌ quote_char rest)) refl
read_quoted-escape_config_string (String.◌∷◌ c s) = λ rest.
    ap (read_quoted plain)
      (escape_as-append (kind_of c) c (escape_config_string s) (String.◌∷◌ "\"" rest))
    ∙ read_char c (escape_config_string s <> String.◌∷◌ "\"" rest)
    ∙ ap (keep c) (read_quoted-escape_config_string s rest)
