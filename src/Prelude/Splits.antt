-- ===== src/Prelude/Splits.antt =====
-- Texts in parts: `split`, `indexOf`, and the captures of the program's regular expressions.
use Prim.Native.Char.{Char, code}
use Prim.Native.String.{String, [], ◌∷◌, char_at}
use Prim.Native.Nat.{ℕ, zero, suc, ◌+◌, ◌*◌, ◌-◌}
use mathlib.Core.Path.{◌≡◌, refl, ap, ◌∙◌}
use mathlib.Core.Option.{Option, none, some}
use mathlib.Core.Bool.{Bool, true, false, ◌&&◌, ◌||◌, not}
use mathlib.Core.List.{List, [] as nil, ◌∷◌ as cons}
use text.Mathlib.Text.{◌==◌}
use native.Mathlib.Omega.{arith}
use fullstack_starter.Prelude.Tests.{ltb, leb, eqb, if◌then◌else◌, map_option}
use fullstack_starter.Prelude.Texts.{is_truthy, to_lower_case, is_space, is_dotted, is_dotted-rest}

-- the text before the first of a character and the text after it, `none` where it does not occur
unfoldable pub break_at : ℕ → String → Option (String × String)
break_at k [] = none
break_at k (c ∷ s) =
    let rest = break_at k s in
    if eqb (code c) k then some ([], s) else map_option (λ p. (c ∷ p.0, p.1)) rest

abbrev onto_first : Char → List String → List String
onto_first c nil = cons (c ∷ []) nil
onto_first c (cons s ss) = cons (c ∷ s) ss

-- `s.split(k)` for one character
unfoldable pub split_on : ℕ → String → List String
split_on k [] = cons [] nil
split_on k (c ∷ s) =
    let rest = split_on k s in if eqb (code c) k then cons [] rest else onto_first c rest

splits_on : split_on b';' "a;;bc" ≡ cons "a" (cons "" (cons "bc" nil))
unfolding split_on
splits_on = refl

-- `s.split(/\s/).join('')`, or `s.replace(/\s/g, '')`
unfoldable pub remove_spaces : String → String
remove_spaces [] = []
remove_spaces (c ∷ s) = let rest = remove_spaces s in if is_space (code c) then rest else c ∷ rest

-- the text after a prefix
unfoldable pub strip_prefix : String → String → Option String
strip_prefix [] s = some s
strip_prefix (d ∷ prefix) [] = none
strip_prefix (d ∷ prefix) (c ∷ s) =
    let rest = strip_prefix prefix s in if eqb (code c) (code d) then rest else none

-- the text before a suffix
unfoldable pub strip_suffix : String → String → Option String
strip_suffix suffix [] = if is_truthy suffix then none else some []
strip_suffix suffix (c ∷ s) =
    let rest = strip_suffix suffix s in
    if (c ∷ s) == suffix then some [] else map_option (λ before. c ∷ before) rest

drop_closing : String → String
drop_closing [] = []
drop_closing (c ∷ s) =
    let rest = drop_closing s in if eqb (code c) b']' && not (is_truthy s) then [] else c ∷ rest

drop_opening : String → String
drop_opening [] = []
drop_opening (c ∷ s) = if eqb (code c) b'[' then s else c ∷ s

-- `s.replace(/^\[|\]$/g, '')`
unfoldable pub strip_brackets : String → String
unfolding drop_opening drop_closing
strip_brackets s = drop_closing (drop_opening s)

strips : strip_brackets "[::1]" ≡ "::1"
unfolding strip_brackets
strips = refl

is_digit : ℕ → Bool
is_digit c = leb 48 c && leb c 57

-- `Number(s)` for `^\d{1,3}$`, with the number of digits and the value so far
digits : ℕ → ℕ → String → Option ℕ
unfolding is_digit
digits n value [] = if ltb 0 n then some value else none
digits n value (c ∷ s) =
    let rest = digits (suc n) (value * 10 + (code c - 48)) s in
    if is_digit (code c) && ltb n 3 then rest else none

unfoldable pub octet : String → Option ℕ
unfolding digits
octet s = digits 0 0 s

reads_octet : octet "254" ≡ some 254
unfolding octet digits
reads_octet = refl

-- no line end, which the `.` of a regular expression does not read
unfoldable pub is_one_line : String → Bool
is_one_line [] = true
is_one_line (c ∷ s) =
    not (eqb (code c) 10 || eqb (code c) 13 || eqb (code c) 8232 || eqb (code c) 8233)
    && is_one_line s

-- the capture of `^<prefix>(.+)<suffix>$`
unfoldable pub captured : String → String → String → Option String
unfolding strip_prefix strip_suffix is_one_line
captured prefix suffix key = elim (strip_prefix prefix key) [
  | none ↦ none
  | some rest ↦ elim (strip_suffix suffix rest) [
    | none ↦ none
    | some name ↦ if is_truthy name && is_one_line name then some name else none
  ]
]

upper_char : Char → Char
upper_char c =
    if leb 97 (code c) && leb (code c) 122
    then char_at "ABCDEFGHIJKLMNOPQRSTUVWXYZ" (code c - 97)
    else c

-- `name.charAt(0).toUpperCase() + name.slice(1).toLowerCase()`, on the letters of ASCII
unfoldable pub title_case : String → String
unfolding upper_char to_lower_case
title_case [] = []
title_case (c ∷ s) = upper_char c ∷ to_lower_case s

unfoldable pub to_upper_case : String → String
unfolding upper_char
to_upper_case [] = []
to_upper_case (c ∷ s) = upper_char c ∷ to_upper_case s

-- what a character is to `/\\n/`
pub data Escape : Type 0 where
  backslash letter_n other : Escape

escape : Char → Escape
escape c = if eqb (code c) b'\\' then backslash else (if eqb (code c) b'n' then letter_n else other)

-- whether a backslash waits for what follows it
unescape : Bool → String → String
unfolding escape
unescape false [] = []
unescape true [] = "\\"
unescape false (c ∷ s) = elim (escape c) [
  | backslash ↦ unescape true s
  | letter_n ↦ c ∷ unescape false s
  | other ↦ c ∷ unescape false s
]
unescape true (c ∷ s) = elim (escape c) [
  | backslash ↦ "\\" ∷ unescape true s
  | letter_n ↦ "\n" ∷ unescape false s
  | other ↦ "\\" ∷ c ∷ unescape false s
]

-- `s.replace(/\\n/g, '\n')`
unfoldable pub unescape_newlines : String → String
unfolding unescape
unescape_newlines s = unescape false s

-- a line end after every 64 characters that others follow; `k` more belong to this line
wrap : ℕ → String → String
wrap k [] = []
wrap zero (c ∷ s) = "\n" ∷ c ∷ wrap 63 s
wrap (suc k) (c ∷ s) = c ∷ wrap k s

-- `s.match(/.{1,64}/g)?.join('\n') ?? s`, for a text without line ends
unfoldable pub wrap_64 : String → String
unfolding wrap
wrap_64 s = wrap 64 s

unescapes : unescape_newlines "a\\nb\\\\n\\" ≡ "a\nb\\\n\\"
unfolding unescape_newlines
unescapes = refl

-- `s.replace(/^@/, '')`
unfoldable pub drop_at : String → String
drop_at [] = []
drop_at (c ∷ s) = if eqb (code c) b'@' then s else c ∷ s

-- `s.replace(/\/$/, '')`
unfoldable pub drop_slash : String → String
drop_slash [] = []
drop_slash (c ∷ s) =
    let rest = drop_slash s in if eqb (code c) b'/' && not (is_truthy s) then [] else c ∷ rest

-- `s.length`, in code points
unfoldable pub text_length : String → ℕ
text_length [] = 0
text_length (c ∷ s) = suc (text_length s)

-- some character passes the test
unfoldable pub has_any_char : (ℕ → Bool) → String → Bool
has_any_char test [] = false
has_any_char test (c ∷ s) = test (code c) || has_any_char test s

-- a dot that a character follows
dot_before_last : String → Bool
dot_before_last [] = false
dot_before_last (c ∷ s) = (eqb (code c) b'.' && is_truthy s) || dot_before_last s

-- a dot that is neither the first nor the last character
unfoldable pub has_inner_dot : String → Bool
unfolding dot_before_last
has_inner_dot [] = false
has_inner_dot (c ∷ s) = dot_before_last s

after_last_from : ℕ → String → String → String
after_last_from k part [] = part
after_last_from k part (c ∷ s) = after_last_from k (if eqb (code c) k then s else part) s

-- `s.slice(s.lastIndexOf(k) + 1)`
unfoldable pub after_last : ℕ → String → String
unfolding after_last_from
after_last k s = after_last_from k s s

ends : after_last b'@' "a@b@c.es" ≡ "c.es"
unfolding after_last
ends = refl

drop_closing-dotted : (s : String) → is_dotted s ≡ true → drop_closing s ≡ s
unfolding drop_closing
drop_closing-dotted [] h = refl
drop_closing-dotted (c ∷ s) h =
    let (low, high, rest) = is_dotted-rest c s h in
    ground (arith, low, high, drop_closing-dotted s rest)

drop_opening-dotted : (s : String) → is_dotted s ≡ true → drop_opening s ≡ s
unfolding drop_opening
drop_opening-dotted [] h = refl
drop_opening-dotted (c ∷ s) h =
    let (low, high, rest) = is_dotted-rest c s h in ground (arith, low, high)

pub strip_brackets-dotted : (s : String) → is_dotted s ≡ true → strip_brackets s ≡ s
unfolding strip_brackets
strip_brackets-dotted s h = ap drop_closing (drop_opening-dotted s h) ∙ drop_closing-dotted s h
