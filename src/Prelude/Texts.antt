-- ===== src/Prelude/Texts.antt =====
-- What the program uses of JavaScript strings, over code points.
use Prim.Native.Char.{Char, code}
use Prim.Native.String.{String, [], ◌∷◌, char_at}
use Prim.Native.Nat.{ℕ, zero, suc, ◌-◌, ◌≤◌}
use mathlib.Core.Path.{◌≡◌, refl, ap, ◌∙◌}
use mathlib.Core.Option.{Option, none, some}
use mathlib.Core.Bool.{Bool, true, false, ◌&&◌, ◌||◌, not}
use native.Mathlib.Omega.{arith}
use fullstack_starter.Prelude.Tests.{ltb, leb, eqb, if◌then◌else◌}

-- a truthy text
abbrev pub is_truthy : String → Bool
is_truthy [] = false
is_truthy (c ∷ s) = true

-- a text that is not falsy
abbrev pub present : Option String → Option String
present none = none
present (some text) = if is_truthy text then some text else none

-- white space and line ends, as `trim` and `\s` read them
unfoldable pub is_space : ℕ → Bool
is_space c =
    (leb 9 c && leb c 13)
    || eqb c 32
    || eqb c 160
    || eqb c 5760
    || (leb 8192 c && leb c 8202)
    || eqb c 8232
    || eqb c 8233
    || eqb c 8239
    || eqb c 8287
    || eqb c 12288
    || eqb c 65279

-- `s.trim() === ''`
unfoldable pub is_blank : String → Bool
unfolding is_space
is_blank [] = true
is_blank (c ∷ s) = is_space (code c) && is_blank s

-- `toLowerCase` on the letters of ASCII; every other character is left as it is
lower_char : Char → Char
lower_char c =
    if leb 65 (code c) && leb (code c) 90
    then char_at "abcdefghijklmnopqrstuvwxyz" (code c - 65)
    else c

unfoldable pub to_lower_case : String → String
unfolding lower_char
to_lower_case [] = []
to_lower_case (c ∷ s) = lower_char c ∷ to_lower_case s

trim_start : String → String
unfolding is_space
trim_start [] = []
trim_start (c ∷ s) = let rest = trim_start s in if is_space (code c) then rest else c ∷ s

-- a space before a rest that is all spaces goes with it
trim_end : String → String
unfolding is_space
trim_end [] = []
trim_end (c ∷ s) =
    let rest = trim_end s in if is_space (code c) && not (is_truthy rest) then rest else c ∷ rest

unfoldable pub trim : String → String
unfolding trim_start trim_end
trim s = trim_end (trim_start s)

-- `s.split('@')[0]`
unfoldable pub local_part : String → String
local_part [] = []
local_part (c ∷ s) = let rest = local_part s in if eqb (code c) b'@' then [] else c ∷ rest

trims : trim "  A b\t" ≡ "A b"
unfolding trim
trims = refl

lowers : to_lower_case "Ab.C@X" ≡ "ab.c@x"
unfolding to_lower_case
lowers = refl

splits : local_part "ana@x.es@y" ≡ "ana"
unfolding local_part
splits = refl

-- a run of `k` backslashes before a text
escaped : ℕ → String → String
escaped zero s = s
escaped (suc k) s = "\\" ∷ escaped k s

-- What a character is to `/\\+n/`, with the backslashes before it counted: one more of them, the `n`
-- that ends a match, or another one.
pub data PemStep : Type 0 where
  backslash match_end other : PemStep

pem_step : ℕ → Char → PemStep
pem_step k c =
    if eqb (code c) 92
    then backslash
    else (if eqb (code c) 110 && ltb 0 k then match_end else other)

pem_from : ℕ → String → String
unfolding pem_step escaped
pem_from k [] = escaped k []
pem_from k (c ∷ s) = elim (pem_step k c) [
  | backslash ↦ pem_from (suc k) s
  | match_end ↦ "\n" ∷ pem_from 0 s
  | other ↦ escaped k (c ∷ pem_from 0 s)
]

-- `pem.replace(/\\+n/g, '\n')`
unfoldable pub normalise_pem : String → String
unfolding pem_from
normalise_pem s = pem_from 0 s

normalises : normalise_pem "a\\nb\\\\nc\\xn" ≡ "a\nb\nc\\xn"
unfolding normalise_pem
normalises = refl

pub present-inv : (x : Option String) (text : String) → present x ≡ some text → x ≡ some text
present-inv none text h = h
present-inv (some []) text h = cc
present-inv (some (c ∷ s)) text h = h

-- `s.startsWith(prefix)`
unfoldable pub starts_with : String → String → Bool
starts_with s [] = true
starts_with [] (d ∷ prefix) = false
starts_with (c ∷ s) (d ∷ prefix) = eqb (code c) (code d) && starts_with s prefix

-- only digits and dots, and the slash between them
unfoldable pub is_dotted : String → Bool
is_dotted [] = true
is_dotted (c ∷ s) = leb 46 (code c) && leb (code c) 57 && is_dotted s

pub is_dotted-rest :
    (c : Char) (s : String)
    → is_dotted (c ∷ s) ≡ true
    → (46 ≤ code c) × (code c ≤ 57) × (is_dotted s ≡ true)
unfolding is_dotted
is_dotted-rest c s h = (ground arith, ground arith, ground arith)

lower_char-dotted : (c : Char) → code c ≤ 57 → lower_char c ≡ c
unfolding lower_char
lower_char-dotted c h = ground arith

pub to_lower_case-dotted : (s : String) → is_dotted s ≡ true → to_lower_case s ≡ s
unfolding to_lower_case
to_lower_case-dotted [] h = refl
to_lower_case-dotted (c ∷ s) h =
    let (low, high, rest) = is_dotted-rest c s h in
    ap (λ d. d ∷ to_lower_case s) (lower_char-dotted c high)
    ∙ ap (λ t. c ∷ t) (to_lower_case-dotted s rest)
