-- ===== src/Prelude/Text.antt =====
-- Texts: appending, and the decimal form of a number (strconv.Itoa, strconv.AppendUint).
use Prim.Native.Nat.{ℕ, zero, suc, ◌+◌, ◌-◌, ◌*◌, ◌/◌, ◌%◌}
use Prim.Native.Char.{Char, code}
use mathlib.Core.Bool.{Bool, true, false, not, ◌&&◌, ◌||◌}
use mathlib.Core.Option.{Option, none, some}
use Prim.Native.String
use Prim.Native.String.{String}
use mathlib.Core.List.{List, [], ◌∷◌, ◌++◌}
use better_firewall.Prelude.Tests.{ltb, leb, nat_eq, ◌==◌, String-eq, if◌then◌else◌}
use better_firewall.Prelude.Lists.{get_or}

infixr 66 ◌<>◌
abbrev pub ◌<>◌ : String → String → String
a <> b = String.◌++◌ a b

abbrev digit_chars : List Char
digit_chars = "0" ∷ "1" ∷ "2" ∷ "3" ∷ "4" ∷ "5" ∷ "6" ∷ "7" ∷ "8" ∷ "9" ∷ []

-- The digits of `n`, put before `acc`; a number has no more digits than itself plus one.
decimal_from : ℕ → ℕ → String → String
decimal_from zero n acc = acc
decimal_from (suc fuel) n acc =
    let longer = String.◌∷◌ (get_or digit_chars (n % 10) "0") acc in
    let rest = decimal_from fuel (n / 10) longer in if ltb n 10 then longer else rest

unfoldable pub decimal : ℕ → String
unfolding decimal_from
decimal n = decimal_from (n + 1) n ""

-- The code points of a text: its bytes, if it is ASCII.
abbrev pub codes : String → List ℕ
codes String.[] = []
codes (String.◌∷◌ c s) = code c ∷ codes s

-- The bytes of a character in UTF-8.
unfoldable pub utf8 : ℕ → List ℕ
utf8 c =
    if ltb c 0x80
    then c ∷ []
    else if ltb c 0x800
    then (0xc0 + c / 64) ∷ (0x80 + c % 64) ∷ []
    else if ltb c 0x10000
    then (0xe0 + c / 4096) ∷ (0x80 + c / 64 % 64) ∷ (0x80 + c % 64) ∷ []
    else (0xf0 + c / 262144) ∷ (0x80 + c / 4096 % 64) ∷ (0x80 + c / 64 % 64) ∷ (0x80 + c % 64) ∷ []

unfoldable pub text_bytes : List ℕ → List ℕ
unfolding utf8
text_bytes [] = []
text_bytes (c ∷ cs) = utf8 c ++ text_bytes cs

-- strings.HasPrefix, for a text of one character.
abbrev pub starts_char : ℕ → String → Bool
starts_char k String.[] = false
starts_char k (String.◌∷◌ c s) = nat_eq (code c) k

-- strings.HasSuffix, for a text of one character.
unfoldable pub ends_char : ℕ → String → Bool
ends_char k String.[] = false
ends_char k (String.◌∷◌ c String.[]) = nat_eq (code c) k
ends_char k (String.◌∷◌ c (String.◌∷◌ d s)) = ends_char k (String.◌∷◌ d s)

-- strings.Count, for a text of one character.
unfoldable pub count_char : ℕ → String → ℕ
count_char k String.[] = 0
count_char k (String.◌∷◌ c s) = (if nat_eq (code c) k then 1 else 0) + count_char k s

abbrev pub cons_head : Char → List String → List String
cons_head c [] = String.◌∷◌ c "" ∷ []
cons_head c (w ∷ ws) = String.◌∷◌ c w ∷ ws

-- strings.Split at a character.
unfoldable pub split_char : ℕ → String → List String
split_char k String.[] = "" ∷ []
split_char k (String.◌∷◌ c s) =
    let rest = split_char k s in if nat_eq (code c) k then "" ∷ rest else cons_head c rest

-- strings.Cut at a character: what stands before it and, if it is there, behind it.
unfoldable pub cut_char : ℕ → String → String × Option String
cut_char k String.[] = ("", none)
cut_char k (String.◌∷◌ c s) =
    let (before, behind) = cut_char k s in
    if nat_eq (code c) k then ("", some s) else (String.◌∷◌ c before, behind)

abbrev pub is_digit : ℕ → Bool
is_digit c = leb b'0' c && leb c b'9'

-- Every character passes a test.
unfoldable pub all_chars : (ℕ → Bool) → String → Bool
all_chars p String.[] = true
all_chars p (String.◌∷◌ c s) = p (code c) && all_chars p s

-- The regular expression `^\d+$`.
abbrev pub is_number : String → Bool
is_number s = not (s == "") && all_chars is_digit s

-- The number that a text of digits stands for, behind the digits read before.
unfoldable pub number_from : ℕ → String → ℕ
number_from n String.[] = n
number_from n (String.◌∷◌ c s) = number_from (n * 10 + (code c - b'0')) s

-- unicode.IsSpace.
unfoldable pub is_space : ℕ → Bool
is_space c =
    leb 9 c && leb c 13
    || nat_eq c 32
    || nat_eq c 0x85
    || nat_eq c 0xa0
    || nat_eq c 0x1680
    || leb 0x2000 c && leb c 0x200a
    || nat_eq c 0x2028
    || nat_eq c 0x2029
    || nat_eq c 0x202f
    || nat_eq c 0x205f
    || nat_eq c 0x3000

-- strings.Fields: the words between white space. `open_word` is whether the first word of the
-- result still grows to the left.
abbrev fields_step : Char → (List String × Bool) → List String × Bool
fields_step c (ws, open_word) =
    if is_space (code c)
    then (ws, false)
    else if open_word
    then (cons_head c ws, true)
    else (String.◌∷◌ c "" ∷ ws, true)

fields_from : String → List String × Bool
fields_from String.[] = ([], false)
fields_from (String.◌∷◌ c s) = fields_step c (fields_from s)

unfoldable pub fields : String → List String
unfolding fields_from is_space
fields s = (fields_from s).0

small_letters : List Char
small_letters =
    "a" ∷ "b" ∷ "c" ∷ "d" ∷ "e" ∷ "f" ∷ "g" ∷ "h" ∷ "i" ∷ "j" ∷ "k" ∷ "l" ∷ "m" ∷ "n" ∷ "o" ∷ "p"
    ∷ "q" ∷ "r" ∷ "s" ∷ "t" ∷ "u" ∷ "v" ∷ "w" ∷ "x" ∷ "y" ∷ "z" ∷ []

lower_char : Char → Char
unfolding small_letters
lower_char c =
    if leb b'A' (code c) && leb (code c) b'Z' then get_or small_letters (code c - b'A') c else c

-- strings.ToLower, on the letters of ASCII.
unfoldable pub to_lower : String → String
unfolding lower_char
to_lower String.[] = ""
to_lower (String.◌∷◌ c s) = String.◌∷◌ (lower_char c) (to_lower s)

-- strings.EqualFold, where one of the texts is ASCII: beside the letters of both cases, the Kelvin
-- sign folds to "k" and the long s to "s".
fold_char : Char → Char
unfolding lower_char
fold_char c =
    if nat_eq (code c) 0x212a then "k" else if nat_eq (code c) 0x17f then "s" else lower_char c

fold_text : String → String
unfolding fold_char
fold_text String.[] = ""
fold_text (String.◌∷◌ c s) = String.◌∷◌ (fold_char c) (fold_text s)

unfoldable pub equal_fold : String → String → Bool
unfolding fold_text
equal_fold a b = fold_text a == fold_text b

-- strings.CutPrefix: what follows a prefix, if the text has it.
unfoldable pub strip_prefix : String → String → Option String
strip_prefix String.[] s = some s
strip_prefix (String.◌∷◌ c pre) String.[] = none
strip_prefix (String.◌∷◌ c pre) (String.◌∷◌ d s) =
    if nat_eq (code c) (code d) then strip_prefix pre s else none
