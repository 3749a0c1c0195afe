-- ===== src/Text.antt =====
-- Go strings, and the functions of the packages `strings`, `path` and `strconv` that the program
-- calls. A text is the list of its code points.
pub mod Laws
use Prim.Native.Char.{code}
use tfbuddy.Prelude.{
  ℕ, zero, suc, ◌+◌, ◌-◌, ◌*◌, ◌/◌, ◌%◌, String, Bool, true, false, ◌&&◌, ◌||◌, Option, none, some,
  List, [], ◌∷◌, ◌++◌, map, reverse, ltb, leb, ◌==◌, if◌then◌else◌, length,
}

abbrev pub Text : Type 0
Text = List ℕ

-- A literal. It is shut, so that a proof does not spell a message out.
unfoldable pub lit : String → Text
lit String.[] = []
lit (String.◌∷◌ c s) = code c ∷ lit s

unfoldable pub text_eq : Text → Text → Bool
text_eq [] [] = true
text_eq (x ∷ s) (y ∷ t) = x == y && text_eq s t
text_eq _ _ = false

unfoldable pub has_prefix : Text → Text → Bool
has_prefix s [] = true
has_prefix [] (y ∷ t) = false
has_prefix (x ∷ s) (y ∷ t) = x == y && has_prefix s t

unfoldable pub has_suffix : Text → Text → Bool
has_suffix [] t = text_eq [] t
has_suffix (x ∷ s) t = text_eq (x ∷ s) t || has_suffix s t

unfoldable pub contains : Text → Text → Bool
contains [] t = has_prefix [] t
contains (x ∷ s) t = has_prefix (x ∷ s) t || contains s t

abbrev pub extend : ℕ → Option (Text × Text) → Option (Text × Text)
extend x none = none
extend x (some (before, after)) = some (x ∷ before, after)

-- The text without its first `n` code points.
unfoldable pub drop : ℕ → Text → Text
drop zero s = s
drop (suc n) [] = []
drop (suc n) (c ∷ s) = drop n s

-- `strings.Index` with the two slices that its callers take: the text before the first occurrence
-- of `sep` and the text behind it.
unfoldable pub cut : Text → Text → Option (Text × Text)
unfolding drop has_prefix
cut [] sep = if has_prefix [] sep then some ([], []) else none
cut (x ∷ s) sep =
    let later = extend x (cut s sep) in
    if has_prefix (x ∷ s) sep then some ([], drop (length sep) (x ∷ s)) else later

-- `unicode.ToLower` on ASCII.
unfoldable pub lower : ℕ → ℕ
lower c = if leb b'A' c && leb c b'Z' then c + 32 else c

unfoldable pub to_lower : Text → Text
to_lower s = map lower s

-- `unicode.IsSpace`
unfoldable pub is_space : ℕ → Bool
is_space c =
    (leb 9 c && leb c 13)
    || c == 32
    || c == 0x85
    || c == 0xA0
    || c == 0x1680
    || (leb 0x2000 c && leb c 0x200a)
    || c == 0x2028
    || c == 0x2029
    || c == 0x202f
    || c == 0x205f
    || c == 0x3000

unfoldable pub trim_left : Text → Text
trim_left [] = []
trim_left (c ∷ s) = if is_space c then trim_left s else c ∷ s

unfoldable pub trim_space : Text → Text
unfolding trim_left
trim_space s = reverse (trim_left (reverse (trim_left s)))

-- One more word in front, unless it is empty. The word stands in reverse.
push_word : Text → List Text → List Text
push_word [] rest = rest
push_word (c ∷ w) rest = reverse (c ∷ w) ∷ rest

-- `strings.Fields`, with the word that is being read.
fields_from : Text → Text → List Text
unfolding push_word
fields_from word [] = push_word word []
fields_from word (c ∷ s) = elim (is_space c) [
  | true ↦ push_word word (fields_from [] s)
  | false ↦ fields_from (c ∷ word) s
]

unfoldable pub fields : Text → List Text
unfolding fields_from
fields s = fields_from [] s

unfoldable pub is_digit : ℕ → Bool
is_digit c = leb b'0' c && leb c b'9'

-- `strings.Join`
unfoldable pub join : Text → List Text → Text
join sep [] = []
join sep (s ∷ []) = s
join sep (s ∷ t ∷ rest) = s ++ sep ++ join sep (t ∷ rest)

-- `strings.Split` at one code point. The first part is read apart from the others.
abbrev pub part_cons : ℕ → List Text → List Text
part_cons c [] = (c ∷ []) ∷ []
part_cons c (p ∷ ps) = (c ∷ p) ∷ ps

unfoldable pub split : ℕ → Text → List Text
split sep [] = [] ∷ []
split sep (c ∷ s) = let rest = split sep s in if c == sep then [] ∷ rest else part_cons c rest

-- The decimal digits of `n`, by fuel: `strconv.Itoa`, and `%d` of a number that is not negative.
digits_of : ℕ → ℕ → Text
digits_of zero n = []
digits_of (suc f) n =
    let rest = digits_of f (n / 10) in (if ltb n 10 then [] else rest) ++ (48 + n % 10) ∷ []

unfoldable pub itoa : ℕ → Text
unfolding digits_of
itoa n = digits_of (suc n) n

-- The value of a text of digits.
unfoldable pub value_from : ℕ → Text → ℕ
value_from acc [] = acc
value_from acc (c ∷ s) = value_from (acc * 10 + (c - 48)) s

all_digits : Text → Bool
unfolding is_digit
all_digits [] = true
all_digits (c ∷ s) = is_digit c && all_digits s

-- `strconv.Atoi` of a text without a sign; `none` stands for its error. The limit is that of a
-- 64-bit `int`.
unfoldable pub atoi : Text → Option ℕ
unfolding value_from all_digits
atoi [] = none
atoi (c ∷ s) =
    if all_digits (c ∷ s) && ltb (value_from 0 (c ∷ s)) 9223372036854775808
    then some (value_from 0 (c ∷ s))
    else none
