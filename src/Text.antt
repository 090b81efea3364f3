-- ===== src/Text.antt =====
-- What the program uses of the C library's text functions. A C string is the list of its bytes, up
-- to the NUL and without it; the locale is "C".
pub mod Decimal
pub mod Trim
use Prim.Native.Char.{code}
use Prim.Native.String.{String}
use shiori.Base.{
  ℕ, zero, suc, ◌+◌, ◌-◌, ◌*◌, ◌/◌, ◌%◌, ◌^◌, Bool, true, false, Option, none, some, List, [], ◌∷◌,
  ◌++◌, take, ltb, leb, ◌==◌, ◌&&◌, ◌||◌, if◌then◌else◌,
}
use shiori.Base.Int.{ℤ, pos, negsuc, sub_ℕ}

-- The bytes of a literal of the source.
abbrev pub bytes : String → List ℕ
bytes String.[] = []
bytes (String.◌∷◌ c s) = code c ∷ bytes s

-- `isspace`: space, \t, \n, \v, \f and \r
abbrev pub is_space : ℕ → Bool
is_space c = c == 32 || (leb 9 c && leb c 13)

abbrev pub is_digit : ℕ → Bool
is_digit c = leb b'0' c && leb c b'9'

-- The C string in a block of bytes.
unfoldable pub c_string : List ℕ → List ℕ
c_string [] = []
c_string (c ∷ cs) = if c == 0 then [] else c ∷ c_string cs

-- `snprintf(dest, size, "%s", src)` with a positive size: what `dest` holds afterwards.
abbrev pub copy_string : ℕ → List ℕ → List ℕ
copy_string size src = take (size - 1) src

-- `strcmp(s, t) == 0`
unfoldable pub str_equal : List ℕ → List ℕ → Bool
str_equal [] [] = true
str_equal [] (d ∷ t) = false
str_equal (c ∷ s) [] = false
str_equal (c ∷ s) (d ∷ t) = c == d && str_equal s t

-- `strchr(s, mark)`: what stands before the first `mark`, and what stands after it.
unfoldable pub split_at : ℕ → List ℕ → Option (List ℕ × List ℕ)
split_at mark [] = none
split_at mark (c ∷ s) =
    if c == mark
    then some ([], s)
    else elim (split_at mark s) [ none ↦ none | some (before, after) ↦ some (c ∷ before, after) ]

-- `fgets` with room for `room` bytes: the bytes read, up to and with a newline, and what is left.
unfoldable pub fgets : ℕ → List ℕ → List ℕ × List ℕ
fgets zero file = ([], file)
fgets (suc room) [] = ([], [])
fgets (suc room) (c ∷ file) =
    let (line, rest) = fgets room file in if c == b'\n' then (c ∷ [], file) else (c ∷ line, rest)

-- The two loops of a trim.
unfoldable pub skip_space : List ℕ → List ℕ
skip_space [] = []
skip_space (c ∷ s) = if is_space c then skip_space s else c ∷ s

unfoldable pub trim_end : List ℕ → List ℕ
trim_end [] = []
trim_end (c ∷ s) = elim (trim_end s) [
  | [] ↦ if is_space c then [] else c ∷ []
  | (d ∷ t) ↦ c ∷ d ∷ t
]

-- The decimal digits of a number, the last one first in the making: `fuel` bounds their number.
unfoldable pub print_nat : ℕ → ℕ → List ℕ
print_nat zero n = []
print_nat (suc fuel) n =
    let front = print_nat fuel (n / 10) in
    if ltb n 10 then (b'0' + n) ∷ [] else front ++ (b'0' + n % 10) ∷ []

-- `%d`
unfoldable pub print_int : ℤ → List ℕ
print_int (pos n) = print_nat (suc n) n
print_int (negsuc n) = b'-' ∷ print_nat (suc (suc n)) (suc n)

unfoldable pub parse_digits : ℕ → List ℕ → ℕ
parse_digits acc [] = acc
parse_digits acc (c ∷ s) =
    let rest = parse_digits (acc * 10 + (c - b'0')) s in if is_digit c then rest else acc

-- `(int) l` of a `long` within its range.
unfoldable pub to_int : ℤ → ℤ
to_int (pos n) =
    if ltb (n % 2 ^ 32) (2 ^ 31) then pos (n % 2 ^ 32) else negsuc (2 ^ 32 - n % 2 ^ 32 - 1)
to_int (negsuc n) =
    if ltb (n % 2 ^ 32) (2 ^ 31) then negsuc (n % 2 ^ 32) else pos (2 ^ 32 - n % 2 ^ 32 - 1)

-- `strtol` stops at the ends of `long`.
unfoldable pub clamp_long : Bool → ℕ → ℤ
clamp_long false n = if ltb n (2 ^ 63) then pos n else pos (2 ^ 63 - 1)
clamp_long true zero = pos 0
clamp_long true (suc n) = if ltb n (2 ^ 63) then negsuc n else negsuc (2 ^ 63 - 1)

unfoldable pub parse_signed : List ℕ → ℤ
parse_signed [] = pos 0
parse_signed (c ∷ s) =
    if c == b'-'
    then clamp_long true (parse_digits 0 s)
    else if c == b'+'
    then clamp_long false (parse_digits 0 s)
    else clamp_long false (parse_digits 0 (c ∷ s))

-- `atoi`, which is `(int) strtol(s, NULL, 10)` in the C library
unfoldable pub atoi : List ℕ → ℤ
atoi s = to_int (parse_signed (skip_space s))
