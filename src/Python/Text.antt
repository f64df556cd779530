-- ===== src/Python/Text.antt =====
-- Texts. `repr` of a float and the Unicode tables behind `str.lower` and `str.strip` are CPython's:
-- they are a parameter.
use Prim.Native.Char.{Char}
use Prim.Native.String.{◌++◌}
use kernl.Prelude.{
  ℕ, zero, suc, ◌+◌, ◌/◌, ◌%◌, ◌^◌, String, Bool, true, false, ◌&&◌, ltb, eqb, if◌then◌else◌, ◌≡◌,
  refl, Option, none, some,
}
use kernl.Python.Numbers.{ℤ, pos, negsuc}

-- What the program takes from the runtime's tables.
pub record Runtime : Type 0 where
  -- `repr` of the double with this bit pattern, the shortest text that reads back as it
  pub float_str : ℕ → String
  -- `float` of a text; `none` is its ValueError
  pub parse_float : String → Option ℕ
  -- `repr` of a text, in its quotes
  pub str_repr : String → String
  -- `str.lower`
  pub lower : String → String
  -- `str.isspace` of one character
  pub is_space : Char → Bool

module _ (rt : Runtime) where
  -- `s.lstrip()`
  lstrip : String → String
  lstrip String.[] = String.[]
  lstrip (String.◌∷◌ c s) = let rest = lstrip s in if rt.is_space c then rest else String.◌∷◌ c s

  -- Nothing but spaces: `not s.strip()`.
  unfoldable pub is_blank : String → Bool
  is_blank String.[] = true
  is_blank (String.◌∷◌ c s) = rt.is_space c && is_blank s

  -- `s.rstrip()`
  rstrip : String → String
  unfolding is_blank
  rstrip String.[] = String.[]
  rstrip (String.◌∷◌ c s) =
      let rest = rstrip s in if rt.is_space c && is_blank s then String.[] else String.◌∷◌ c rest

  -- `s.strip()`
  unfoldable pub strip : String → String
  unfolding lstrip rstrip
  strip s = rstrip (lstrip s)

-- `s[:n]`
unfoldable pub prefix : ℕ → String → String
prefix zero s = String.[]
prefix (suc n) String.[] = String.[]
prefix (suc n) (String.◌∷◌ c s) = String.◌∷◌ c (prefix n s)

digit : ℕ → String
digit d =
    if eqb d 0
    then "0"
    else if eqb d 1
    then "1"
    else if eqb d 2
    then "2"
    else if eqb d 3
    then "3"
    else if eqb d 4
    then "4"
    else if eqb d 5
    then "5"
    else if eqb d 6
    then "6"
    else if eqb d 7
    then "7"
    else if eqb d 8
    then "8"
    else "9"

-- The digits of `n` in front of `tail`, on fuel that is at least `n`.
decimal : ℕ → ℕ → String → String
unfolding digit
decimal zero n tail = digit n ++ tail
decimal (suc f) n tail = elim (ltb n 10) [
  | true ↦ digit n ++ tail
  | false ↦ decimal f (n / 10) (digit (n % 10) ++ tail)
]

-- The decimal text of an integer.
unfoldable pub int_str : ℤ → String
unfolding decimal
int_str (pos n) = decimal n n ""
int_str (negsuc n) = "-" ++ decimal (suc n) (suc n) ""

-- No more digits than `sys.get_int_max_str_digits()`, which is 4300.
unfoldable pub is_printable : ℤ → Bool
is_printable (pos n) = ltb n (10 ^ 4300)
is_printable (negsuc n) = ltb (n + 1) (10 ^ 4300)

-- `str(n)`; `none` is the ValueError of an integer with too many digits.
unfoldable pub str_of_int : ℤ → Option String
unfolding is_printable int_str
str_of_int n = if is_printable n then some (int_str n) else none

unfoldable pub bool_str : Bool → String
bool_str true = "True"
bool_str false = "False"

int_str_example : int_str (negsuc 1023) ≡ "-1024"
unfolding int_str
int_str_example = refl
