-- ===== src/Golang/Strings.antt =====
-- Go strings as lists of bytes, with the functions of package strings that the program calls.
-- `to_lower` and `trim_space` are exact on ASCII text; bytes from 128 on are left as they are.
use Prim.Native.Char.{code}
use Prim.Native.String.{String}
use hypomux_arch.Prelude.{
  ℕ, zero, suc, ◌/◌, ◌%◌, ◌++◌, ltb, ◌+◌, ◌≡◌, refl, Bool, true, false, ◌&&◌, ◌||◌, List, [], ◌∷◌,
  map, leb, ◌==◌, if◌then◌else◌,
}
use hypomux_arch.Prelude.Int.{ℤ, pos, ltb_ℤ, pos_part, neg_part}
use hypomux_arch.Prelude.Assoc.{Eq, nat_eq, list_eq}

abbrev pub Text : Type 0
Text = List ℕ

instance abbrev pub text_eq : Eq Text
text_eq = list_eq

-- The bytes of an ASCII literal.
abbrev pub bytes : String → Text
bytes String.[] = []
bytes (String.◌∷◌ c s) = code c ∷ bytes s

abbrev pub is_empty : Text → Bool
is_empty [] = true
is_empty (c ∷ s) = false

abbrev pub is_space : ℕ → Bool
is_space c = (leb 9 c && leb c 13) || c == 32

abbrev pub lower_byte : ℕ → ℕ
lower_byte c = if leb b'A' c && leb c b'Z' then c + 32 else c

unfoldable pub to_lower : Text → Text
to_lower = map lower_byte

unfoldable pub trim_left : Text → Text
trim_left [] = []
trim_left (c ∷ s) = if is_space c then trim_left s else c ∷ s

unfoldable pub trim_right : Text → Text
trim_right [] = []
trim_right (c ∷ s) = let rest = trim_right s in if is_space c && is_empty rest then [] else c ∷ rest

unfoldable pub trim_space : Text → Text
unfolding trim_left trim_right
trim_space s = trim_right (trim_left s)

-- strings.TrimSuffix(s, "."): at most one dot.
unfoldable pub trim_dot : Text → Text
trim_dot [] = []
trim_dot (c ∷ s) = if c == b'.' && is_empty s then [] else c ∷ trim_dot s

trims : trim_dot (to_lower (trim_space (bytes " Steam.COM. "))) ≡ bytes "steam.com"
unfolding trim_dot to_lower trim_space
trims = refl

-- strconv.Itoa: the decimal digits of a number, with the rounds left.
abbrev pub digits : ℕ → ℕ → Text
digits zero n = []
digits (suc left) n =
    let rest = digits left (n / 10) in
    if ltb n 10 then (b'0' + n) ∷ [] else rest ++ ((b'0' + n % 10) ∷ [])

abbrev pub decimal : ℕ → Text
decimal n = digits (suc n) n

abbrev pub itoa : ℤ → Text
itoa z = if ltb_ℤ z (pos 0) then b'-' ∷ decimal (neg_part z) else decimal (pos_part z)
