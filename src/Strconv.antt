-- ===== src/Strconv.antt =====
-- What internal/controller uses of the package strconv: Atoi and Itoa on 64-bit integers.
pub mod RoundTrip
use Prim.Native.Char.{Char, code}
use k8s_drain_surge.Base.{
  ℕ, zero, suc, ◌+◌, ◌-◌, ◌*◌, ◌/◌, ◌%◌, ◌<◌, String, Bool, true, false, ◌&&◌, Option, none, some,
  ltb, leb, eqb, if◌then◌else◌,
}
use k8s_drain_surge.Base.Int.{ℤ, pos, negsuc, half64}

abbrev is_digit : Char → Bool
is_digit ch = leb (code ch) 57 && leb 48 (code ch)

-- The digits of a text read after the number `n`; any other character is an error.
digits : ℕ → String → Option ℕ
digits n String.[] = some n
digits n (String.◌∷◌ ch rest) = if is_digit ch then digits (10 * n + (code ch - 48)) rest else none

-- A magnitude has one digit at least.
magnitude : String → Option ℕ
unfolding digits
magnitude String.[] = none
magnitude (String.◌∷◌ ch rest) = digits 0 (String.◌∷◌ ch rest)

-- The range check of a non-negative and of a negative int64.
abbrev positive : Option ℕ → Option ℤ
positive none = none
positive (some n) = if ltb n half64 then some (pos n) else none

abbrev negate : ℕ → ℤ
negate zero = pos 0
negate (suc n) = negsuc n

abbrev negative : Option ℕ → Option ℤ
negative none = none
negative (some n) = if leb n half64 then some (negate n) else none

-- strconv.Atoi: an optional sign, then decimal digits, within int64; `none` is an error.
unfoldable pub atoi : String → Option ℤ
unfolding magnitude
atoi String.[] = none
atoi (String.◌∷◌ ch rest) =
    if eqb (code ch) 45
    then negative (magnitude rest)
    else if eqb (code ch) 43
    then positive (magnitude rest)
    else positive (magnitude (String.◌∷◌ ch rest))

unfoldable pub digit : ℕ → Char
digit zero = "0"
digit (suc zero) = "1"
digit (suc (suc zero)) = "2"
digit (suc (suc (suc zero))) = "3"
digit (suc (suc (suc (suc zero)))) = "4"
digit (suc (suc (suc (suc (suc zero))))) = "5"
digit (suc (suc (suc (suc (suc (suc zero)))))) = "6"
digit (suc (suc (suc (suc (suc (suc (suc zero))))))) = "7"
digit (suc (suc (suc (suc (suc (suc (suc (suc zero)))))))) = "8"
digit (suc (suc (suc (suc (suc (suc (suc (suc (suc n))))))))) = "9"

-- The decimal digits of `n` in front of `acc`, with one unit of fuel for each digit.
unfoldable pub decimal : ℕ → ℕ → String → String
unfolding digit
decimal zero n acc = acc
decimal (suc fuel) n acc =
    let rest = decimal fuel (n / 10) (String.◌∷◌ (digit (n % 10)) acc) in
    if ltb n 10 then String.◌∷◌ (digit n) acc else rest

-- strconv.Itoa. An int64 has 19 digits at most.
unfoldable pub itoa : ℤ → String
itoa (pos n) = decimal 19 n ""
itoa (negsuc n) = String.◌∷◌ "-" (decimal 19 (suc n) "")
