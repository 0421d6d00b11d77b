-- ===== src/Strconv/RoundTrip.antt =====
-- Atoi reads back what Itoa has written.
use Prim.Native.Char.{code}
use k8s_drain_surge.Base.{
  ℕ, zero, suc, ◌+◌, ◌*◌, ◌/◌, ◌%◌, ◌<◌, ◌≤◌, String, ◌≡◌, refl, ◌∙◌, ap, some, arith, dec_lt, sym,
}
use k8s_drain_surge.Base.Int.{ℤ, pos, negsuc, half64, InRange}
use k8s_drain_surge.Strconv.{digits, magnitude, atoi, digit, decimal, itoa, positive, negative}

-- One more than the greatest number with `fuel` digits.
abbrev bound : ℕ → ℕ
bound zero = 0
bound (suc zero) = 10
bound (suc (suc fuel)) = 10 * bound (suc fuel)

code-digit : (d : ℕ) → d < 10 → code (digit d) ≡ 48 + d
unfolding digit
code-digit zero h = refl
code-digit (suc zero) h = refl
code-digit (suc (suc zero)) h = refl
code-digit (suc (suc (suc zero))) h = refl
code-digit (suc (suc (suc (suc zero)))) h = refl
code-digit (suc (suc (suc (suc (suc zero))))) h = refl
code-digit (suc (suc (suc (suc (suc (suc zero)))))) h = refl
code-digit (suc (suc (suc (suc (suc (suc (suc zero))))))) h = refl
code-digit (suc (suc (suc (suc (suc (suc (suc (suc zero)))))))) h = refl
code-digit (suc (suc (suc (suc (suc (suc (suc (suc (suc zero))))))))) h = refl
code-digit (suc (suc (suc (suc (suc (suc (suc (suc (suc (suc n)))))))))) h = absurd (omega arith)

digits-digit :
    (m d : ℕ) (s : String) → d < 10 → digits m (String.◌∷◌ (digit d) s) ≡ digits (10 * m + d) s
unfolding digits
digits-digit m d s h = ground (arith, code-digit d h)

digits_first : (d : ℕ) (s : String) → d < 10 → digits 0 (String.◌∷◌ (digit d) s) ≡ digits d s
digits_first d s h = digits-digit 0 d s h ∙ ap (λ k. digits k s) (omega arith)

-- Both branches of `decimal`, with the division kept shut.
decimal-lt :
    (fuel n : ℕ) (acc : String) → n < 10 → decimal (suc fuel) n acc ≡ String.◌∷◌ (digit n) acc
unfolding decimal
decimal-lt fuel n acc h = ground arith

decimal-le :
    (fuel n : ℕ) (acc : String)
    → 10 ≤ n
    → decimal (suc fuel) n acc ≡ decimal fuel (n / 10) (String.◌∷◌ (digit (n % 10)) acc)
unfolding decimal
decimal-le fuel n acc h = ground arith

digits-decimal :
    (fuel n : ℕ) (acc : String) → n < bound fuel → digits 0 (decimal fuel n acc) ≡ digits n acc
digits-decimal zero n acc h = elim h [ ]
digits-decimal (suc zero) n acc h = rw (decimal-lt 0 n acc h) (digits_first n acc h)
digits-decimal (suc (suc fuel)) n acc h = elim (dec_lt n 10) [
  | yes few ↦ rw (decimal-lt (suc fuel) n acc few) (digits_first n acc few)
  | no many ↦ rw (decimal-le (suc fuel) n acc (omega arith)) (
      digits-decimal (suc fuel) (n / 10) (String.◌∷◌ (digit (n % 10)) acc) (omega arith)
      ∙ digits-digit (n / 10) (n % 10) acc (omega arith)
      ∙ ap (λ k. digits k acc) (omega arith))
]

-- The first character of a number in decimal is a digit, never a sign.
decimal-head :
    (fuel n : ℕ) (acc : String)
    → n < bound fuel
    → (d : ℕ) × (rest : String) × (d < 10) × (decimal fuel n acc ≡ String.◌∷◌ (digit d) rest)
decimal-head zero n acc h = elim h [ ]
decimal-head (suc zero) n acc h = (n, acc, h, decimal-lt 0 n acc h)
decimal-head (suc (suc fuel)) n acc h = elim (dec_lt n 10) [
  | yes few ↦ (n, acc, few, decimal-lt (suc fuel) n acc few)
  | no many ↦
      rw (decimal-le (suc fuel) n acc (omega arith))
        (decimal-head (suc fuel) (n / 10) (String.◌∷◌ (digit (n % 10)) acc) (omega arith))
]

magnitude-decimal : (fuel n : ℕ) → n < bound fuel → magnitude (decimal fuel n "") ≡ some n
unfolding magnitude digits
magnitude-decimal fuel n h =
    let (d, rest, small, e) = decimal-head fuel n "" h in
    rw e (ap (λ t. digits 0 t) (sym e) ∙ digits-decimal fuel n "" h)

atoi-digit :
    (d : ℕ) (rest : String)
    → d < 10
    → atoi (String.◌∷◌ (digit d) rest) ≡ positive (magnitude (String.◌∷◌ (digit d) rest))
unfolding atoi
atoi-digit d rest h = ground (arith, code-digit d h)

atoi-minus : (s : String) → atoi (String.◌∷◌ "-" s) ≡ negative (magnitude s)
unfolding atoi
atoi-minus s = refl

atoi-decimal : (fuel n : ℕ) → n < bound fuel → atoi (decimal fuel n "") ≡ positive (some n)
atoi-decimal fuel n h =
    let (d, rest, small, e) = decimal-head fuel n "" h in
    rw e (
      atoi-digit d rest small
      ∙ ap (λ t. positive (magnitude t)) (sym e)
      ∙ ap positive (magnitude-decimal fuel n h))

-- Every 64-bit integer survives being written by Itoa and read by Atoi.
pub atoi-itoa : (z : ℤ) → InRange half64 z → atoi (itoa z) ≡ some z
unfolding itoa
atoi-itoa (pos n) h = atoi-decimal 19 n (omega arith) ∙ ground arith
atoi-itoa (negsuc n) h =
    atoi-minus (decimal 19 (suc n) "")
    ∙ ap negative (magnitude-decimal 19 (suc n) (omega arith))
    ∙ ground arith
