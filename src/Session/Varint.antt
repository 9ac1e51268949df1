-- ===== src/Session/Varint.antt =====
-- `varint` and the bytes that `read_varint` takes apart.
use native.Mathlib.Omega.{pow_step}
use mediahub_configs.Prelude.{
  ℕ, zero, suc, ◌+◌, ◌*◌, ◌/◌, ◌%◌, ◌^◌, ◌<◌, ◌≡◌, Option, none, some, List, [], ◌∷◌, ◌++◌,
  if◌then◌else◌, ltb, All, arith, ap, Bool-cases, inl, inr, ◌∙◌, ◌==◌,
}

-- `n & 0x7F` is `n % 128` and `n >>= 7` is `n / 128`; a byte below 128 with `| 0x80` is that plus 128.
pub varint_loop : ℕ → ℕ → List ℕ
varint_loop zero n = []
varint_loop (suc fuel) n =
    let rest = varint_loop fuel (n / 128) in
    if n / 128 == 0 then (n % 128) ∷ [] else (n % 128 + 128) ∷ rest

-- Each round divides by 128, so `suc n` rounds are enough.
unfoldable pub varint : ℕ → List ℕ
unfolding varint_loop
varint n = varint_loop (suc n) n

-- What `read_varint` reads of a text that is there as a whole: `n |= (b & 0x7F) << shift`, and `n`
-- is below `2 ^ shift`, so that this adds.
unfoldable pub varint_of : List ℕ → ℕ → ℕ → Option (ℕ × List ℕ)
varint_of [] n shift = none
varint_of (b ∷ bs) n shift =
    let total = n + b % 128 * 2 ^ shift in
    let more = varint_of bs total (shift + 7) in
    if ltb (b % 256) 128 then some (total, bs) else more

distributed : (q r p : ℕ) → r * p + q * (128 * p) ≡ (r + 128 * q) * p
distributed q r p = omega arith

pow_suc : (a b : ℕ) → b ≡ suc a → 2 ^ b ≡ 2 * 2 ^ a
pow_suc a b h = rw h (pow_step 2 a)

pow_7 : (s : ℕ) → 2 ^ (s + 7) ≡ 128 * 2 ^ s
pow_7 s =
    let step : (i : ℕ) → 2 ^ (s + suc i) ≡ 2 * 2 ^ (s + i) =
      λ i. pow_suc (s + i) (s + suc i) (omega arith) in
    let start : 2 ^ (s + 0) ≡ 2 ^ s = ap (λ e. 2 ^ e) (omega arith) in
    omega (arith, start, step 0, step 1, step 2, step 3, step 4, step 5, step 6)

groups : (n p : ℕ) → n % 128 * p + n / 128 * (128 * p) ≡ n * p
groups n p = distributed (n / 128) (n % 128) p ∙ ap (λ m. m * p) (omega arith)

varint_of-varint_loop :
    (fuel n acc shift : ℕ) (rest : List ℕ)
    → n < fuel
    → varint_of (varint_loop fuel n ++ rest) acc shift ≡ some (acc + n * 2 ^ shift, rest)
unfolding varint_loop varint_of
varint_of-varint_loop zero n acc shift rest h = absurd (omega arith)
varint_of-varint_loop (suc fuel) n acc shift rest h = elim (Bool-cases (n / 128 == 0)) [
  | inl e ↦ ground (arith, e, groups n (2 ^ shift))
  | inr e ↦
      let ih =
        varint_of-varint_loop fuel (n / 128) (acc + n % 128 * 2 ^ shift) (shift + 7) rest
          (ground arith) in
      ground (arith, e, ih, pow_7 shift, groups n (2 ^ shift))
]

pub varint_of-varint : (n : ℕ) (rest : List ℕ) → varint_of (varint n ++ rest) 0 0 ≡ some (n, rest)
unfolding varint
varint_of-varint n rest = ground (arith, varint_of-varint_loop (suc n) n 0 0 rest (omega arith))

-- Text that follows is left alone.
pub varint_of-append :
    (bs more : List ℕ) (acc shift n : ℕ) (rest : List ℕ)
    → varint_of bs acc shift ≡ some (n, rest)
    → varint_of (bs ++ more) acc shift ≡ some (n, rest ++ more)
unfolding varint_of
varint_of-append [] more acc shift n rest h = cc
varint_of-append (b ∷ bs) more acc shift n rest h =
    ground (arith, varint_of-append bs more (acc + b % 128 * 2 ^ shift) (shift + 7) n rest)

varint_loop-bytes : (fuel n : ℕ) → All (λ b. b < 256) (varint_loop fuel n)
unfolding varint_loop
varint_loop-bytes zero n = tt
varint_loop-bytes (suc fuel) n = elim (Bool-cases (n / 128 == 0)) [
  | inl e ↦ rw e (omega arith, tt)
  | inr e ↦ rw e (omega arith, varint_loop-bytes fuel (n / 128))
]

pub varint-bytes : (n : ℕ) → All (λ b. b < 256) (varint n)
unfolding varint
varint-bytes n = varint_loop-bytes (suc n) n
