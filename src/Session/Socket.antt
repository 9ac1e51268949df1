-- ===== src/Session/Socket.antt =====
-- What is read off a connection. Its peer sends segments, and then closes it or lets it time out;
-- `recv` returns the rest of one segment at most, so that each reader is compared with what it
-- would take off the text as a whole.
use mediahub_configs.Prelude.{
  ℕ, zero, suc, ◌+◌, ◌*◌, ◌%◌, ◌^◌, ◌-◌, ◌<◌, ◌≤◌, ◌≡◌, refl, Option, none, some, List, [], ◌∷◌,
  ◌++◌, ◌⊎◌, true, if◌then◌else◌, ltb, length, take, drop, concat, arith, ap, Bool-cases, inl, inr,
  ◌∙◌, sym, length-append, take-append-drop,
}
use mathlib.Core.List.{append-nil, append_assoc}
use mediahub_configs.Session.Varint.{varint_of}

-- `sock.recv(k)` with k ≥ 1: nothing at the end.
unfoldable pub recv : ℕ → List (List ℕ) → List ℕ × List (List ℕ)
recv k [] = ([], [])
recv k ([] ∷ segments) = recv k segments
recv k ((b ∷ bs) ∷ segments) = (take k (b ∷ bs), drop k (b ∷ bs) ∷ segments)

-- A reader's result with what is left as one text.
abbrev pub flat : {A : Type 0} → Option (A × List (List ℕ)) → Option (A × List ℕ)
flat none = none
flat (some (a, sock)) = some (a, concat sock)

-- One round takes a byte at least.
pub read_varint_loop : ℕ → List (List ℕ) → ℕ → ℕ → Option (ℕ × List (List ℕ))
read_varint_loop zero sock n shift = none
read_varint_loop (suc fuel) sock n shift =
    let (chunk, rest) = recv 1 sock in
    elim chunk [
      | [] ↦ none
      | b ∷ _ ↦
          let total = n + b % 128 * 2 ^ shift in
          let more = read_varint_loop fuel rest total (shift + 7) in
          if ltb (b % 256) 128 then some (total, rest) else more
    ]

unfoldable pub read_varint : List (List ℕ) → Option (ℕ × List (List ℕ))
unfolding read_varint_loop
read_varint sock = read_varint_loop (suc (length (concat sock))) sock 0 0

-- `while len(data) < n`
pub read_data_loop : ℕ → ℕ → List ℕ → List (List ℕ) → Option (List ℕ × List (List ℕ))
read_data_loop zero n got sock = some (got, sock)
read_data_loop (suc fuel) n got sock =
    if ltb (length got) n
    then (let (chunk, rest) = recv (n - length got) sock in
        elim chunk [ [] ↦ none | b ∷ bs ↦ read_data_loop fuel n (got ++ b ∷ bs) rest ])
    else some (got, sock)

-- Each round adds a byte at least, so `n` rounds are enough.
unfoldable pub read_data : ℕ → List (List ℕ) → Option (List ℕ × List (List ℕ))
unfolding read_data_loop
read_data n sock = read_data_loop n n [] sock

recv-one :
    (sock : List (List ℕ))
    → ((recv 1 sock).0 ≡ [] × concat sock ≡ [])
      ⊎ ((b : ℕ) × ((recv 1 sock).0 ≡ b ∷ []) × (concat sock ≡ b ∷ concat (recv 1 sock).1))
unfolding recv
recv-one [] = inl (refl, refl)
recv-one ([] ∷ segments) = recv-one segments
recv-one ((b ∷ bs) ∷ segments) = inr (b, refl, refl)

read_varint_loop-flat :
    (fuel : ℕ) (sock : List (List ℕ)) (n shift : ℕ)
    → length (concat sock) < fuel
    → flat (read_varint_loop fuel sock n shift) ≡ varint_of (concat sock) n shift
unfolding read_varint_loop varint_of
read_varint_loop-flat zero sock n shift h = absurd (omega arith)
read_varint_loop-flat (suc fuel) sock n shift h = elim (recv-one sock) [
  | inl (e, q) ↦ rw (q, e, read_varint_loop, varint_of) refl
  | inr (b, e, q) ↦
      let rest = (recv 1 sock).1 in
      let shorter : length (concat rest) < fuel = omega (arith, ap length q) in
      let ih = read_varint_loop-flat fuel rest (n + b % 128 * 2 ^ shift) (shift + 7) shorter in
      elim (Bool-cases (ltb (b % 256) 128)) [
        | inl c ↦ rw (q, e, c, read_varint_loop, varint_of) refl
        | inr c ↦ rw (q, e, c, read_varint_loop, varint_of) ih
      ]
]

pub read_varint-flat :
    (sock : List (List ℕ)) → flat (read_varint sock) ≡ varint_of (concat sock) 0 0
unfolding read_varint
read_varint-flat sock = read_varint_loop-flat (suc (length (concat sock))) sock 0 0 (omega arith)

-- What `n` bytes of a whole text are.
unfoldable pub data_of : ℕ → List ℕ → List ℕ → Option (List ℕ × List ℕ)
data_of zero got bs = some (got, bs)
data_of (suc n) got [] = none
data_of (suc n) got (b ∷ bs) = data_of n (got ++ b ∷ []) bs

pub data_of-chunk :
    (chunk rest got : List ℕ) (n m : ℕ)
    → length chunk + n ≡ m
    → data_of m got (chunk ++ rest) ≡ data_of n (got ++ chunk) rest
unfolding data_of
data_of-chunk [] rest got n m h = let same : m ≡ n = omega arith in rw (same, append-nil got) refl
data_of-chunk (b ∷ bs) rest got n zero h = absurd (omega arith)
data_of-chunk (b ∷ bs) rest got n (suc m) h =
    data_of-chunk bs rest (got ++ b ∷ []) n m (omega arith)
    ∙ ap (λ g. data_of n g rest) (append_assoc got (b ∷ []) bs)

-- Bytes that follow are left alone.
pub data_of-append :
    (bs more : List ℕ) (n : ℕ) (got all rest : List ℕ)
    → data_of n got bs ≡ some (all, rest)
    → data_of n got (bs ++ more) ≡ some (all, rest ++ more)
unfolding data_of
data_of-append bs more zero got all rest h = ground arith
data_of-append [] more (suc n) got all rest h = cc
data_of-append (b ∷ bs) more (suc n) got all rest h =
    data_of-append bs more n (got ++ b ∷ []) all rest h

length-take : (n : ℕ) (xs : List ℕ) → length (take n xs) ≤ n
length-take zero xs = omega arith
length-take (suc n) [] = omega arith
length-take (suc n) (x ∷ xs) = omega (arith, length-take n xs)

recv-some :
    (k : ℕ) (sock : List (List ℕ))
    → 0 < k
    → ((recv k sock).0 ≡ [] × concat sock ≡ [])
      ⊎ ((b : ℕ) × (bs : List ℕ) × ((recv k sock).0 ≡ b ∷ bs)
          × (length bs < k)
          × (concat sock ≡ (b ∷ bs) ++ concat (recv k sock).1))
unfolding recv
recv-some zero sock h = absurd (omega arith)
recv-some (suc k) [] h = inl (refl, refl)
recv-some (suc k) ([] ∷ segments) h = recv-some (suc k) segments h
recv-some (suc k) ((b ∷ bs) ∷ segments) h = inr (
  b,
  take k bs,
  refl,
  omega (arith, length-take k bs),
  ap (λ l. b ∷ l)
      (ap (λ l. l ++ concat segments) (sym (take-append-drop k bs))
        ∙ append_assoc (take k bs) (drop k bs) (concat segments)),
)

read_data_loop-flat :
    (fuel n m : ℕ) (got : List ℕ) (sock : List (List ℕ))
    → length got + m ≡ n
    → m ≤ fuel
    → flat (read_data_loop fuel n got sock) ≡ data_of m got (concat sock)
unfolding read_data_loop data_of
read_data_loop-flat zero n zero got sock q h = refl
read_data_loop-flat zero n (suc k) got sock q h = absurd (omega arith)
read_data_loop-flat (suc fuel) n zero got sock q h = ground arith
read_data_loop-flat (suc fuel) n (suc k) got sock q h =
    let more : ltb (length got) n ≡ true = ground arith in
    let asked = n - length got in
    elim (recv-some asked sock (omega arith)) [
      | inl (e, c) ↦ rw (c, more, e, read_data_loop, data_of) refl
      | inr (b, bs, e, s, c) ↦
          let rest = (recv asked sock).1 in
          let left = k - length bs in
          let longer : length (got ++ b ∷ bs) + left ≡ n =
            omega (arith, length-append got (b ∷ bs)) in
          rw (c, more, e, read_data_loop)
            (read_data_loop-flat fuel n left (got ++ b ∷ bs) rest longer (omega arith)
              ∙ sym (data_of-chunk (b ∷ bs) (concat rest) got left (suc k) (omega arith)))
    ]

pub read_data-flat :
    (n : ℕ) (sock : List (List ℕ)) → flat (read_data n sock) ≡ data_of n [] (concat sock)
unfolding read_data
read_data-flat n sock = read_data_loop-flat n n n [] sock (omega arith) (omega arith)
