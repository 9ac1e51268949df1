-- ===== src/Session/Java.antt =====
-- `java_players`: the status of a Java server, read off a connection that sends any segments.
use mediahub_configs.Prelude.{
  ℕ, ◌/◌, ◌%◌, ◌≡◌, refl, Option, none, some, List, [], ◌∷◌, ◌++◌, if◌then◌else◌, length, concat,
  arith, ap, Bool-cases, inl, inr, ◌∙◌, sym, ◌==◌, Option-cases, ◌>>=◌, ◌≢◌,
}
use mathlib.Core.List.{append-nil, append_assoc}
use mediahub_configs.Session.Varint.{varint, varint_of, varint_of-varint, varint_of-append}
use mediahub_configs.Session.Socket.{
  flat, read_varint, read_data, read_varint-flat, read_data-flat, data_of, data_of-chunk,
  data_of-append,
}

-- The `int` of a server's answer, which may be negative.
pub data ℤ : Type 0 where
  pos : ℕ → ℤ
  negsuc : ℕ → ℤ

-- What a status call ends with: None, an exception, or a number of players.
pub data Players : Type 0 where
  absent : Players
  unreadable : Players
  online : ℤ → Players

-- `b"127.0.0.1"`
abbrev host : List ℕ
host = 49 ∷ 50 ∷ 55 ∷ 46 ∷ 48 ∷ 46 ∷ 48 ∷ 46 ∷ 49 ∷ []

-- What is sent; `struct.pack(">H", port)` is two bytes.
unfoldable pub request : ℕ → List ℕ
unfolding varint
request port =
    let hs =
      0 ∷ varint 767 ++ varint (length host) ++ host ++ (port / 256) ∷ (port % 256) ∷ varint 1 in
    varint (length hs) ++ hs ++ 1 ∷ 0 ∷ []

-- The data of the reply, or an exception.
unfoldable pub java_reply : List (List ℕ) → Option (List ℕ × List (List ℕ))
java_reply sock = do
  (_, sock1) ← read_varint sock
  (id, sock2) ← read_varint sock1
  (n, sock3) ← if id == 0 then read_varint sock2 else none
  read_data n sock3

-- The connection is missing if none can be made; `json.loads(data)["players"]["online"]` raises or
-- is a number.
unfoldable pub java_players : (List ℕ → Option ℤ) → Option (List (List ℕ)) → Players
java_players players_online none = absent
java_players players_online (some sock) = elim (java_reply sock) [
  | none ↦ unreadable
  | some (json, _) ↦ elim (players_online json) [ none ↦ unreadable | some n ↦ online n ]
]

-- The reply in a text that is there as a whole.
unfoldable pub reply_of : List ℕ → Option (List ℕ × List ℕ)
reply_of bs = do
  (_, bs1) ← varint_of bs 0 0
  (id, bs2) ← varint_of bs1 0 0
  (n, bs3) ← if id == 0 then varint_of bs2 0 0 else none
  data_of n [] bs3

-- What the protocol says of a reply: its length, the number of the packet, and the JSON with its length.
unfoldable pub status_reply : List ℕ → List ℕ
status_reply json =
    let packet = varint 0 ++ (varint (length json) ++ json) in varint (length packet) ++ packet

flat-bind :
    {A B : Type 0} (o : Option (A × List (List ℕ))) (p : Option (A × List ℕ))
    (f : A × List (List ℕ) → Option (B × List (List ℕ))) (g : A × List ℕ → Option (B × List ℕ))
    → flat o ≡ p
    → ((a : A) (sock : List (List ℕ)) → flat (f (a, sock)) ≡ g (a, concat sock))
    → flat (o >>= f) ≡ (p >>= g)
flat-bind none p f g e h = rw (sym e) refl
flat-bind (some (a, sock)) p f g e h = rw (sym e) (h a sock)

guarded-flat :
    (id : ℕ) (sock : List (List ℕ))
    → flat (if id == 0 then read_varint sock else none)
      ≡ (if id == 0 then varint_of (concat sock) 0 0 else none)
guarded-flat id sock = elim (Bool-cases (id == 0)) [
  | inl e ↦ rw e (read_varint-flat sock)
  | inr e ↦ rw e refl
]

java_reply-flat : (sock : List (List ℕ)) → flat (java_reply sock) ≡ reply_of (concat sock)
unfolding java_reply reply_of
java_reply-flat sock = flat-bind _ _ _ _ (read_varint-flat sock) (λ _ sock1.
    flat-bind _ _ _ _ (read_varint-flat sock1)
      (λ id sock2. flat-bind _ _ _ _ (guarded-flat id sock2) (λ n sock3. read_data-flat n sock3)))

data_of-length : (json rest : List ℕ) → data_of (length json) [] (json ++ rest) ≡ some (json, rest)
unfolding data_of
data_of-length json rest = data_of-chunk json rest [] 0 (length json) (omega arith)

varint_of-field :
    (n : ℕ) (xs rest : List ℕ) → varint_of ((varint n ++ xs) ++ rest) 0 0 ≡ some (n, xs ++ rest)
varint_of-field n xs rest = rw (append_assoc (varint n) xs rest) (varint_of-varint n (xs ++ rest))

reply_of-status_reply :
    (json rest : List ℕ) → reply_of (status_reply json ++ rest) ≡ some (json, rest)
unfolding reply_of status_reply
reply_of-status_reply json rest =
    let tail = varint (length json) ++ json in
    let packet = varint 0 ++ tail in
    let whole : varint_of (status_reply json ++ rest) 0 0 ≡ some (length packet, packet ++ rest) =
      varint_of-field (length packet) packet rest in
    rw
      (
        whole,
        varint_of-field 0 tail rest,
        varint_of-field (length json) json rest,
        data_of-length json rest,
      )
      refl

-- Readers that leave alone what follows what they read.
abbrev Extends : {A : Type 0} → (List ℕ → Option (A × List ℕ)) → Type 0
Extends {A} p =
    (bs more : List ℕ) (a : A) (rest : List ℕ)
    → p bs ≡ some (a, rest)
    → p (bs ++ more) ≡ some (a, rest ++ more)

Extends-bind :
    {A B : Type 0} (p : List ℕ → Option (A × List ℕ)) (q : A → List ℕ → Option (B × List ℕ))
    → Extends p
    → ((a : A) → Extends (q a))
    → Extends (λ bs. p bs >>= (λ (a, rest). q a rest))
Extends-bind p q hp hq bs more b rest h = elim (Option-cases (p bs)) [
  | inl e ↦ absurd (cc (rw e at h))
  | inr ((a, rest1), e) ↦ rw (hp bs more a rest1 e) (hq a rest1 more b rest (rw e at h))
]

guarded-Extends : (id : ℕ) → Extends (λ bs. if id == 0 then varint_of bs 0 0 else none)
guarded-Extends id bs more n rest h = ground (arith, varint_of-append bs more 0 0 n rest)

reply_of-Extends : Extends reply_of
unfolding reply_of
reply_of-Extends =
    Extends-bind _ _ (λ bs more a rest. varint_of-append bs more 0 0 a rest)
      (λ _.
        Extends-bind _ _ (λ bs more a rest. varint_of-append bs more 0 0 a rest)
          (λ id.
            Extends-bind _ _ (guarded-Extends id)
              (λ n bs more a rest. data_of-append bs more n [] a rest)))

flat-none : {A : Type 0} (o : Option (A × List (List ℕ))) → flat o ≡ none → o ≡ none
flat-none none h = refl
flat-none (some x) h = cc

flat-some :
    {A : Type 0} (o : Option (A × List (List ℕ))) (a : A) (rest : List ℕ)
    → flat o ≡ some (a, rest)
    → (s : List (List ℕ)) × (o ≡ some (a, s))
flat-some none a rest h = cc
flat-some (some (c, s)) a rest h = (s, ground arith)

-- Whatever segments a status reply comes in, and whatever follows it: the number of players is the
-- one in its JSON, and the call raises exactly if there is none.
pub java_players-status_reply :
    (players_online : List ℕ → Option ℤ) (json rest : List ℕ) (sock : List (List ℕ))
    → concat sock ≡ status_reply json ++ rest
    → java_players players_online (some sock)
      ≡ elim (players_online json) [ none ↦ unreadable | some n ↦ online n ]
unfolding java_players
java_players-status_reply players_online json rest sock h =
    let read = java_reply-flat sock ∙ (ap reply_of h ∙ reply_of-status_reply json rest) in
    let (_, e) = flat-some (java_reply sock) json rest read in rw (e, java_players) refl

append_cons_ne : (xs ys : List ℕ) (b : ℕ) → xs ++ b ∷ ys ≢ []
append_cons_ne [] ys b h = cc
append_cons_ne (x ∷ xs) ys b h = cc

-- A connection that ends before the whole reply is there raises, whatever segments come.
java_players_truncated :
    (players_online : List ℕ → Option ℤ) (json missing : List ℕ) (b : ℕ) (sock : List (List ℕ))
    → concat sock ++ b ∷ missing ≡ status_reply json
    → java_players players_online (some sock) ≡ unreadable
unfolding java_players
java_players_truncated players_online json missing b sock h =
    elim (Option-cases (java_reply sock)) [
      | inl e ↦ rw (e, java_players) refl
      | inr ((got, s), e) ↦
          let read = sym (java_reply-flat sock) ∙ ap flat e in
          let whole = reply_of-Extends (concat sock) (b ∷ missing) got (concat s) read in
          let complete = reply_of-status_reply json [] in
          let same : status_reply json ++ [] ≡ concat sock ++ b ∷ missing =
            append-nil (status_reply json) ∙ sym h in
          absurd (append_cons_ne (concat s) missing b (cc (ap reply_of same, complete, whole)))
    ]

-- A status call reads what the segments are together: how they are cut makes no difference.
pub java_players-reply_of :
    (players_online : List ℕ → Option ℤ) (sock : List (List ℕ))
    → java_players players_online (some sock) ≡ elim (reply_of (concat sock)) [
      | none ↦ unreadable
      | some (json, _) ↦ elim (players_online json) [ none ↦ unreadable | some n ↦ online n ]
    ]
unfolding java_players
java_players-reply_of players_online sock = elim (Option-cases (java_reply sock)) [
  | inl e ↦ rw (e, sym (java_reply-flat sock), java_players) (rw e refl)
  | inr ((json, s), e) ↦ rw (e, sym (java_reply-flat sock), java_players) (rw e refl)
]
