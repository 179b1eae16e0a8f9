-- ===== src/Text/Ip.antt =====
-- The standard library's `str::parse::<IpAddr>()` (core::net::parser), as far as the engine uses it.
use sippin_soda.Base.{
  ℕ, zero, suc, ◌+◌, ◌-◌, ◌*◌, ◌%◌, ◌/◌, Bool, true, false, not, ◌&&◌, Option, none, some, List, [],
  ◌∷◌, ◌++◌, ltb, leb, ◌==◌, if◌then◌else◌, length, replicate,
}
use sippin_soda.Text.{Text}

pub data IpAddr : Type 0 where
  v4 : ℕ → ℕ → ℕ → ℕ → IpAddr
  -- the eight 16-bit groups
  v6 : List ℕ → IpAddr

infixl 5 ◌>>=◌
abbrev ◌>>=◌ : {A B : Type 0} → Option A → (A → Option B) → Option B
none >>= f = none
some a >>= f = f a

-- `char::to_digit`.
to_digit : ℕ → ℕ → Option ℕ
to_digit radix c =
    let d : ℕ =
      if leb b'0' c && leb c b'9'
      then c - b'0'
      else if leb b'a' c && leb c b'z'
      then (c - b'a') + 10
      else if leb b'A' c && leb c b'Z'
      then (c - b'A') + 10
      else radix in
    if ltb d radix then some d else none

-- The digit loop of `read_number`: the value, how many digits, and the rest.
read_digits : ℕ → ℕ → ℕ → ℕ → ℕ → Text → Option (ℕ × ℕ × Text)
read_digits radix bound most value count [] = some (value, count, [])
read_digits radix bound most value count (c ∷ t) = elim (to_digit radix c) [
  | none ↦ some (value, count, c ∷ t)
  | some d ↦
      let next : ℕ = value * radix + d in
      if ltb next bound && ltb count most
      then read_digits radix bound most next (count + 1) t
      else none
]

starts_with_zero : Text → Bool
starts_with_zero [] = false
starts_with_zero (c ∷ t) = c == b'0'

read_number : ℕ → ℕ → ℕ → Bool → Text → Option (ℕ × Text)
unfolding to_digit read_digits starts_with_zero
read_number radix bound most allow_zero_prefix t = do
  (value, count, rest) ← read_digits radix bound most 0 0 t
  let leading_zero = starts_with_zero t
  if count == 0
      then none
      else if not allow_zero_prefix && leading_zero && ltb 1 count
      then none
      else some (value, rest)

read_given_char : ℕ → Text → Option Text
read_given_char c [] = none
read_given_char c (d ∷ t) = if d == c then some t else none

-- `read_separator`: the separator comes before every item but the first.
read_separator : ℕ → ℕ → Text → Option Text
unfolding read_given_char
read_separator sep zero t = some t
read_separator sep (suc i) t = read_given_char sep t

read_octet : ℕ → Text → Option (ℕ × Text)
unfolding read_number read_separator
read_octet i t = do t' ← read_separator b'.' i t; read_number 10 256 3 false t'

read_ipv4 : Text → Option (ℕ × ℕ × ℕ × ℕ × Text)
unfolding read_octet
read_ipv4 t = do
  (a, t₁) ← read_octet 0 t
  (b, t₂) ← read_octet 1 t₁
  (c, t₃) ← read_octet 2 t₂
  (d, t₄) ← read_octet 3 t₃
  some (a, b, c, d, t₄)

-- `read_groups`: `left` groups may still come, `i` have been read; true after an IPv4 ending.
read_groups : ℕ → ℕ → Text → List ℕ × Bool × Text
unfolding read_ipv4
read_groups zero i t = ([], false, t)
read_groups (suc left) i t =
    let ending : Option (ℕ × ℕ × ℕ × ℕ × Text) =
      if ltb 0 left then (read_separator b':' i t >>= λ t'. read_ipv4 t') else none in
    let group : Option (ℕ × Text) =
      read_separator b':' i t >>= λ t'. read_number 16 0x10000 4 true t' in
    elim ending [
      | some (a, b, c, d, rest) ↦ ((a * 256 + b) ∷ (c * 256 + d) ∷ [], true, rest)
      | none ↦ elim group [
        | none ↦ ([], false, t)
        | some (g, rest) ↦
            let (gs, ended, end) = read_groups left (suc i) rest in (g ∷ gs, ended, end)
      ]
    ]

read_ipv6 : Text → Option (List ℕ × Text)
unfolding read_groups read_given_char
read_ipv6 t =
    let (head, ended, rest) = read_groups 8 0 t in
    if length head == 8 then some (head, rest) else if ended then none else do
      rest₁ ← read_given_char b':' rest
      rest₂ ← read_given_char b':' rest₁
      let (tail, ended', rest₃) = read_groups (8 - (length head + 1)) 0 rest₂
      some (head ++ (replicate (8 - length head - length tail) 0 ++ tail), rest₃)

-- `read_ip_addr`, which must use up the text.
unfoldable pub parse_ip : Text → Option IpAddr
unfolding read_ipv4 read_ipv6
parse_ip t = elim (read_ipv4 t) [
  | some (a, b, c, d, rest) ↦ elim rest [ [] ↦ some (v4 a b c d) | _ ∷ _ ↦ none ]
  | none ↦ elim (read_ipv6 t) [
    | none ↦ none
    | some (groups, rest) ↦ elim rest [ [] ↦ some (v6 groups) | _ ∷ _ ↦ none ]
  ]
]

all_zero : List ℕ → Bool
all_zero [] = true
all_zero (g ∷ gs) = g == 0 && all_zero gs

-- `::1`, by its groups.
is_one : List ℕ → Bool
is_one [] = false
is_one (g ∷ []) = g == 1
is_one (g ∷ h ∷ gs) = g == 0 && is_one (h ∷ gs)

-- `IpAddr::is_loopback`.
unfoldable pub is_loopback : IpAddr → Bool
unfolding is_one
is_loopback (v4 a b c d) = a == 127
is_loopback (v6 groups) = is_one groups

-- `IpAddr::is_unspecified`.
unfoldable pub is_unspecified : IpAddr → Bool
unfolding all_zero
is_unspecified (v4 a b c d) = a == 0 && (b == 0 && (c == 0 && d == 0))
is_unspecified (v6 groups) = all_zero groups

-- `IpAddr::to_canonical`: an IPv4-mapped address is read as IPv4.
unfoldable pub to_canonical : IpAddr → IpAddr
to_canonical (v6 (z₀ ∷ z₁ ∷ z₂ ∷ z₃ ∷ z₄ ∷ f ∷ hi ∷ lo ∷ [])) =
    if z₀ == 0 && (z₁ == 0 && (z₂ == 0 && (z₃ == 0 && (z₄ == 0 && f == 0xffff))))
    then v4 (hi / 256) (hi % 256) (lo / 256) (lo % 256)
    else v6 (z₀ ∷ z₁ ∷ z₂ ∷ z₃ ∷ z₄ ∷ f ∷ hi ∷ lo ∷ [])
to_canonical a = a
