-- ===== src/SignOut/Escape.antt =====
-- A query value is read back from its escaped form, which holds no reserved byte.
use gateway_auth.Prelude.{
  ℕ, ◌+◌, ◌-◌, ◌*◌, ◌/◌, ◌%◌, ◌<◌, ◌≡◌, ◌≢◌, refl, ap, ◌∙◌, ◌⊎◌, inl, inr, true, [], ◌∷◌, ◌++◌,
  if◌then◌else◌, ◌==◌, leb, arith, All, All-append, Bool-cases,
}
use gateway_auth.Text.{Bytes}
use gateway_auth.SignOut.{is_unreserved, hex_digit, escape_byte, query_escape}

-- The value of a hexadecimal digit in upper case.
abbrev pub hex_value : ℕ → ℕ
hex_value c = if leb b'A' c then c - 55 else c - b'0'

-- What a server reads from a query value: "+" is a space, "%" and two digits are a byte.
pub unescape : Bytes → Bytes
unescape [] = []
unescape (c ∷ []) = (if c == b'+' then 32 else c) ∷ []
unescape (c ∷ d ∷ []) = (if c == b'+' then 32 else c) ∷ unescape (d ∷ [])
unescape (c ∷ d ∷ e ∷ s) =
    let decoded = unescape s in
    let plain = unescape (d ∷ e ∷ s) in
    if c == b'%'
    then (hex_value d * 16 + hex_value e) ∷ decoded
    else (if c == b'+' then 32 else c) ∷ plain

pub unescape_plain :
    (c : ℕ) (s : Bytes) → c ≢ b'%' → unescape (c ∷ s) ≡ (if c == b'+' then 32 else c) ∷ unescape s
unfolding unescape
unescape_plain c [] h = refl
unescape_plain c (d ∷ []) h = refl
unescape_plain c (d ∷ e ∷ s) h = ground arith

pub unescape_hex :
    (d e : ℕ) (s : Bytes)
    → unescape (b'%' ∷ d ∷ e ∷ s) ≡ (hex_value d * 16 + hex_value e) ∷ unescape s
unfolding unescape
unescape_hex d e s = refl

hex_value-hex_digit : (d : ℕ) → d < 16 → hex_value (hex_digit d) ≡ d
hex_value-hex_digit d h = ground arith

pub hex_pair :
    (b : ℕ) → b < 256 → hex_value (hex_digit (b / 16)) * 16 + hex_value (hex_digit (b % 16)) ≡ b
hex_pair b h =
    rw (hex_value-hex_digit (b / 16) (omega arith), hex_value-hex_digit (b % 16) (omega arith))
      (omega arith)

unescape-escape_byte :
    (c : ℕ) (s : Bytes) → c < 256 → unescape (escape_byte c ++ s) ≡ c ∷ unescape s
unfolding escape_byte
unescape-escape_byte c s h = elim (Bool-cases (is_unreserved c)) [
  | inl u ↦ rw u (unescape_plain c s (ground arith) ∙ ground arith)
  | inr r ↦ elim (Bool-cases (c == 32)) [
    | inl space ↦ rw (r, space) (unescape_plain b'+' s (omega arith) ∙ ground arith)
    | inr other ↦ rw (r, other) (unescape_hex _ _ s ∙ ap (λ b. b ∷ unescape s) (hex_pair c h))
  ]
]

-- The bytes of a text, each below 256.
abbrev pub AreBytes : Bytes → Type 0
AreBytes = All (λ c. c < 256)

-- Escaping loses nothing: a server reads the very value back.
pub unescape-query_escape : (s : Bytes) → AreBytes s → unescape (query_escape s) ≡ s
unfolding query_escape
unescape-query_escape [] _ = unfold unescape in refl
unescape-query_escape (c ∷ s) (h, hs) =
    unescape-escape_byte c (query_escape s) h ∙ ap (◌∷◌ c) (unescape-query_escape s hs)

-- A byte of an escaped value.
abbrev pub IsSafe : ℕ → Type 0
IsSafe c = (is_unreserved c ≡ true) ⊎ (c ≡ b'+') ⊎ (c ≡ b'%')

hex_digit-IsSafe : (d : ℕ) → d < 16 → is_unreserved (hex_digit d) ≡ true
hex_digit-IsSafe d h = ground arith

escape_byte-IsSafe : (c : ℕ) → c < 256 → All IsSafe (escape_byte c)
unfolding escape_byte
escape_byte-IsSafe c h = elim (Bool-cases (is_unreserved c)) [
  | inl u ↦ rw u (inl u, tt)
  | inr r ↦ elim (Bool-cases (c == 32)) [
    | inl space ↦ rw (r, space) (inr (inl refl), tt)
    | inr other ↦
        rw (r, other)
          (
            inr (inr refl),
            (
              inl (hex_digit-IsSafe (c / 16) (omega arith)),
              (inl (hex_digit-IsSafe (c % 16) (omega arith)), tt),
            ),
          )
  ]
]

-- An escaped value holds letters, digits, "-", "_", ".", "~", "+" and "%" alone: nothing in it ends the
-- parameter or starts a fragment.
pub query_escape-IsSafe : (s : Bytes) → AreBytes s → All IsSafe (query_escape s)
unfolding query_escape
query_escape-IsSafe [] _ = tt
query_escape-IsSafe (c ∷ s) (h, hs) =
    All-append IsSafe (escape_byte c) (query_escape s) (escape_byte-IsSafe c h)
      (query_escape-IsSafe s hs)

-- A byte that neither ends a parameter, nor starts another or a fragment.
abbrev pub IsInside : ℕ → Type 0
IsInside c = (c ≢ b'&') × (c ≢ b';') × (c ≢ b'=') × (c ≢ b'#')

pub IsSafe-IsInside : (s : Bytes) → All IsSafe s → All IsInside s
IsSafe-IsInside [] _ = tt
IsSafe-IsInside (c ∷ s) (h, hs) = (
  ((λ e. ground arith), (λ e. ground arith), (λ e. ground arith), (λ e. ground arith)),
  IsSafe-IsInside s hs,
)
