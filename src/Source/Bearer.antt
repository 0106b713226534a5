-- ===== src/Source/Bearer.antt =====
-- What `HeaderSource.Token` returns.
use gateway_auth.Prelude.{
  ℕ, ◌<◌, ◌≡◌, ◌≢◌, refl, true, false, [], ◌∷◌, ◌++◌, some, arith, ltb, length, drop,
  take-length-append, drop-length-append, append_assoc, is_empty-false, length-append, subst,
}
use gateway_auth.Text.{Bytes, codes}
use gateway_auth.Text.Space.{
  one, trim_space, IsTrimmed, trim_space-IsTrimmed, trim_space_of_IsTrimmed, has_space_back-append,
  has_space_front-cons,
}
use gateway_auth.Text.Split.{equal_fold, lower, equal_fold_refl}
use gateway_auth.Identity.{Headers}
use gateway_auth.Source.{HeaderSource, non_empty, strip_scheme, read_value, header_token}

-- A scheme of RFC 7235 as far as reading it needs: it begins with an ASCII byte that is no space.
abbrev pub IsScheme : Bytes → Type 0
IsScheme [] = ⊥
IsScheme (c ∷ cs) = (c < 0x80) × (one c ≡ false)

-- What a source may return: a token with no white space at either end, and never the empty one.
abbrev pub IsToken : Bytes → Type 0
IsToken raw = (raw ≢ []) × IsTrimmed raw

non_empty-IsToken : (s raw : Bytes) → IsTrimmed s → non_empty s ≡ some raw → IsToken raw
non_empty-IsToken [] raw t e = cc
non_empty-IsToken (c ∷ s) raw t e =
    let same_text : c ∷ s ≡ raw = cc in ((λ z. cc), rw (← same_text) t)

read_value-IsToken :
    (scheme v raw : Bytes) → IsTrimmed v → read_value scheme v ≡ some raw → IsToken raw
unfolding read_value strip_scheme
read_value-IsToken scheme [] raw t e = cc
read_value-IsToken [] (c ∷ v) raw t e =
    let same_text : c ∷ v ≡ raw = cc in ((λ z. cc), rw (← same_text) t)
read_value-IsToken (d ∷ scheme) (c ∷ v) raw t e =
    let prefix = d ∷ scheme ++ codes " " in
    let rest = drop (length prefix) (c ∷ v) in
    non_empty-IsToken (trim_space rest) raw (trim_space-IsTrimmed rest) (ground arith)

-- Whatever the header, a token read from it is not empty and has no white space at its ends.
pub header_token-IsToken :
    (s : HeaderSource) (h : Headers) (raw : Bytes) → header_token s h ≡ some raw → IsToken raw
unfolding header_token
header_token-IsToken s h raw e =
    read_value-IsToken s.scheme (trim_space (h s.name)) raw (trim_space-IsTrimmed (h s.name)) e

equal_fold-cons :
    (w : Bytes) (c : ℕ) (cs : Bytes)
    → equal_fold w (c ∷ cs) ≡ true
    → (a : ℕ) × (v : Bytes) × (w ≡ a ∷ v) × (lower a ≡ lower c) × (equal_fold v cs ≡ true)
unfolding equal_fold
equal_fold-cons [] c cs e = cc
equal_fold-cons (a ∷ v) c cs e = (a, v, refl, ground arith, ground arith)

equal_fold-append : (w s r : Bytes) → equal_fold w s ≡ true → equal_fold (w ++ r) (s ++ r) ≡ true
unfolding equal_fold
equal_fold-append [] [] r e = equal_fold_refl r
equal_fold-append [] (b ∷ s) r e = cc
equal_fold-append (a ∷ w) [] r e = cc
equal_fold-append (a ∷ w) (b ∷ s) r e = ground (arith, equal_fold-append w s r)

length_of_equal_fold : (w s : Bytes) → equal_fold w s ≡ true → length w ≡ length s
unfolding equal_fold
length_of_equal_fold [] [] e = refl
length_of_equal_fold [] (b ∷ s) e = cc
length_of_equal_fold (a ∷ w) [] e = cc
length_of_equal_fold (a ∷ w) (b ∷ s) e = ground (arith, length_of_equal_fold w s)

fold_not_space :
    (a c : ℕ) → c < 0x80 → one c ≡ false → lower a ≡ lower c → (a < 0x80) × (one a ≡ false)
fold_not_space a c lt n e = ground arith

strip_scheme-append :
    (w prefix t : Bytes)
    → equal_fold w prefix ≡ true
    → IsToken t
    → strip_scheme prefix (w ++ t) ≡ some t
unfolding strip_scheme
strip_scheme-append w prefix t e (ne, trimmed) = rw (
  ← length_of_equal_fold w prefix e,
  take-length-append w t,
  drop-length-append w t,
  trim_space_of_IsTrimmed t trimmed,
  e,
  is_empty-false t ne,
  short,
)
  where
    short : ltb (length (w ++ t)) (length w) ≡ false
    short = ground (arith, length-append w t)

pub scheme-IsTrimmed :
    (scheme word t : Bytes)
    → IsScheme scheme
    → equal_fold word scheme ≡ true
    → IsToken t
    → (word ≢ []) × IsTrimmed (word ++ 32 ∷ t)
scheme-IsTrimmed [] word t s e k = absurd s
scheme-IsTrimmed (c ∷ cs) word t (lt, n) e (ne, (_, back)) =
    let (a, v, w, f, _) = equal_fold-cons word c cs e in
    let (a_lt, a_n) = fold_not_space a c lt n f in
    rw w (
      (λ z. cc),
      (
        has_space_front-cons a (v ++ 32 ∷ t) a_lt a_n,
        has_space_back-append (a ∷ v) t 32 (omega arith) ne back,
      ),
    )

pub read_value-append :
    (scheme word t : Bytes)
    → IsScheme scheme
    → word ≢ []
    → equal_fold word scheme ≡ true
    → IsToken t
    → read_value scheme (word ++ 32 ∷ t) ≡ some t
unfolding read_value
read_value-append [] word t s ne e k = absurd s
read_value-append (c ∷ cs) [] t s ne e k = absurd (ne refl)
read_value-append (c ∷ cs) (a ∷ v) t s ne e k =
    subst (λ r. strip_scheme ((c ∷ cs) ++ codes " ") r ≡ some t) (append_assoc (a ∷ v) (32 ∷ []) t)
      (strip_scheme-append ((a ∷ v) ++ codes " ") ((c ∷ cs) ++ codes " ") t
        (equal_fold-append (a ∷ v) (c ∷ cs) (codes " ") e) k)

-- A source whose scheme begins with an ASCII byte that is no white space reads a token, not empty and
-- trimmed, behind that scheme and one space, in whatever case of the letters the request spells the
-- scheme.
pub header_token_scheme :
    (s : HeaderSource) (h : Headers) (word t : Bytes)
    → IsScheme s.scheme
    → equal_fold word s.scheme ≡ true
    → IsToken t
    → h s.name ≡ word ++ 32 ∷ t
    → header_token s h ≡ some t
unfolding header_token
header_token_scheme s h word t sch e k v =
    let (ne, trimmed) = scheme-IsTrimmed s.scheme word t sch e k in
    rw (v, trim_space_of_IsTrimmed _ trimmed) (read_value-append s.scheme word t sch ne e k)
