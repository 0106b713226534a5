-- ===== src/Verifier/Cookie.antt =====
-- `cookieValue` on the header that a browser sends.
use gateway_auth.Prelude.{
  ◌≡◌, refl, Bool, true, false, List, [], ◌∷◌, ◌++◌, Option, none, some, map, All, if◌then◌else◌,
  arith,
}
use gateway_auth.Text.{Bytes, same}
use gateway_auth.Text.Space.{trim_space, IsTrimmed, trim_space_of_IsTrimmed, trim_space-space}
use gateway_auth.Text.Split.{split, cut, join, Lacks, split-join, cut-append}
use gateway_auth.Claims.{or_empty}
use gateway_auth.Verifier.{find_cookie, cookie_value}

abbrev pub pair : Bytes × Bytes → Bytes
pair (k, v) = k ++ b'=' ∷ v

-- The cookies as a browser writes them, "k=v; k=v".
abbrev pub pieces : List (Bytes × Bytes) → List Bytes
pieces [] = []
pieces (c ∷ cs) = pair c ∷ map (λ d. 32 ∷ pair d) cs

unfoldable pub cookie_header : List (Bytes × Bytes) → Bytes
cookie_header cs = join (pieces cs) b';'

-- A name without "=", and no ";" in name or value, nor white space at the ends of the two together.
abbrev pub IsCookie : Bytes × Bytes → Type 0
IsCookie (k, v) = Lacks b'=' k × Lacks b';' (k ++ b'=' ∷ v) × IsTrimmed (k ++ b'=' ∷ v)

-- The value of the first cookie of that name.
abbrev pub first_value : Bytes → List (Bytes × Bytes) → Option Bytes
first_value name [] = none
first_value name ((k, v) ∷ cs) = if same k name then some v else first_value name cs

cut-pair :
    (k v s : Bytes)
    → IsCookie (k, v)
    → trim_space s ≡ pair (k, v)
    → cut (trim_space s) b'=' ≡ some (k, v)
cut-pair k v s (no_eq, _, _) e = rw e (cut-append k v b'=' no_eq)

if-or_empty :
    (b : Bool) (v : Bytes) (o : Option Bytes)
    → (if b then v else or_empty o) ≡ or_empty (if b then some v else o)
if-or_empty true v o = refl
if-or_empty false v o = refl

find_cookie-cons :
    (name k v part : Bytes) (parts : List Bytes) (o : Option Bytes)
    → cut (trim_space part) b'=' ≡ some (k, v)
    → find_cookie name parts ≡ or_empty o
    → find_cookie name (part ∷ parts) ≡ or_empty (if same k name then some v else o)
unfolding find_cookie
find_cookie-cons name k v part parts o e h = rw (e, h) (if-or_empty (same k name) v o)

find_cookie-map :
    (name : Bytes) (cs : List (Bytes × Bytes))
    → All IsCookie cs
    → find_cookie name (map (λ d. 32 ∷ pair d) cs) ≡ or_empty (first_value name cs)
find_cookie-map name [] _ = unfold find_cookie in refl
find_cookie-map name ((k, v) ∷ cs) (h, hs) =
    find_cookie-cons name k v (32 ∷ pair (k, v)) _ (first_value name cs)
      (cut-pair k v (32 ∷ pair (k, v)) h (trim_space-space (pair (k, v)) h.2))
      (find_cookie-map name cs hs)

find_cookie-pieces :
    (name : Bytes) (cs : List (Bytes × Bytes))
    → All IsCookie cs
    → find_cookie name (pieces cs) ≡ or_empty (first_value name cs)
find_cookie-pieces name [] _ = unfold find_cookie in refl
find_cookie-pieces name ((k, v) ∷ cs) (h, hs) =
    find_cookie-cons name k v (pair (k, v)) _ (first_value name cs)
      (cut-pair k v (pair (k, v)) h (trim_space_of_IsTrimmed (pair (k, v)) h.2))
      (find_cookie-map name cs hs)

pieces-Lacks : (cs : List (Bytes × Bytes)) → All IsCookie cs → All (Lacks b';') (pieces cs)
pieces-Lacks [] _ = tt
pieces-Lacks (c ∷ cs) (h, hs) = (h.1, rest cs hs)
  where
    rest :
        (ds : List (Bytes × Bytes)) → All IsCookie ds → All (Lacks b';') (map (λ d. 32 ∷ pair d) ds)
    rest [] _ = tt
    rest (d ∷ ds) (k, ks) = (((λ e. omega arith), k.1), rest ds ks)

-- From the header that a browser writes for cookies with no "=" in their names, no ";" anywhere and
-- no white space at their ends, `cookieValue` reads the value of the first cookie of the name, and ""
-- if there is none.
pub cookie_value-cookie_header :
    (cs : List (Bytes × Bytes)) (name : Bytes)
    → All IsCookie cs
    → cookie_value (cookie_header cs) name ≡ or_empty (first_value name cs)
unfolding cookie_value cookie_header
cookie_value-cookie_header [] name h = unfold split trim_space cut join in refl
cookie_value-cookie_header (c ∷ cs) name h =
    rw (split-join (pieces (c ∷ cs)) b';' (λ e. cc) (pieces-Lacks (c ∷ cs) h))
      (find_cookie-pieces name (c ∷ cs) h)
