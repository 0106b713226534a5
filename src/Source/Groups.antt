-- ===== src/Source/Groups.antt =====
-- What `splitAndTrim` makes of the groups header.
use gateway_auth.Prelude.{
  ℕ, ◌≡◌, ◌≢◌, refl, inl, inr, List, [], ◌∷◌, ◌++◌, some, is_empty, Bool-cases, All, is_empty-false,
  ne-nil_of_is_empty, subst,
}
use gateway_auth.Text.{Bytes}
use gateway_auth.Text.Space.{
  trim_space, IsTrimmed, trim_space-IsTrimmed, trim_space_of_IsTrimmed, trim_space_split,
}
use gateway_auth.Text.Split.{split, join, Lacks, split-join, split-Lacks}
use gateway_auth.Identity.{items}
use gateway_auth.Source.{keep_trimmed, nil_if_empty, split_and_trim}

-- An entry of the header: not empty, no white space at its ends, no separator.
abbrev pub IsEntry : ℕ → Bytes → Type 0
IsEntry sep e = (e ≢ []) × IsTrimmed e × Lacks sep e

Lacks-append : (b : ℕ) (p q : Bytes) → Lacks b (p ++ q) → Lacks b p × Lacks b q
Lacks-append b [] q h = (tt, h)
Lacks-append b (c ∷ p) q (h, hs) = let (l, r) = Lacks-append b p q hs in ((h, l), r)

trim_space-Lacks : (b : ℕ) (s : Bytes) → Lacks b s → Lacks b (trim_space s)
trim_space-Lacks b s h =
    let (pre, post, e, _, _) = trim_space_split s in
    (Lacks-append b (trim_space s) post (Lacks-append b pre _ (subst (Lacks b) e h)).1).0

keep_trimmed-IsEntry :
    (sep : ℕ) (parts : List Bytes) → All (Lacks sep) parts → All (IsEntry sep) (keep_trimmed parts)
unfolding keep_trimmed
keep_trimmed-IsEntry sep [] _ = tt
keep_trimmed-IsEntry sep (p ∷ ps) (h, hs) = elim (Bool-cases (is_empty (trim_space p))) [
  | inl e ↦ rw e (keep_trimmed-IsEntry sep ps hs)
  | inr e ↦ rw e (
    (ne-nil_of_is_empty (trim_space p) e, trim_space-IsTrimmed p, trim_space-Lacks sep p h),
    keep_trimmed-IsEntry sep ps hs,
  )
]

items-nil_if_empty : (xs : List Bytes) → items (nil_if_empty xs) ≡ xs
items-nil_if_empty [] = refl
items-nil_if_empty (x ∷ xs) = refl

-- Every entry is trimmed, not empty and free of the separator; the slice is nil or has an entry.
pub split_and_trim-IsEntry :
    (s : Bytes) (sep : ℕ)
    → All (IsEntry sep) (items (split_and_trim s sep)) × (split_and_trim s sep ≢ some [])
unfolding split_and_trim
split_and_trim-IsEntry s sep = (
  rw (items-nil_if_empty (keep_trimmed (split s sep)))
      (keep_trimmed-IsEntry sep (split s sep) (split-Lacks s sep)),
  ne-empty (keep_trimmed (split s sep)),
)
  where
    ne-empty : (xs : List Bytes) → nil_if_empty xs ≢ some []
    ne-empty [] e = cc
    ne-empty (x ∷ xs) e = cc

keep_trimmed_of_IsEntry : (sep : ℕ) (es : List Bytes) → All (IsEntry sep) es → keep_trimmed es ≡ es
unfolding keep_trimmed
keep_trimmed_of_IsEntry sep [] _ = refl
keep_trimmed_of_IsEntry sep (e ∷ es) ((ne, t, _), hs) =
    rw (trim_space_of_IsTrimmed e t, is_empty-false e ne, keep_trimmed_of_IsEntry sep es hs)

IsEntry-Lacks : (sep : ℕ) (es : List Bytes) → All (IsEntry sep) es → All (Lacks sep) es
IsEntry-Lacks sep [] _ = tt
IsEntry-Lacks sep (e ∷ es) ((_, _, l), hs) = (l, IsEntry-Lacks sep es hs)

-- A header that lists roles, at least one, each not empty, trimmed and free of the separator, with the
-- separator between them, is read back as those roles, in order.
pub split_and_trim-join :
    (roles : List Bytes) (sep : ℕ)
    → roles ≢ []
    → All (IsEntry sep) roles
    → split_and_trim (join roles sep) sep ≡ some roles
unfolding split_and_trim
split_and_trim-join [] sep ne h = absurd (ne refl)
split_and_trim-join (r ∷ rs) sep ne h = rw (
  split-join (r ∷ rs) sep ne (IsEntry-Lacks sep (r ∷ rs) h),
  keep_trimmed_of_IsEntry sep (r ∷ rs) h,
)
