-- ===== src/Claims/Shapes.antt =====
-- The shapes that a roles claim arrives in.
use gateway_auth.Prelude.{◌≡◌, refl, ap, ◌↔◌, ◌⊎◌, List, [], ◌∷◌, some, arith, Any}
use gateway_auth.Text.{Bytes}
use gateway_auth.Identity
use gateway_auth.Identity.{Anys, str, strs, arr, other, nil, cons, items}
use gateway_auth.Claims.{strings_of, strings_from}

-- The `[]any` with the strings of a list.
abbrev pub boxed : List Bytes → Anys
boxed [] = nil
boxed (s ∷ ss) = cons (str s) (boxed ss)

strings_of-boxed : (ss : List Bytes) → strings_of (boxed ss) ≡ ss
unfolding strings_of
strings_of-boxed [] = refl
strings_of-boxed (s ∷ ss) = ap (◌∷◌ s) (strings_of-boxed ss)

-- The string is an element of the `[]any`.
abbrev pub HasItem : Bytes → Anys → Type 0
HasItem s nil = ⊥
HasItem s (cons x xs) = (x ≡ str s) ⊎ HasItem s xs

-- The claim grants the role: as a string, or as an element of an array of either type.
abbrev pub Grants : Bytes → Identity.Any → Type 0
Grants role (str s) = s ≡ role
Grants role (strs ss) = Any (λ s. s ≡ role) ss
Grants role (arr xs) = HasItem role xs
Grants role (other k) = ⊥

strings_of_iff : (role : Bytes) (xs : Anys) → Any (λ s. s ≡ role) (strings_of xs) ↔ HasItem role xs
unfolding strings_of
strings_of_iff role nil = ((λ h. h), (λ h. h))
strings_of_iff role (cons (str s) xs) = ground (arith, strings_of_iff role xs)
strings_of_iff role (cons (strs ss) xs) = ground (arith, strings_of_iff role xs)
strings_of_iff role (cons (arr ys) xs) = ground (arith, strings_of_iff role xs)
strings_of_iff role (cons (other k) xs) = ground (arith, strings_of_iff role xs)

-- A role comes out of a claim exactly when the claim grants it, whatever the claim's shape; what is
-- no string is passed over.
pub strings_from_iff :
    (role : Bytes) (raw : Identity.Any)
    → Any (λ s. s ≡ role) (items (strings_from raw)) ↔ Grants role raw
unfolding strings_from
strings_from_iff role (str s) = ground arith
strings_from_iff role (strs ss) = ((λ h. h), (λ h. h))
strings_from_iff role (arr xs) = strings_of_iff role xs
strings_from_iff role (other k) = ((λ h. h), (λ h. h))

-- The same roles come out of a `[]string` and of the `[]any` that a decoded JWT holds, and a single
-- string is the array with that one element.
pub strings_from_shapes :
    (ss : List Bytes) (s : Bytes)
    → (strings_from (arr (boxed ss)) ≡ strings_from (strs ss))
      × (strings_from (str s) ≡ strings_from (arr (boxed (s ∷ []))))
unfolding strings_from
strings_from_shapes ss s = (ap some (strings_of-boxed ss), refl)
