-- ===== src/Ts/Badge/Laws.antt =====
-- What a badge shows.
use gateway_auth.Prelude.{
  ◌≡◌, refl, ◌⊎◌, inl, inr, ◌↔◌, true, false, List, [], ◌∷◌, none, some, is_empty, arith, Any,
  Bool-cases,
}
use gateway_auth.Text.{same_iff}
use gateway_auth.Ts.Strings.{Units, or_blank}
use gateway_auth.Text.Split.{has_prefix, trim_right_byte}
use gateway_auth.Ts.Badge.{
  Me, UserBadgeProps, Badge, shown_name, caption_of, chip_of, user_badge, roles_or_default, truthy,
  includes, Chip, color_of, success, badge,
}
use gateway_auth.Ts.SignOut.{sign_out_url, sign_out_base}

-- The name is never blank.
shown_name_lem : (me : Me) → is_empty (shown_name me) ≡ false
unfolding shown_name
shown_name_lem me = ground arith

-- A caption is the e-mail address, below the name.
caption_of_lem :
    (me : Me) (s : Units)
    → caption_of me ≡ some s
    → (s ≡ or_blank me.email) × (shown_name me ≡ or_blank me.name)
unfolding shown_name caption_of
caption_of_lem me s e = ground arith

-- An e-mail address is shown, on one of the lines.
email_shown :
    (me : Me)
    → truthy me.email ≡ true
    → (shown_name me ≡ or_blank me.email) ⊎ (caption_of me ≡ some (or_blank me.email))
unfolding shown_name caption_of
email_shown me e = ground arith

includes_iff : (rs : List Units) (s : Units) → (includes rs s ≡ true) ↔ Any (λ r. r ≡ s) rs
includes_iff [] s = ((λ h. cc), (λ h. absurd h))
includes_iff (r ∷ rs) s = ground (arith, same_iff r s, includes_iff rs s)

color_of_iff :
    (roles : List Units) (s : Units) → (color_of roles s ≡ success) ↔ Any (λ r. r ≡ s) roles
color_of_iff roles s = ground (arith, includes_iff roles s)

-- The chip is the role's, and its color tells whether the role is one to emphasize.
chip_of-color :
    (roles : List Units) (me : Me) (c : Chip)
    → chip_of roles me ≡ some c
    → (c.label ≡ or_blank me.role) × ((c.color ≡ success) ↔ Any (λ r. r ≡ or_blank me.role) roles)
unfolding chip_of
chip_of-color roles me c e = elim (Bool-cases (truthy me.role)) [
  | inl f ↦
      let same_chip : record { label = or_blank me.role; color = color_of roles (or_blank me.role) }
          ≡ c =
        ground arith in
      (rw⁻¹ same_chip refl, rw⁻¹ same_chip (color_of_iff roles (or_blank me.role)))
  | inr f ↦ absurd (ground arith)
]

chip_of-none : (roles : List Units) (me : Me) → (chip_of roles me ≡ none) ↔ (truthy me.role ≡ false)
unfolding chip_of
chip_of-none roles me = ground arith

-- What a badge tells of the caller: `roles` are those to emphasize.
pub record Tells (me : Me) (roles : List Units) (b : Badge) : Type 0 where
  pub named : is_empty b.shown ≡ false
  pub reachable :
      truthy me.email ≡ true
      → (b.shown ≡ or_blank me.email) ⊎ (b.caption ≡ some (or_blank me.email))
  pub below :
      (s : Units) → b.caption ≡ some s → (s ≡ or_blank me.email) × (b.shown ≡ or_blank me.name)
  pub no_chip : (b.chip ≡ none) ↔ (truthy me.role ≡ false)
  pub colored :
      (c : Chip)
      → b.chip ≡ some c
      → (c.label ≡ or_blank me.role) × ((c.color ≡ success) ↔ Any (λ r. r ≡ or_blank me.role) roles)

-- A known caller gets a badge that is never blank: an e-mail address, where there is one, is the name or
-- stands below the name; a chip shows the role, where there is one, and has the success color exactly for
-- the roles to emphasize; and without a link the button leads where `signOutUrl()` does.
pub user_badge-Tells :
    (other : Units → Units) (props : UserBadgeProps) (me : Me)
    → props.me ≡ some me
    → (b : Badge) × (user_badge props ≡ some b)
      × Tells me (roles_or_default props.emphasize_roles) b
      × (props.sign_out_href ≡ none → b.href ≡ sign_out_url other none none)
unfolding user_badge sign_out_url sign_out_base trim_right_byte has_prefix
user_badge-Tells other props me known = (
  badge props me,
  rw known refl,
  record {
    named = shown_name_lem me;
    reachable = email_shown me;
    below = caption_of_lem me;
    no_chip = chip_of-none (roles_or_default props.emphasize_roles) me;
    colored = chip_of-color (roles_or_default props.emphasize_roles) me;
  },
  λ no_link. rw no_link refl,
)
