-- ===== src/Ts/Badge.antt =====
-- ts/src/react/UserBadge.tsx: the block that shows the caller and a sign-out button.
pub mod Laws
pub mod Tests
use gateway_auth.Prelude.{
  Bool, true, false, ◌&&◌, not, List, [], ◌∷◌, Option, none, some, if◌then◌else◌, is_empty,
}
use gateway_auth.Text.{codes, same}
use gateway_auth.Ts.Strings.{Units, or_blank}

-- `Me`; a property that is left out is `none`.
pub record Me : Type 0 where
  pub name : Option Units
  pub email : Option Units
  pub role : Option Units

-- `UserBadgeProps`.
pub record UserBadgeProps : Type 0 where
  pub me : Option Me
  pub sign_out_href : Option Units
  pub emphasize_roles : Option (List Units)

-- The `color` of a chip.
pub data Color : Type 0 where
  success : Color
  plain : Color

pub record Chip : Type 0 where
  pub label : Units
  pub color : Color

-- What the component renders: a line with a name, a caption below it, a chip and a button's link.
pub record Badge : Type 0 where
  pub shown : Units
  pub caption : Option Units
  pub chip : Option Chip
  pub href : Units

-- A string that a conditional takes as true.
abbrev pub truthy : Option Units → Bool
truthy s = not (is_empty (or_blank s))

abbrev pub includes : List Units → Units → Bool
includes [] s = false
includes (r ∷ rs) s = let rest = includes rs s in if same r s then true else rest

-- The defaults of the parameters.
abbrev pub href_or_default : Option Units → Units
href_or_default none = codes "/oauth2/sign_out"
href_or_default (some href) = href

abbrev pub roles_or_default : Option (List Units) → List Units
roles_or_default none = codes "operator" ∷ []
roles_or_default (some roles) = roles

-- `me.name || me.email || "signed in"`.
unfoldable pub shown_name : Me → Units
shown_name me =
    if truthy me.name
    then or_blank me.name
    else if truthy me.email
    then or_blank me.email
    else codes "signed in"

unfoldable pub caption_of : Me → Option Units
caption_of me = if truthy me.name && truthy me.email then some (or_blank me.email) else none

abbrev pub color_of : List Units → Units → Color
color_of emphasized role = if includes emphasized role then success else plain

unfoldable pub chip_of : List Units → Me → Option Chip
chip_of emphasized me =
    if truthy me.role
    then some (record { label = or_blank me.role; color = color_of emphasized (or_blank me.role) })
    else none

abbrev pub badge : UserBadgeProps → Me → Badge
badge props me = record {
  shown = shown_name me;
  caption = caption_of me;
  chip = chip_of (roles_or_default props.emphasize_roles) me;
  href = href_or_default props.sign_out_href;
}

abbrev rendered : UserBadgeProps → Option Me → Option Badge
rendered props none = none
rendered props (some me) = some (badge props me)

-- `UserBadge(props)`; `none` renders nothing.
unfoldable pub user_badge : UserBadgeProps → Option Badge
user_badge props = rendered props props.me
