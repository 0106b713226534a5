-- ===== src/Ts/Badge/Tests.antt =====
-- A badge.
use gateway_auth.Prelude.{◌≡◌, refl, none, some}
use gateway_auth.Text.{codes, same}
use gateway_auth.Ts.Strings.{Units}
use gateway_auth.Ts.Badge.{Me, UserBadgeProps, success, shown_name, caption_of, chip_of, user_badge}

abbrev operator : Me
operator = record { name = none; email = some (codes "ada@x"); role = some (codes "operator") }

abbrev props : UserBadgeProps
props = record { me = some operator; sign_out_href = none; emphasize_roles = none }

badge_run :
    user_badge props
    ≡ some (record {
      shown = codes "ada@x";
      caption = none;
      chip = some (record { label = codes "operator"; color = success });
      href = codes "/oauth2/sign_out";
    })
unfolding user_badge shown_name caption_of chip_of same
badge_run = refl

abbrev unchanged : Units → Units
unchanged s = s
