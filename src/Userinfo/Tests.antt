-- ===== src/Userinfo/Tests.antt =====
-- Runs and instances of the userinfo fetcher.
use gateway_auth.Prelude.{◌≡◌, ◌≢◌, true, false, refl, [], ◌∷◌, none, some, ok, arith, sym}
use gateway_auth.Text.{codes, same, same_iff}
use gateway_auth.Userinfo.{
  Cache, Answer, Decoder, Filled, cached_answer, ask, store, fill, userinfo_ttl, request_failed,
}
use gateway_auth.Userinfo.Fill.{shown}
use gateway_auth.Userinfo.Directory.{Visit, visit, directory, visit_comm}
use gateway_auth.Userinfo.Storage.{fill-fill}
use gateway_auth.Identity.{Identity, zero_identity}
use gateway_auth.Userinfo.Sharing.{
  System, hit, miss, lands, Reach, here, next, Inv, idle, sharing-Inv,
}
use gateway_auth.Userinfo.Steps.{Runs, fill-Runs}
use gateway_auth.Fixture.{provider, down, userinfo_url, decode_ada, about_ada, nameless_ada, ada}

asked_run : fill decode_ada provider 5 6 userinfo_url (codes "tok") nameless_ada [] ≡ record {
  filled = ada;
  cache = (codes "u1", record { name = codes "Ada"; email = codes "ada@x"; fetched_at = 6 }) ∷ [];
  warnings = [];
}
unfolding fill ask cached_answer store same
asked_run = refl

-- With the network down the identity stays as it is, and a warning is logged.
down_run :
    fill decode_ada down 5 6 userinfo_url (codes "tok") nameless_ada []
    ≡ record { filled = nameless_ada; cache = []; warnings = request_failed (codes "timeout") ∷ [] }
unfolding fill ask cached_answer
down_run = refl

-- A cache that knows another caller already.
abbrev knows_other : Cache
knows_other = (codes "u2", record { name = codes "Bo"; email = []; fetched_at = 1 }) ∷ []

abbrev filled_once : Filled
filled_once = fill decode_ada provider 5 6 userinfo_url (codes "tok") nameless_ada knows_other

apart : codes "u2" ≢ codes "u1"
unfolding same
apart e = absurd (different ((same_iff (codes "u2") (codes "u1")).1 e))
  where
    different : false ≡ true → ⊥
    different h = cc

-- Two callers whose tokens have no subject, at an endpoint that answers without one.
abbrev anonymous : Identity
anonymous = record zero_identity { token = codes "tok" }

abbrev other_anonymous : Identity
other_anonymous = record zero_identity { token = codes "tok2" }

abbrev about_nobody : Answer
about_nobody = record about_ada { sub = [] }

abbrev decode_nobody : Decoder
decode_nobody body = ok about_nobody

missed : cached_answer [] anonymous.subject 5 ≡ none
unfolding cached_answer
missed = refl

answered_nobody :
    ask decode_nobody provider userinfo_url (codes "tok") anonymous.subject
    ≡ (some about_nobody, [])
unfolding ask same
answered_nobody = refl

abbrev first_call : Filled
first_call = fill decode_nobody provider 5 6 userinfo_url (codes "tok") anonymous []

fill-fill_example :
    (first_call.filled ≡ shown anonymous (codes "Ada") (codes "ada@x"))
    × (fill decode_nobody down 100 101 userinfo_url (codes "tok2") other_anonymous first_call.cache
        ≡ record {
          filled = shown other_anonymous (codes "Ada") (codes "ada@x");
          cache = first_call.cache;
          warnings = [];
        })
unfolding userinfo_ttl
fill-fill_example =
    fill-fill decode_nobody provider down 5 6 100 101 userinfo_url (codes "tok") (codes "tok2")
      anonymous other_anonymous about_nobody [] [] missed answered_nobody refl (omega arith)

-- Two calls for one caller overlap: both miss, the second's answer lands first, and a third hits.
abbrev both_missed : System
both_missed = record {
  cache = [];
  in_flight = (nameless_ada, codes "tok") ∷ (nameless_ada, codes "tok") ∷ [];
  ended = [];
  answers = [];
}

abbrev one_landed : System
one_landed = record {
  cache = store (codes "u1") about_ada 6 [];
  in_flight = (nameless_ada, codes "tok") ∷ [];
  ended = (nameless_ada, ada) ∷ [];
  answers = about_ada ∷ [];
}

abbrev third_hit : System
third_hit = record one_landed { ended = (nameless_ada, ada) ∷ (nameless_ada, ada) ∷ [] }

overlap : Reach decode_ada userinfo_url idle third_hit
unfolding cached_answer ask store same
overlap =
    next
      (next
        (next (next here (miss nameless_ada (codes "tok") 4 refl refl))
          (miss nameless_ada (codes "tok") 5 refl refl))
        (lands ((nameless_ada, codes "tok") ∷ []) [] nameless_ada (codes "tok") provider 6 about_ada
          refl refl refl))
      (hit nameless_ada 7 (record { name = codes "Ada"; email = codes "ada@x"; fetched_at = 6 })
        refl refl)

sharing-Inv_example : Inv third_hit
sharing-Inv_example = sharing-Inv decode_ada userinfo_url overlap

-- The system that the whole call of `fill` meets has two other calls under way.
fill-Runs_example :
    Runs decode_ada userinfo_url both_missed nameless_ada
      (fill decode_ada provider 5 6 userinfo_url (codes "tok") nameless_ada both_missed.cache)
fill-Runs_example =
    fill-Runs decode_ada userinfo_url provider 5 6 (codes "tok") nameless_ada both_missed

-- Ada's call, and one of Bo, of whom the endpoint knows nothing.
abbrev ada_visit : Visit
ada_visit = record {
  net = provider;
  now = 5;
  later = 6;
  access_token = codes "tok";
  caller = nameless_ada;
}

abbrev bo_visit : Visit
bo_visit = record ada_visit { caller = record nameless_ada { subject = codes "u2" } }

visit_comm_example :
    let x_first = visit decode_ada userinfo_url ada_visit knows_other in
    let y_second = visit decode_ada userinfo_url bo_visit x_first.cache in
    let y_first = visit decode_ada userinfo_url bo_visit knows_other in
    let x_second = visit decode_ada userinfo_url ada_visit y_first.cache in
    (x_second.filled ≡ x_first.filled)
    × (x_second.warnings ≡ x_first.warnings)
    × (y_second.filled ≡ y_first.filled)
    × (y_second.warnings ≡ y_first.warnings)
    × (directory x_second.cache ≡ directory y_second.cache)
visit_comm_example =
    visit_comm decode_ada userinfo_url ada_visit bo_visit knows_other (λ e. apart (sym e))
