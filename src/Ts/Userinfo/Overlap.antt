-- ===== src/Ts/Userinfo/Overlap.antt =====
-- Calls of the port's `fill` that overlap. The event loop runs a call up to its first `await` and then
-- from the response on; the awaits of the response and of its body touch nothing that calls share, so
-- they are one pause here.
pub mod Sharing
pub mod Alone
use gateway_auth.Prelude.{
  ℕ, zero, suc, ◌≡◌, refl, ◌++◌, ◌⊎◌, inl, inr, true, List, [], ◌∷◌, Option, none, some, Result, ok,
  err, All, Any, length, arith,
}
use gateway_auth.Text.{codes, same, same_iff}
use gateway_auth.Ts.Strings.{Units, or_blank}
use gateway_auth.Ts.Identity.{Identity}
use gateway_auth.Ts.Userinfo.{
  Entry, Cache, get, set, Members, members, null, Response, failed, answered, Fetch, Warning, is_ok,
  Filled, fresh, is_about, use_body, use_response, use_entry, fill,
}

-- A call: at the `await` with its token and identity, or settled as its promise is.
pub data Call : Type 0 where
  awaiting : Units → Identity → Call
  settled : Identity → Result Units Identity → Call

pub record System : Type 0 where
  pub cache : Cache
  pub calls : List Call
  pub warnings : List Warning

abbrev pub idle : System
idle = record { cache = []; calls = []; warnings = [] }

-- What happens: a call comes, at this time; or the promises that a call awaits settle, as `fetch` has
-- it at that time.
pub data Turn : Type 0 where
  comes : ℕ → Units → Identity → Turn
  lands : ℕ → Fetch → ℕ → Turn

module _ (uri : Units) where
  -- A call up to the `await`.
  abbrev pub begin : Units → Identity → Option Entry → Call
  begin access_token i (some e) = settled i (ok (record i { name = e.name; email = e.email }))
  begin access_token i none = awaiting access_token i

  abbrev pub finished : Identity → System → List Call → Filled → System
  finished i s calls f = record {
    cache = f.cache;
    calls = settled i f.result ∷ calls;
    warnings = f.warnings ++ s.warnings;
  }

  -- A call from the response on; one that has settled stays so.
  abbrev pub resume : Fetch → ℕ → System → List Call → Call → System
  resume fetch later s rest (settled i r) = record s { calls = settled i r ∷ rest }
  resume fetch later s rest (awaiting access_token i) =
      finished i s rest (use_response later i s.cache (fetch uri (codes "Bearer " ++ access_token)))

  -- The call at this place.
  unfoldable pub land : ℕ → Fetch → ℕ → List Call → System → System
  land n fetch later [] s = record s { calls = [] }
  land zero fetch later (c ∷ calls) s = resume fetch later s calls c
  land (suc n) fetch later (c ∷ calls) s =
      let t = land n fetch later calls (record s { calls = calls }) in
      record t { calls = c ∷ t.calls }

  unfoldable pub turn : Turn → System → System
  unfolding get
  turn (comes now access_token i) s = record s {
    calls = s.calls ++ begin access_token i (fresh now (get s.cache i.subject)) ∷ [];
  }
  turn (lands n fetch later) s = land n fetch later s.calls s

  unfoldable pub run : List Turn → System → System
  run [] s = s
  run (a ∷ turns) s = run turns (turn a s)
