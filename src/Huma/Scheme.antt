-- ===== src/Huma/Scheme.antt =====
-- What registration does to the API's document.
use gateway_auth.Prelude.{
  ◌≡◌, ◌≢◌, refl, false, [], ◌∷◌, ◌++◌, some, if◌then◌else◌, arith, test-false, sym,
}
use gateway_auth.Text.{Bytes, same, same_iff}
use gateway_auth.Huma.{
  Dict, get, put, scheme_name, SecurityScheme, gateway_scheme, Api, schemes_of, components_of,
  register_scheme, register,
}

-- The laws of the map.
get-put :
    {V : Type 0} (k j : Bytes) (v : V) (m : Dict V)
    → get (put m k v) j ≡ (if same k j then some v else get m j)
unfolding get put
get-put k j v [] = refl
get-put k j v ((i, w) ∷ m) =
    ground (arith, same_iff k j, same_iff i k, same_iff i j, get-put k j v m)

-- The security schemes of an API's document, as the map that a reader sees.
abbrev pub schemes : {X M : Type 0} → X → Api X M → Dict SecurityScheme
schemes empty api = schemes_of (components_of empty api.components).security_schemes

-- Registration puts the scheme into the document, whether or not there were components or schemes, leaves
-- every other scheme and all other components as they were, and installs the middleware behind those
-- already there.
pub register_lem :
    {X M : Type 0} (empty : X) (api : Api X M) (enforce : M) (j : Bytes)
    → j ≢ scheme_name
    → (get (schemes empty (register empty api enforce)) scheme_name ≡ some gateway_scheme)
      × (get (schemes empty (register empty api enforce)) j ≡ get (schemes empty api) j)
      × ((components_of empty (register empty api enforce).components).others
          ≡ (components_of empty api.components).others)
      × ((register empty api enforce).middlewares ≡ api.middlewares ++ enforce ∷ [])
unfolding register
register_lem empty api enforce j ne = (
  rw (get-put scheme_name scheme_name gateway_scheme _, (same_iff scheme_name scheme_name).1 refl)
      refl,
  rw (get-put scheme_name j gateway_scheme _, other) refl,
  refl,
  unfold register_scheme in refl,
)
  where
    other : same scheme_name j ≡ false
    other = test-false _ (same_iff scheme_name j) (λ e. ne (sym e))
