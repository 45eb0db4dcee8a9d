-- ===== src/Api/Routes/Guarded.antt =====
-- What the token of internal/api/api.go protects.
use droidpool.Prelude.{
  map, ◌≡◌, refl, ◌⊎◌, inl, inr, Bool, true, false, ◌&&◌, ◌||◌, List, [], ◌∷◌, All, Text, codes,
  text_eq, arith, Bool-cases,
}
use droidpool.Api.Routes.{
  Route, routes, matches, serves, has_token, Served, not_found, wrong_method, unauthorized, moved,
  is_moved, dispatch, serve,
}

abbrev pub lease_path : List Text → List Text
lease_path rest = codes "api" ∷ codes "leases" ∷ rest

-- The route asks for the token or is for no path of leases.
abbrev Protects : List Text → Route → Type 0
Protects rest r = (r.guarded ≡ true) ⊎ (matches r.path (lease_path rest) ≡ false)

abbrev pub IsRefusal : Served → Type 0
IsRefusal s = (s ≡ not_found) ⊎ (s ≡ wrong_method) ⊎ (s ≡ unauthorized)

dispatch-IsRefusal :
    (rs : List Route) (seen : Bool) (token authorization method : Text) (rest : List Text)
    → has_token token authorization ≡ false
    → All (Protects rest) rs
    → IsRefusal (dispatch rs seen token authorization method (lease_path rest))
unfolding dispatch
dispatch-IsRefusal [] true token authorization method rest no_token h = inr (inl refl)
dispatch-IsRefusal [] false token authorization method rest no_token h = inl refl
dispatch-IsRefusal (r ∷ rs) seen token authorization method rest no_token (p, ps) =
    elim (Bool-cases (matches r.path (lease_path rest) && serves r.method method)) [
      | inr other ↦ rw other (
          dispatch-IsRefusal rs (seen || matches r.path (lease_path rest)) token authorization
            method rest no_token ps)
      | inl here ↦ elim p [
        | inl guarded ↦ rw (here, guarded, no_token) (inr (inr refl))
        | inr elsewhere ↦ absurd (ground (arith, here, elsewhere))
      ]
    ]

routes-Protect : (rest : List Text) → All (Protects rest) routes
unfolding routes matches text_eq
routes-Protect rest = (
  inr refl,
  (
    inl refl,
    (
      inl refl,
      (
        inl refl,
        (
          inl refl,
          (
            inl refl,
            (
              inl refl,
              (
                inl refl,
                (
                  inr refl,
                  (
                    inr refl,
                    (
                      inr refl,
                      (
                        inr refl,
                        (
                          inr refl,
                          (
                            inr refl,
                            (
                              inr refl,
                              (
                                inr refl,
                                (
                                  inr refl,
                                  (inr refl, (inr refl, (inr refl, (inr refl, (inr refl, tt))))),
                                ),
                              ),
                            ),
                          ),
                        ),
                      ),
                    ),
                  ),
                ),
              ),
            ),
          ),
        ),
      ),
    ),
  ),
)

-- Without the token, no request for a path below /api/leases, of whatever method, reaches a
-- handler: if the path has an empty segment before its last or a segment of one or two dots, and
-- the method is not CONNECT, it is redirected to the clean path, and otherwise it is answered by
-- 401, 404 or 405. How the percent signs of a path are undone is a parameter.
pub serve-IsRefusal :
    (unescape : Text → Text) (token authorization method : Text) (sent rest : List Text)
    → map unescape sent ≡ lease_path rest
    → has_token token authorization ≡ false
    → let answer = serve unescape token authorization method sent in
      (is_moved method sent ≡ true) × (answer ≡ moved)
      ⊎ (is_moved method sent ≡ false) × IsRefusal answer
unfolding serve
serve-IsRefusal unescape token authorization method sent rest path no_token =
    elim (Bool-cases (is_moved method sent)) [
      | inl unclean ↦ rw unclean (inl (refl, refl))
      | inr clean ↦
          rw (clean, path)
            (inr (
              refl,
              dispatch-IsRefusal routes false token authorization method rest no_token
                  (routes-Protect rest),
            ))
    ]
