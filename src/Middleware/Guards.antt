-- ===== src/Middleware/Guards.antt =====
-- Middleware that lets a request pass or answers it: middleware/auth.go, middleware/header.go,
-- middleware/enabled.go, middleware/request_id.go.
-- What passes is the request as the next handler gets it.
pub mod Passes
mod Tests
use go_bananas.Base.{
  ℕ, ◌⊎◌, inl, inr, ◌-◌, ltb, zero, suc, Bool, true, false, ◌||◌, Option, none, some, List, [], ◌∷◌,
  Bytes, bytes_eq, codes, ◌==◌, if◌then◌else◌, any, map, has_suffix, eqb,
}
use go_bananas.Base.Dict
use go_bananas.Base.Dict.{Dict}
use go_bananas.Webctx.{Entry, Context, with_principal, with_request_id, request_id_from_context}
use go_bananas.Response.{
  Request, header_get, header_values, Reply, Error, caused, internal_error, unauthorized_page,
  not_found_page,
}

pub data Outcome : Type 0 where
  passes : Request → Outcome
  answers : Reply → Outcome

-- The keys of the map that holds the allowed values.
unfoldable pub is_one_of : Bytes → List Bytes → Bool
is_one_of v [] = false
is_one_of v (w ∷ ws) = w == v || is_one_of v ws

-- The loop of RequireHeaderValues, which stops at the first allowed value.
unfoldable pub find_allowed : List Bytes → List Bytes → Bool
unfolding is_one_of
find_allowed allowed [] = false
find_allowed allowed (v ∷ vs) =
    let rest = find_allowed allowed vs in if is_one_of v allowed then true else rest

abbrev next_index : Option ℕ → Option ℕ
next_index none = none
next_index (some i) = some (suc i)

-- strings.Index(s, ":"), and s[0:i] for an index above 0.
unfoldable pub index_of : ℕ → Bytes → Option ℕ
index_of b [] = none
index_of b (c ∷ s) = let rest = next_index (index_of b s) in if eqb c b then some 0 else rest

unfoldable pub before : ℕ → Bytes → Bytes
before zero s = []
before (suc n) [] = []
before (suc n) (c ∷ s) = c ∷ before n s

abbrev pub cut_at : Bytes → Option ℕ → Bytes
cut_at host none = host
cut_at host (some zero) = host
cut_at host (some (suc i)) = before (suc i) host

unfoldable pub strip_host_port : Bytes → Bytes
unfolding index_of before
strip_host_port host = cut_at host (index_of 58 host)

module _ (trim_space : Bytes → Bytes) (shown : Entry → Bytes) where
  abbrev pub pass_if : Bool → Request → Reply → Outcome
  pass_if b r reply = if b then passes r else answers reply

  abbrev pub authenticated : Request → Error ⊎ Option ℕ → Outcome
  authenticated r (inl e) = answers (internal_error trim_space shown r e)
  authenticated r (inr none) = answers (unauthorized_page trim_space shown r)
  authenticated r (inr (some p)) = passes (record r { context = with_principal r.context p })

  -- RequireAuthenticated
  unfoldable pub require_authenticated : (Request → Error ⊎ Option ℕ) → Request → Outcome
  require_authenticated authenticate r = authenticated r (authenticate r)

  unfoldable pub require_header : Bytes → Request → Outcome
  require_header name r =
      pass_if (if header_get r name == [] then false else true) r
        (unauthorized_page trim_space shown r)

  abbrev pub values_allowed : List Bytes → List Bytes → Bool
  values_allowed allowed [] = false
  values_allowed allowed (v ∷ vs) = find_allowed allowed (v ∷ vs)

  unfoldable pub require_header_values : Bytes → List Bytes → Request → Outcome
  unfolding find_allowed
  require_header_values name allowed r =
      pass_if (values_allowed allowed (header_values r name)) r
        (unauthorized_page trim_space shown r)

  unfoldable pub require_host_header : (Bytes → Bytes) → List Bytes → Bool → Request → Outcome
  unfolding is_one_of strip_host_port
  require_host_header to_lower allowed strip_port r =
      let host = to_lower r.host in
      pass_if (is_one_of (if strip_port then strip_host_port host else host) (map to_lower allowed))
        r (unauthorized_page trim_space shown r)

  unfoldable pub only_if_enabled : Bool → Request → Outcome
  only_if_enabled enabled r = pass_if enabled r (not_found_page trim_space shown r)

  abbrev pub with_new_id : Request → Error ⊎ Bytes → Outcome
  with_new_id r (inr id) = passes (record r { context = with_request_id r.context id })
  with_new_id r (inl e) = answers (internal_error trim_space shown r e)

  -- PopulateRequestID; uuid.NewRandom's result is an argument.
  unfoldable pub populate_request_id : Error ⊎ Bytes → Request → Outcome
  populate_request_id random r =
      if request_id_from_context r.context == [] then with_new_id r random else passes r
