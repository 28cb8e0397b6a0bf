-- ===== src/Server/Health.antt =====
-- server/healthz.go: the liveness and readiness handlers. The order of the checks stands for one
-- iteration order of the map; the JSON encoding of the failing names is a parameter.
use go_bananas.Base.{ℕ, Option, none, some, List, [], ◌∷◌, Bytes, codes}
use go_bananas.Base.Dict.{Dict}
use go_bananas.Base.Result.{Result, ok, err, panic}
use go_bananas.Flash.{sort}

pub record Response : Type 0 where
  pub content_type : Bytes
  pub status : ℕ
  pub body : Bytes

abbrev pub json_type : Bytes
json_type = codes "application/json"

abbrev pub ok_response : Response
ok_response = record { content_type = json_type; status = 200; body = codes "{\"status\":\"ok\"}" }

-- HealthzHandler
unfoldable pub healthz_handler : Response
healthz_handler = ok_response

-- A check: nil, an error, or a panic
abbrev pub Check : Type 0
Check = Result Bytes (Unit {0})

-- runCheck
unfoldable pub run_check : Check → Option Bytes
run_check (ok u) = none
run_check (err e) = some e
run_check panic = some (codes "check panicked")

abbrev pub add_failed : Bytes → Option Bytes → List Bytes → List Bytes
add_failed name none names = names
add_failed name (some e) names = name ∷ names

-- The loop over the checks
unfoldable pub failed_names : Dict Bytes Check → List Bytes
unfolding run_check
failed_names [] = []
failed_names ((name, check) ∷ checks) = add_failed name (run_check check) (failed_names checks)

abbrev pub ready : (List Bytes → Bytes) → List Bytes → Response
ready encode [] = ok_response
ready encode (name ∷ names) = record {
  content_type = json_type;
  status = 503;
  body = encode (sort (λ s. s) (name ∷ names));
}

-- ReadyzHandler
unfoldable pub readyz_handler : (List Bytes → Bytes) → Dict Bytes Check → Response
unfolding failed_names
readyz_handler encode checks = ready encode (failed_names checks)
