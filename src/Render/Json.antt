-- ===== src/Render/Json.antt =====
-- render/json.go: responses in JSON. The JSON encoder and http.StatusText are parameters.
use go_bananas.Base.{
  ℕ, Bool, ◌&&◌, List, [], ◌∷◌, ◌++◌, Bytes, codes, ◌⊎◌, inl, inr, eqb, leb, ltb, if◌then◌else◌,
}
use go_bananas.Render.{
  Call, set_header, write_header, write, allowed_response_code, generic, flush, unregistered,
}

-- What RenderJSON tells apart in its argument, an error by its message
pub data Value (Data : Type 0) : Type 0 where
  nil : Value Data
  joined_errors : List Bytes → Value Data
  errors : List Bytes → Value Data
  error : Bytes → Value Data
  other : Data → Value Data

-- What is encoded: the structs multiError and singleError, or the value
pub data Encoded (Data : Type 0) : Type 0 where
  multi_error : List Bytes → Encoded Data
  single_error : Bytes → Encoded Data
  value : Data → Encoded Data

-- escapeJSON
unfoldable pub escape_json : Bytes → Bytes
escape_json [] = []
escape_json (c ∷ s) = let rest = escape_json s in if eqb c 34 then 92 ∷ 34 ∷ rest else c ∷ rest

-- jsonErrTmpl, printed with a message
abbrev pub error_body : Bytes → Bytes
error_body msg = codes "{\"error\":\"" ++ msg ++ codes "\"}"

abbrev pub ok_body : Bytes
ok_body = codes "{\"ok\":true}"

abbrev pub json_response : ℕ → List Call → List Call
json_response code body =
    set_header (codes "Content-Type") (codes "application/json") ∷ write_header code ∷ body

module _ {Data : Type 0} (encode : Encoded Data → Bytes ⊎ Bytes)
    (status_text decimal : ℕ → Bytes) where
  abbrev pub failed_with : Bytes → List Call
  failed_with msg = json_response 500 (write (error_body (escape_json msg)) ∷ [])

  abbrev pub sent : Bool → ℕ → Bytes ⊎ Bytes → List Call
  sent debug code (inl e) = failed_with (if debug then e else generic)
  sent debug code (inr b) = json_response code (flush b)

  abbrev pub of_value : Bool → ℕ → Value Data → List Call
  of_value debug code nil =
      if leb 200 code && ltb code 300
      then json_response code (write ok_body ∷ [])
      else json_response code (write (error_body (escape_json (status_text code))) ∷ [])
  of_value debug code (joined_errors msgs) = sent debug code (encode (multi_error msgs))
  of_value debug code (errors msgs) = sent debug code (encode (multi_error msgs))
  of_value debug code (error msg) = sent debug code (encode (single_error msg))
  of_value debug code (other d) = sent debug code (encode (value d))

  -- Renderer.RenderJSON
  unfoldable pub render_json : Bool → ℕ → Value Data → List Call
  unfolding allowed_response_code escape_json
  render_json debug code v =
      if allowed_response_code code
      then of_value debug code v
      else failed_with (unregistered decimal code)

  -- Renderer.RenderJSON500, with the map of an error as data
  unfoldable pub render_json_500 : (Bytes → Data) → Bool → Bytes → List Call
  unfolding render_json
  render_json_500 error_map debug e =
      render_json debug 500 (other (error_map (if debug then e else status_text 500)))
