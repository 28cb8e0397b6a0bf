-- ===== src/Render/Csv.antt =====
-- render/csv.go: responses in CSV. The data is what its MarshalCSV returns.
use go_bananas.Base.{
  ℕ, Bool, Option, none, some, List, [], ◌∷◌, ◌++◌, Bytes, codes, ◌⊎◌, inl, inr, if◌then◌else◌,
}
use go_bananas.Render.{
  Call, set_header, write_header, write, allowed_response_code, generic, unregistered,
}

abbrev pub csv_type : Call
csv_type = set_header (codes "Content-Type") (codes "text/csv")

abbrev pub file_name : Bytes → Bytes
file_name [] = codes "data.csv"
file_name (c ∷ name) = c ∷ name

abbrev pub of_csv : Bool → ℕ → Bytes → Option (Bytes ⊎ Bytes) → List Call
of_csv debug code name none = csv_type ∷ write_header code ∷ []
of_csv debug code name (some (inl e)) =
    csv_type ∷ write_header 500 ∷ write (if debug then e else generic) ∷ []
of_csv debug code name (some (inr b)) =
    csv_type
    ∷ set_header (codes "Content-Disposition") (codes "attachment;filename=" ++ file_name name)
    ∷ write_header code
    ∷ write b
    ∷ []

-- Renderer.RenderCSV, where no data is a nil marshaler
unfoldable pub render_csv : (ℕ → Bytes) → Bool → ℕ → Bytes → Option (Bytes ⊎ Bytes) → List Call
unfolding allowed_response_code
render_csv decimal debug code name csv =
    if allowed_response_code code
    then of_csv debug code name csv
    else csv_type ∷ write_header 500 ∷ write (unregistered decimal code) ∷ []
