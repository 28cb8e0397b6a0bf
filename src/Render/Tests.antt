-- ===== src/Render/Tests.antt =====
-- Responses of an engine with one template, which fails on empty data.
use go_bananas.Base.{
  ℕ, ◌≡◌, ◌⊎◌, refl, false, some, List, [], ◌∷◌, ◌++◌, Bytes, bytes_eq, codes, cut_suffix,
  cut_prefix, list_beq, inl, inr, split, join,
}
use go_bananas.Base.Result.{ok, panic}
use go_bananas.Paths.{join_paths, clean, walk, step, render}
use go_bananas.Render.{
  Engine, Renderer, file, directory, set_header, write_header, write, load_entries, load_templates,
  new, allowed_response_code, execute_html_template, execute_text_template, render_html_status,
  render_text, page_start, page_end,
}
use go_bananas.Render.Json.{
  Encoded, nil, multi_error, single_error, value, escape_json, render_json,
}
use go_bananas.Render.Csv.{render_csv}
use go_bananas.Render.Funcs
use go_bananas.Render.Funcs.{text, items, to_string_slice, join_strings, to_sentence}
use go_bananas.Render.Assets.{assets, generate_sri, asset_include_tag, Asset}
use go_bananas.Render.Answers.{
  Answers, RendersHtml, IsJsonOf, IsFixedJson, render_html_status-Answers, render_json-Answers,
}

program : Unit {0}
unfolding load_entries load_templates new allowed_response_code execute_html_template
    execute_text_template render_html_status render_text escape_json render_json render_csv
    to_string_slice join_strings to_sentence cut_prefix cut_suffix list_beq generate_sri assets
    asset_include_tag join_paths clean walk step render split join
program = tt

abbrev parse : Bytes → Bytes → Bytes ⊎ Bytes
parse set path = inr (set ++ path)

abbrev execute : Bytes → Bytes → Bytes → Bytes ⊎ Bytes
execute set name [] = inl (codes "no data")
execute set name (c ∷ b) = inr (c ∷ b)

abbrev engine : Engine Bytes
engine = record { Set = Bytes; fresh = []; parse_file = parse; execute = execute }

abbrev renderer : Renderer engine engine
renderer = record {
  debug = false;
  templates = some (codes "a.html");
  text_templates = some [];
  fs = some (directory ∷ file (codes "a.html") (codes "a.html") ∷ []);
}

abbrev same : Bytes → Bytes
same s = s

abbrev decimal : ℕ → Bytes
decimal n = codes "?"

new_test :
    new engine engine false (some (directory ∷ file (codes "a.html") (codes "a.html") ∷ []))
    ≡ inr renderer
unfolding program
new_test = refl

html_tests :
    (render_html_status engine engine same decimal renderer 404 (codes "a") (codes "hi") ≡ (
      set_header (codes "Content-Type") (codes "text/html; charset=UTF-8")
          ∷ write_header 404
          ∷ write (codes "hi")
          ∷ [],
      renderer,
    ))
    × (render_html_status engine engine same decimal renderer 200 (codes "a") [] ≡ (
      write_header 500 ∷ write (page_start ++ codes "An internal error occurred." ++ page_end) ∷ [],
      renderer,
    ))
    × (render_text engine engine renderer (codes "a") [] ≡ (inl (codes "no data"), renderer))
unfolding program
html_tests = (refl, refl, refl)

abbrev encode : Encoded Bytes → Bytes ⊎ Bytes
encode (multi_error msgs) = inr (codes "errors")
encode (single_error msg) = inr msg
encode (value d) = inl (codes "secret")

json_tests :
    (render_json encode decimal decimal false 200 nil
      ≡ set_header (codes "Content-Type") (codes "application/json")
        ∷ write_header 200
        ∷ write (codes "{\"ok\":true}")
        ∷ [])
    × (render_json encode decimal decimal false 302 nil
        ≡ set_header (codes "Content-Type") (codes "application/json")
          ∷ write_header 500
          ∷ write (codes "{\"error\":\"? is not a registered response code\"}")
          ∷ [])
    × (escape_json (codes "a\"b") ≡ codes "a\\\"b")
unfolding program
json_tests = (refl, refl, refl)

sentence_tests :
    (to_sentence
        (λ z. [])
        decimal
        (items (text (codes "a") ∷ text (codes "b") ∷ text (codes "c") ∷ []))
        (codes "and")
      ≡ ok (codes "a, b and, c"))
    × (join_strings (λ z. []) decimal (Funcs.string (codes "a")) (codes ",") ≡ ok [])
    × (join_strings (λ z. []) decimal Funcs.nil (codes ",") ≡ panic)
unfolding program
sentence_tests = (refl, refl, refl)

abbrev tags : List Asset → ℕ ⊎ Bytes
tags list = inr (codes "tags")

asset_tests :
    (asset_include_tag same tags false [] (codes "static/js") (inr []) []
      ≡ (inr (codes "tags"), codes "tags"))
    × (asset_include_tag same tags false [] (codes "static/js") (inl 1) (codes "tags")
        ≡ (inr (codes "tags"), codes "tags"))
unfolding program
asset_tests = (refl, refl)

render_html_status-Answers_example :
    RendersHtml engine engine same decimal false 200
      (codes "a")
      []
      (render_html_status engine engine same decimal renderer 200 (codes "a") [])
render_html_status-Answers_example =
    render_html_status-Answers engine engine same decimal renderer 200 (codes "a") []

render_json-Answers_example :
    Answers false 404
      (IsJsonOf encode decimal decimal 404 nil)
      (IsFixedJson decimal 404)
      (render_json encode decimal decimal false 404 nil)
render_json-Answers_example = render_json-Answers encode decimal decimal false 404 nil
