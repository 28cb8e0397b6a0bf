-- ===== src/Render.antt =====
-- render/renderer.go, render/html.go and render/text.go: the templates and the pages made of them.
-- Parsed template sets and data are parameters, with html/template and text/template as functions on
-- them. A response is the sequence of calls on its writer; that a write fails is only logged.
pub mod Json
pub mod Csv
pub mod Assets
pub mod Funcs
pub mod Answers
mod Tests
use go_bananas.Base.{
  ℕ, Bool, true, false, ◌||◌, Option, none, some, List, [], ◌∷◌, ◌++◌, Bytes, codes, has_suffix,
  cut_suffix, ◌⊎◌, inl, inr, eqb, any, if◌then◌else◌,
}

-- The calls on an http.ResponseWriter
pub data Call : Type 0 where
  set_header : Bytes → Bytes → Call
  write_header : ℕ → Call
  write : Bytes → Call

abbrev pub allowed_response_codes : List ℕ
allowed_response_codes = 200 ∷ 400 ∷ 401 ∷ 403 ∷ 404 ∷ 405 ∷ 409 ∷ 412 ∷ 413 ∷ 422 ∷ 429 ∷ 500 ∷ []

-- Renderer.AllowedResponseCode
unfoldable pub allowed_response_code : ℕ → Bool
allowed_response_code code = any (λ c. eqb c code) allowed_response_codes

-- What fs.WalkDir visits
pub data Entry : Type 0 where
  failed : Bytes → Entry
  directory : Entry
  file : Bytes → Bytes → Entry

-- Template sets: parsing one more file into a set, and executing a template on data
pub record Engine (Data : Type 0) : Type 1 where
  pub Set : Type 0
  pub fresh : Set
  pub parse_file : Set → Bytes → Bytes ⊎ Set
  pub execute : Set → Bytes → Data → Bytes ⊎ Bytes

abbrev pub generic : Bytes
generic = codes "An internal error occurred."

-- Buffer.WriteTo, which makes no call for an empty buffer.
abbrev pub flush : Bytes → List Call
flush [] = []
flush (c ∷ b) = write (c ∷ b) ∷ []

abbrev pub unregistered : (ℕ → Bytes) → ℕ → Bytes
unregistered decimal code = decimal code ++ codes " is not a registered response code"

abbrev pub page_start : Bytes
page_start =
    codes
      "\n<html>\n  <head>\n    <title>Internal server error</title>\n  </head>\n\n  <body>\n    <h1>Internal server error</h1>\n    <p style=\"font-family:monospace\">"

abbrev pub page_end : Bytes
page_end = codes "</p>\n  </body>\n</html>\n"

-- htmlErrTmpl, printed with a message
abbrev pub error_page : Bytes → List Call
error_page msg = write_header 500 ∷ write (page_start ++ msg ++ page_end) ∷ []

module _ {Data : Type 0} (html text : Engine Data) where
  pub record Renderer : Type 0 where
    pub debug : Bool
    pub templates : Option html.Set
    pub text_templates : Option text.Set
    pub fs : Option (List Entry)

  abbrev pub parse_failure : Bytes → Bytes → Bytes
  parse_failure path e = codes "failed to parse " ++ path ++ codes ": " ++ e

  abbrev pub parsed :
      (engine : Engine Data) → Bytes → Bytes → Bool → engine.Set → Bytes ⊎ engine.Set
  parsed engine path name false set = inr set
  parsed engine path name true set = elim (engine.parse_file set path) [
    | inl e ↦ inl (parse_failure path e)
    | inr more ↦ inr more
  ]

  abbrev pub both_parsed :
      Bytes ⊎ html.Set → (html.Set → Bytes ⊎ text.Set) → Bytes ⊎ (html.Set × text.Set)
  both_parsed (inl e) rest = inl e
  both_parsed (inr h) rest = elim (rest h) [ inl e ↦ inl e | inr t ↦ inr (h, t) ]

  abbrev pub load_entry : html.Set → text.Set → Entry → Bytes ⊎ (html.Set × text.Set)
  load_entry h t (failed e) = inl e
  load_entry h t directory = inr (h, t)
  load_entry h t (file path name) =
      both_parsed (parsed html path name (has_suffix (codes ".html") name) h)
        (λ h. parsed text path name (has_suffix (codes ".txt") name) t)

  -- The walk of loadTemplates over the file system
  unfoldable pub load_entries : html.Set → text.Set → List Entry → Bytes ⊎ (html.Set × text.Set)
  unfolding cut_suffix
  load_entries h t [] = inr (h, t)
  load_entries h t (entry ∷ entries) = elim (load_entry h t entry) [
    | inl e ↦ inl e
    | inr sets ↦ load_entries sets.0 sets.1 entries
  ]

  abbrev pub loaded : Renderer → Bytes ⊎ (html.Set × text.Set) → Option Bytes × Renderer
  loaded r (inl e) = (some (codes "failed to load templates: " ++ e), r)
  loaded r (inr sets) = (none, record r { templates = some sets.0; text_templates = some sets.1 })

  abbrev pub load_from : Renderer → Option (List Entry) → Option Bytes × Renderer
  load_from r none = (none, r)
  load_from r (some entries) = loaded r (load_entries html.fresh text.fresh entries)

  -- Renderer.loadTemplates
  unfoldable pub load_templates : Renderer → Option Bytes × Renderer
  unfolding load_entries
  load_templates r = load_from r r.fs

  abbrev pub made : Option Bytes × Renderer → Bytes ⊎ Renderer
  made (some e, r) = inl e
  made (none, r) = inr r

  -- New, of a debug option
  unfoldable pub new : Bool → Option (List Entry) → Bytes ⊎ Renderer
  unfolding load_templates
  new debug fs =
      made (
        load_templates (record { debug = debug; templates = none; text_templates = none; fs = fs }))

  abbrev pub execute_in :
      (engine : Engine Data) → Bytes → Option engine.Set → Bytes → Data → Bytes ⊎ Bytes
  execute_in engine missing none name data' = inl missing
  execute_in engine missing (some set) name data' = engine.execute set name data'

  -- Renderer.executeHTMLTemplate
  unfoldable pub execute_html_template : Renderer → Bytes → Data → Bytes ⊎ Bytes
  execute_html_template r = execute_in html (codes "no html templates are defined") r.templates

  -- Renderer.executeTextTemplate
  unfoldable pub execute_text_template : Renderer → Bytes → Data → Bytes ⊎ Bytes
  execute_text_template r = execute_in text (codes "no text templates are defined") r.text_templates

  -- The message of a failure
  abbrev pub shown : Renderer → Bytes → Bytes
  shown r e = if r.debug then e else generic

  module _ (escape : Bytes → Bytes) (decimal : ℕ → Bytes) where
    abbrev pub html_page : Renderer → ℕ → Bytes ⊎ Bytes → List Call
    html_page r code (inl e) = error_page (escape (shown r e))
    html_page r code (inr b) =
        set_header (codes "Content-Type") (codes "text/html; charset=UTF-8")
        ∷ write_header code
        ∷ flush b

    abbrev pub reloaded : ℕ → Bytes → Data → Option Bytes × Renderer → List Call × Renderer
    reloaded code name data' (some e, r) = (error_page (escape e), r)
    reloaded code name data' (none, r) = (html_page r code (execute_html_template r name data'), r)

    -- Renderer.RenderHTMLStatus
    unfoldable pub render_html_status : Renderer → ℕ → Bytes → Data → List Call × Renderer
    unfolding load_templates execute_html_template allowed_response_code
    render_html_status r code name data' =
        if allowed_response_code code
        then (if r.debug
            then reloaded code name data' (load_templates r)
            else (html_page r code (execute_html_template r name data'), r))
        else (error_page (unregistered decimal code), r)

    -- Renderer.RenderHTML
    unfoldable pub render_html : Renderer → Bytes → Data → List Call × Renderer
    unfolding render_html_status
    render_html r name data' = render_html_status r 200 name data'

    -- Renderer.RenderHTML500, with the map of a title and an error as data
    unfoldable pub render_html_500 :
        (ℕ → Bytes) → (Bytes → Bytes → Data) → Renderer → Bytes → List Call × Renderer
    unfolding render_html_status
    render_html_500 status_text titled r e =
        render_html_status r 500 (codes "500")
          (titled (status_text 500) (if r.debug then e else status_text 500))

  abbrev pub text_output : Bytes ⊎ Bytes → Bytes ⊎ List Call
  text_output (inl e) = inl e
  text_output (inr b) = inr (flush b)

  abbrev pub text_reloaded : Bytes → Data → Option Bytes × Renderer → (Bytes ⊎ List Call) × Renderer
  text_reloaded name data' (some e, r) = (inl e, r)
  text_reloaded name data' (none, r) = (text_output (execute_text_template r name data'), r)

  -- Renderer.RenderText: its error, or what it writes
  unfoldable pub render_text : Renderer → Bytes → Data → (Bytes ⊎ List Call) × Renderer
  unfolding load_templates execute_text_template
  render_text r name data' =
      if r.debug
      then text_reloaded name data' (load_templates r)
      else (text_output (execute_text_template r name data'), r)
