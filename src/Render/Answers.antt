-- ===== src/Render/Answers.antt =====
-- render: a response is complete, and outside of the debug mode it tells nothing of an error.
use go_bananas.Base.{
  ℕ, ◌≡◌, ◌≢◌, ◌⊎◌, inl, inr, refl, sym, ap, ◌∙◌, Bool, true, false, Option, none, some, List, [],
  ◌∷◌, ◌++◌, Bytes, arith, if◌then◌else◌, leb, ltb, ◌&&◌,
}
use mathlib.Core.List.{append-nil}
use go_bananas.Render.{
  Call, Engine, Renderer, set_header, write_header, write, allowed_response_code, generic, flush,
  page_start, page_end, error_page, unregistered, html_page, reloaded, load_templates,
  execute_html_template, render_html_status,
}
use go_bananas.Render.Json.{
  Value, Encoded, nil, joined_errors, errors, error, other, multi_error, single_error, value,
  escape_json, error_body, ok_body, json_response, failed_with, sent, of_value, render_json,
}

abbrev pub OnlyWrites : List Call → Type 0
OnlyWrites [] = Unit
OnlyWrites (write b ∷ calls) = OnlyWrites calls
OnlyWrites (set_header k v ∷ calls) = ⊥
OnlyWrites (write_header c ∷ calls) = ⊥

-- The headers are set, the status is written once, and then the body.
abbrev pub IsComplete : ℕ → List Call → Type 0
IsComplete status [] = ⊥
IsComplete status (set_header k v ∷ calls) = IsComplete status calls
IsComplete status (write_header c ∷ calls) = (c ≡ status) × OnlyWrites calls
IsComplete status (write b ∷ calls) = ⊥

abbrev pub body_of : List Call → Bytes
body_of [] = []
body_of (write b ∷ calls) = b ++ body_of calls
body_of (set_header k v ∷ calls) = body_of calls
body_of (write_header c ∷ calls) = body_of calls

-- A complete response: the status asked for, if it is a registered one, with the body wanted, or an
-- internal server error, with one of the fixed bodies unless in debug mode.
abbrev pub Answers : Bool → ℕ → (Bytes → Type 0) → (Bytes → Type 0) → List Call → Type 0
Answers debug code Wanted Fixed calls =
    (IsComplete code calls × (allowed_response_code code ≡ true) × Wanted (body_of calls))
    ⊎ (IsComplete 500 calls × ((debug ≡ true) ⊎ Fixed (body_of calls)))

flush-OnlyWrites : (b : Bytes) → OnlyWrites (flush b)
flush-OnlyWrites [] = tt
flush-OnlyWrites (c ∷ b) = tt

body_of-flush : (b : Bytes) → body_of (flush b) ≡ b
body_of-flush [] = refl
body_of-flush (c ∷ b) = append-nil (c ∷ b)

fixed_unless :
    (debug : Bool) (e fixed : Bytes) → (debug ≡ true) ⊎ ((if debug then e else fixed) ≡ fixed)
fixed_unless true e fixed = inl refl
fixed_unless false e fixed = inr refl

-- The pages that tell nothing of an error
abbrev pub IsFixedPage : (Bytes → Bytes) → (ℕ → Bytes) → ℕ → Bytes → Type 0
IsFixedPage escape decimal code body =
    (body ≡ page_start ++ unregistered decimal code ++ page_end)
    ⊎ (body ≡ page_start ++ escape generic ++ page_end)

module _ {Data : Type 0} (html text : Engine Data) (escape : Bytes → Bytes)
    (decimal : ℕ → Bytes) where
  html_page-Answers :
      (debug : Bool) (r : Renderer html text) (code : ℕ) (out : Bytes ⊎ Bytes)
      → allowed_response_code code ≡ true
      → (debug ≡ true) ⊎ (r.debug ≡ false)
      → Answers debug code
          (λ b. out ≡ inr b)
          (IsFixedPage escape decimal code)
          (html_page html text escape decimal r code out)
  html_page-Answers debug r code (inr b) allowed quiet =
      inl ((refl, flush-OnlyWrites b), allowed, ap inr (sym (body_of-flush b)))
  html_page-Answers debug r code (inl e) allowed (inl on) = inr ((refl, tt), inl on)
  html_page-Answers debug r code (inl e) allowed (inr off) = inr (
    (refl, tt),
    inr (
        inr (
          append-nil _
          ∙ ap (λ b. page_start ++ escape (if b then e else generic) ++ page_end) off)),
  )

  -- What is asked of a response, with the renderer after it
  abbrev pub RendersHtml : Bool → ℕ → Bytes → Data → List Call × Renderer html text → Type 0
  RendersHtml debug code name data' (calls, r) =
      Answers debug code (λ b. execute_html_template html text r name data' ≡ inr b)
        (IsFixedPage escape decimal code) calls

  reloaded-RendersHtml :
      (debug : Bool) (code : ℕ) (name : Bytes) (data' : Data) (o : Option Bytes)
      (r : Renderer html text)
      → allowed_response_code code ≡ true
      → debug ≡ true
      → RendersHtml debug code name data' (reloaded html text escape decimal code name data' (o, r))
  reloaded-RendersHtml debug code name data' (some e) r allowed on = inr ((refl, tt), inl on)
  reloaded-RendersHtml debug code name data' none r allowed on =
      html_page-Answers debug r code (execute_html_template html text r name data') allowed (inl on)

  -- RenderHTMLStatus answers completely: with the status asked for, if it is registered, and all of
  -- what the template gave, or with an internal server error. Without the debug mode its body is then
  -- one of two fixed pages, so no text of an error reaches the client.
  pub render_html_status-Answers :
      (r : Renderer html text) (code : ℕ) (name : Bytes) (data' : Data)
      → RendersHtml r.debug code name data'
          (render_html_status html text escape decimal r code name data')
  unfolding render_html_status
  render_html_status-Answers r code name data' = chosen _ _ refl refl
    where
      chosen :
          (allowed debug : Bool)
          → allowed_response_code code ≡ allowed
          → r.debug ≡ debug
          → RendersHtml r.debug code name data' (
              if allowed
              then (if debug
                  then reloaded html text escape decimal code name data'
                      (load_templates html text r)
                  else (
                    html_page html text escape decimal r code
                        (execute_html_template html text r name data'),
                    r,
                  ))
              else (error_page (unregistered decimal code), r))
      chosen false debug refused d = inr ((refl, tt), inr (inl (append-nil _)))
      chosen true true allowed on =
          reloaded-RendersHtml r.debug code name data' (load_templates html text r).0
            (load_templates html text r).1 allowed on
      chosen true false allowed off =
          html_page-Answers r.debug r code (execute_html_template html text r name data') allowed
            (inr off)

-- The bodies that tell nothing of an error
abbrev pub IsFixedJson : (ℕ → Bytes) → ℕ → Bytes → Type 0
IsFixedJson decimal code body =
    (body ≡ error_body (escape_json (unregistered decimal code)))
    ⊎ (body ≡ error_body (escape_json generic))

module _ {Data : Type 0} (encode : Encoded Data → Bytes ⊎ Bytes)
    (status_text decimal : ℕ → Bytes) where
  -- What a value is as JSON: an error becomes an object with its message, several errors one with a
  -- list, and no value the outcome that the status means.
  abbrev pub IsJsonOf : ℕ → Value Data → Bytes → Type 0
  IsJsonOf code nil b =
      ((code ≡ 200) × (b ≡ ok_body))
      ⊎ ((code ≢ 200) × (b ≡ error_body (escape_json (status_text code))))
  IsJsonOf code (joined_errors msgs) b = encode (multi_error msgs) ≡ inr b
  IsJsonOf code (errors msgs) b = encode (multi_error msgs) ≡ inr b
  IsJsonOf code (error msg) b = encode (single_error msg) ≡ inr b
  IsJsonOf code (other d) b = encode (value d) ≡ inr b

  sent-Answers :
      (debug : Bool) (code : ℕ) (out : Bytes ⊎ Bytes)
      → allowed_response_code code ≡ true
      → Answers debug code
          (λ b. out ≡ inr b)
          (IsFixedJson decimal code)
          (sent encode status_text decimal debug code out)
  sent-Answers debug code (inr b) allowed =
      inl ((refl, flush-OnlyWrites b), allowed, ap inr (sym (body_of-flush b)))
  sent-Answers true code (inl e) allowed = inr ((refl, tt), inl refl)
  sent-Answers false code (inl e) allowed = inr ((refl, tt), inr (inr (append-nil _)))

  allowed-200 : (code : ℕ) → allowed_response_code code ≡ true → ltb code 300 ≡ true → code ≡ 200
  unfolding allowed_response_code
  allowed-200 code allowed small = ground (arith, allowed, small)

  -- RenderJSON answers completely: with the status asked for, if it is registered, and all of the
  -- JSON of the value, or with an internal server error. Without the debug mode its body is then one
  -- of two fixed ones, so no text of an error reaches the client.
  pub render_json-Answers :
      (debug : Bool) (code : ℕ) (v : Value Data)
      → Answers debug code
          (IsJsonOf code v)
          (IsFixedJson decimal code)
          (render_json encode status_text decimal debug code v)
  unfolding render_json
  render_json-Answers debug code v = chosen _ refl
    where
      of_nil :
          (ok_status : Bool)
          → (leb 200 code && ltb code 300) ≡ ok_status
          → allowed_response_code code ≡ true
          → Answers debug code (IsJsonOf code nil) (IsFixedJson decimal code) (
              if ok_status
              then json_response code (write ok_body ∷ [])
              else json_response code (write (error_body (escape_json (status_text code))) ∷ []))
      of_nil true small allowed =
          inl ((refl, tt), allowed, inl (allowed-200 code allowed (ground (arith, small)), refl))
      of_nil false large allowed =
          inl ((refl, tt), allowed, inr (ground (arith, large), append-nil _))

      answered :
          (v : Value Data)
          → allowed_response_code code ≡ true
          → Answers debug code
              (IsJsonOf code v)
              (IsFixedJson decimal code)
              (of_value encode status_text decimal debug code v)
      answered nil allowed = of_nil _ refl allowed
      answered (joined_errors msgs) allowed =
          sent-Answers debug code (encode (multi_error msgs)) allowed
      answered (errors msgs) allowed = sent-Answers debug code (encode (multi_error msgs)) allowed
      answered (error msg) allowed = sent-Answers debug code (encode (single_error msg)) allowed
      answered (other d) allowed = sent-Answers debug code (encode (value d)) allowed

      chosen :
          (allowed : Bool)
          → allowed_response_code code ≡ allowed
          → Answers debug code (IsJsonOf code v) (IsFixedJson decimal code) (
              if allowed
              then of_value encode status_text decimal debug code v
              else failed_with encode status_text decimal (unregistered decimal code))
      chosen true allowed = answered v allowed
      chosen false refused = inr ((refl, tt), inr (inl (append-nil _)))
