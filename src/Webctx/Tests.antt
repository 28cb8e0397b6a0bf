-- ===== src/Webctx/Tests.antt =====
-- The accessors at a concrete context.
use go_bananas.Base.{◌≡◌, refl, some, [], ◌∷◌, codes, bytes_eq, list_beq}
use go_bananas.Base.Dict
use go_bananas.Session.{Session}
use go_bananas.Webctx.{
  Context, ios, text, with_session, with_nonce, with_request_id, with_trace_id, with_locale,
  with_principal, with_operating_system, with_template_map, template_map_from_context, title,
}
use go_bananas.Webctx.Accessors.{view, view-with}

abbrev context : Context
context = with_nonce [] (codes "n")

abbrev session : Session
session = record { values = some [] }

-- A second title is put before the first.
title_test :
    title (λ n. []) (codes "b") (codes "b") (title (λ n. []) (codes "a") (codes "a") [])
    ≡ (codes "title", text (codes "b | a")) ∷ []
unfolding title Dict.lookup Dict.insert list_beq
title_test = refl

view-with_example :
    (view (with_session context session) ≡ record (view context) { session = some session })
    × (view (with_nonce context (codes "t")) ≡ record (view context) { nonce = codes "t" })
    × (view (with_request_id context (codes "t")) ≡ record (view context) {
      request_id = codes "t";
      template =
          Dict.insert (codes "requestID") (text (codes "t")) (template_map_from_context context);
    })
    × (view (with_trace_id context (codes "t")) ≡ record (view context) {
      trace_id = codes "t";
      template =
          Dict.insert (codes "traceID") (text (codes "t")) (template_map_from_context context);
    })
    × (view (with_locale context 1) ≡ record (view context) { locale = some 1 })
    × (view (with_principal context 1) ≡ record (view context) { principal = some 1 })
    × (view (with_operating_system context ios) ≡ record (view context) { os = ios })
    × (view (with_template_map context []) ≡ record (view context) { template = [] })
view-with_example = view-with context session (codes "t") 1 ios []
