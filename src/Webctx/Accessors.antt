-- ===== src/Webctx/Accessors.antt =====
-- webctx/context.go: each accessor against each setter.
use go_bananas.Base.{ℕ, ◌≡◌, Option, some, Bytes, bytes_eq, codes, list_beq}
use go_bananas.Base.Dict
use go_bananas.Base.Dict.{lookup-insert}
use go_bananas.Session.{Session}
use go_bananas.Webctx.{
  Context, Os, TemplateMap, text, with_session, session_from_context, with_nonce,
  nonce_from_context, with_template_map, template_map_from_context, with_request_id,
  request_id_from_context, with_trace_id, trace_id_from_context, with_locale, locale_from_context,
  with_principal, principal_from_context, with_operating_system, operating_system_from_context,
}

-- What the accessors return.
pub record View : Type 0 where
  pub session : Option Session
  pub nonce : Bytes
  pub request_id : Bytes
  pub trace_id : Bytes
  pub locale : Option ℕ
  pub principal : Option ℕ
  pub os : Os
  pub template : TemplateMap

unfoldable pub view : Context → View
view c = record {
  session = session_from_context c;
  nonce = nonce_from_context c;
  request_id = request_id_from_context c;
  trace_id = trace_id_from_context c;
  locale = locale_from_context c;
  principal = principal_from_context c;
  os = operating_system_from_context c;
  template = template_map_from_context c;
}

-- Each setter changes what its own accessor returns, to the value set, and no other accessor's
-- answer, except that a request ID and a trace ID are written to the template map too.
pub view-with :
    (c : Context) (s : Session) (t : Bytes) (n : ℕ) (o : Os) (m : TemplateMap)
    → (view (with_session c s) ≡ record (view c) { session = some s })
      × (view (with_nonce c t) ≡ record (view c) { nonce = t })
      × (view (with_request_id c t) ≡ record (view c) {
        request_id = t;
        template = Dict.insert (codes "requestID") (text t) (template_map_from_context c);
      })
      × (view (with_trace_id c t) ≡ record (view c) {
        trace_id = t;
        template = Dict.insert (codes "traceID") (text t) (template_map_from_context c);
      })
      × (view (with_locale c n) ≡ record (view c) { locale = some n })
      × (view (with_principal c n) ≡ record (view c) { principal = some n })
      × (view (with_operating_system c o) ≡ record (view c) { os = o })
      × (view (with_template_map c m) ≡ record (view c) { template = m })
unfolding view with_session session_from_context with_nonce nonce_from_context with_template_map
    template_map_from_context with_request_id request_id_from_context with_trace_id
    trace_id_from_context with_locale locale_from_context with_principal principal_from_context
    with_operating_system operating_system_from_context list_beq
view-with c s t n o m = (
  simp lookup-insert,
  simp lookup-insert,
  simp lookup-insert,
  simp lookup-insert,
  simp lookup-insert,
  simp lookup-insert,
  simp lookup-insert,
  simp lookup-insert,
)
