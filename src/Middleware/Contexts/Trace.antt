-- ===== src/Middleware/Contexts/Trace.antt =====
-- middleware/trace_id.go with response/response.go: the trace ID of outbound requests.
use go_bananas.Base.{
  ◌≡◌, ◌⊎◌, inl, inr, refl, sym, subst, ap, ◌∙◌, true, some, [], ◌∷◌, Bytes, bytes_eq, codes, ◌==◌,
  Bool-cases, split,
}
use go_bananas.Base.{Option, List, list_beq, arith}
use go_bananas.Base.Dict
use go_bananas.Base.Dict.{Dict, lookup-insert}
use go_bananas.Webctx.{Context, with_trace_id, trace_id_from_context, unknown}
use go_bananas.Webctx.Accessors.{view, view-with}
use go_bananas.Response.{inject, round_trip, Request, header_get}
use go_bananas.Middleware.Contexts.{
  head_or_empty, valid_trace_id, set_trace_id, read_trace_id, populate_trace_id,
}

trace_id-with : (c : Context) (id : Bytes) → trace_id_from_context (with_trace_id c id) ≡ id
unfolding view
trace_id-with c id =
    ap (λ v. v.trace_id) (view-with c (record { values = some [] }) id 0 unknown []).3

-- The trace ID that the next handler finds is the one that was set before, or none, or one of 1 to
-- 128 letters, digits, dashes and underscores, whatever the client sent.
pub trace_id-valid :
    (trim_space : Bytes → Bytes) (r : Request)
    → (trace_id_from_context (populate_trace_id trim_space r) ≡ trace_id_from_context r.context)
      ⊎ (valid_trace_id (trace_id_from_context (populate_trace_id trim_space r)) ≡ true)
unfolding populate_trace_id
trace_id-valid trim_space r = elim (Bool-cases (trace_id_from_context r.context == [])) [
  | inl unset ↦ rw unset (read (header_get r (codes "X-Cloud-Trace-Context")))
  | inr set ↦ inl (rw set refl)
]
  where
    stays :
        (c : Context)
        → (id : Bytes) → trace_id_from_context c ≡ id
        → valid_trace_id id ≡ true
        → valid_trace_id (trace_id_from_context c) ≡ true
    stays c id e valid = subst (λ t. valid_trace_id t ≡ true) (sym e) valid

    trace_ok :
        (id : Bytes)
        → (trace_id_from_context (set_trace_id r.context id) ≡ trace_id_from_context r.context)
          ⊎ (valid_trace_id (trace_id_from_context (set_trace_id r.context id)) ≡ true)
    trace_ok id = elim (Bool-cases (valid_trace_id id)) [
      | inl valid ↦
          inr (stays (set_trace_id r.context id) id (rw valid (trace_id-with r.context id)) valid)
      | inr bad ↦ inl (rw bad refl)
    ]

    read :
        (v : Bytes)
        → (trace_id_from_context (read_trace_id trim_space r.context v)
            ≡ trace_id_from_context r.context)
          ⊎ (valid_trace_id (trace_id_from_context (read_trace_id trim_space r.context v)) ≡ true)
    read [] = inl refl
    read (b ∷ v) = trace_ok (trim_space (head_or_empty (split 47 (b ∷ v))))

abbrev pub trace_header : Bytes
trace_header = codes "X-Cloud-Trace-Context"

-- The header is as it was, or holds one well-formed trace ID.
abbrev pub IsSafe : Option (List Bytes) → Option (List Bytes) → Type 0
IsSafe old new = (new ≡ old) ⊎ ((id : Bytes) × (new ≡ some (id ∷ [])) × (valid_trace_id id ≡ true))

inject_request_id :
    (id : Bytes) (headers : Dict Bytes (List Bytes))
    → Dict.lookup trace_header (inject (codes "X-Request-Id") id headers)
      ≡ Dict.lookup trace_header headers
unfolding list_beq
inject_request_id [] headers = refl
inject_request_id (c ∷ id) headers =
    lookup-insert (codes "X-Request-Id") trace_header ((c ∷ id) ∷ []) headers

inject-IsSafe :
    (id : Bytes) (old : Option (List Bytes)) (headers : Dict Bytes (List Bytes))
    → Dict.lookup trace_header headers ≡ old
    → (id ≡ []) ⊎ (valid_trace_id id ≡ true)
    → IsSafe old (Dict.lookup trace_header (inject trace_header id headers))
unfolding list_beq
inject-IsSafe [] old headers same h = inl same
inject-IsSafe (c ∷ id) old headers same (inl e) = absurd (ground arith)
inject-IsSafe (c ∷ id) old headers same (inr valid) =
    inr (c ∷ id, lookup-insert trace_header trace_header ((c ∷ id) ∷ []) headers, valid)

-- A request that the traced client sends on behalf of one that came without a trace ID on its
-- context: its trace header is what the caller set, or a well-formed ID, whatever the client sent.
pub round_trip-IsSafe :
    (trim_space : Bytes → Bytes) (r : Request) (headers : Dict Bytes (List Bytes))
    → trace_id_from_context r.context ≡ []
    → IsSafe
        (Dict.lookup trace_header headers)
        (Dict.lookup trace_header (round_trip (populate_trace_id trim_space r) headers))
unfolding round_trip
round_trip-IsSafe trim_space r headers unset =
    inject-IsSafe (trace_id_from_context (populate_trace_id trim_space r))
      (Dict.lookup trace_header headers) _ (inject_request_id _ headers)
      (ends (trace_id-valid trim_space r))
  where
    ends :
        (trace_id_from_context (populate_trace_id trim_space r) ≡ trace_id_from_context r.context)
          ⊎ (valid_trace_id (trace_id_from_context (populate_trace_id trim_space r)) ≡ true)
        → (trace_id_from_context (populate_trace_id trim_space r) ≡ [])
          ⊎ (valid_trace_id (trace_id_from_context (populate_trace_id trim_space r)) ≡ true)
    ends (inl e) = inl (e ∙ unset)
    ends (inr valid) = inr valid
