-- ===== src/Response/Origin.antt =====
-- response/response.go: RealHostFromRequest.
use go_bananas.Base.{
  ◌≡◌, refl, sym, ap, Bool, true, false, [], ◌∷◌, ◌++◌, Bytes, bytes_eq, codes, list_beq,
  if◌then◌else◌, ◌==◌, ◌||◌, Bool-cases, inl, inr,
}
use mathlib.Core.List.{append-nil}
use go_bananas.Response.{Request, real_host_from_request, strip_port, with_port}

abbrev pub is_local : Bytes → Bool
is_local host = host == codes "localhost" || host == codes "127.0.0.1"

abbrev pub default_port : Bool → Bytes
default_port local = if local then codes "80" else codes "443"

-- The port part of an origin: nothing where the port is missing or the scheme's own.
abbrev pub port_part : Bool → Bytes → Bytes
port_part local port = if port == [] || port == default_port local then [] else 58 ∷ port

abbrev pub origin_of : Bool → Bytes → Bytes → Bytes
origin_of local host port =
    (if local then codes "http" else codes "https") ++ codes "://" ++ host ++ port_part local port

with_port-strip_port :
    (local : Bool) (host port : Bytes)
    → (let scheme : Bytes = if local then codes "http" else codes "https" in
        with_port scheme host (strip_port scheme port))
      ≡ origin_of local host port
unfolding list_beq
with_port-strip_port true host [] =
    ap (λ h. codes "http" ++ codes "://" ++ h) (sym (append-nil host))
with_port-strip_port false host [] =
    ap (λ h. codes "https" ++ codes "://" ++ h) (sym (append-nil host))
with_port-strip_port true host (c ∷ port) = elim (Bool-cases (c ∷ port == codes "80")) [
  | inl own ↦ rw own (ap (λ h. codes "http" ++ codes "://" ++ h) (sym (append-nil host)))
  | inr foreign ↦ rw foreign refl
]
with_port-strip_port false host (c ∷ port) = elim (Bool-cases (c ∷ port == codes "443")) [
  | inl own ↦ rw own (ap (λ h. codes "https" ++ codes "://" ++ h) (sym (append-nil host)))
  | inr foreign ↦ rw foreign refl
]

-- Of a request for a relative URL the origin is http for localhost and 127.0.0.1 and https for any
-- other host, and it names the port of the Host header unless that is the scheme's own.
pub real_host-relative :
    (hostname port : Bytes → Bytes) (r : Request)
    → r.url.scheme ≡ []
    → real_host_from_request hostname port r
      ≡ origin_of (is_local (hostname r.host)) (hostname r.host) (port r.host)
unfolding real_host_from_request
real_host-relative hostname port r h =
    rw h (go (is_local (hostname r.host)) (hostname r.host) (port r.host))
  where
    go :
        (local : Bool) (host p : Bytes)
        → with_port
            (if local then codes "http" else codes "https")
            host
            (strip_port (if local then codes "http" else codes "https") p)
          ≡ origin_of local host p
    go = with_port-strip_port
