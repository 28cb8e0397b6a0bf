-- ===== src/Middleware/Csrf/Check.antt =====
-- middleware/csrf.go: which mutating requests reach the next handler.
use go_bananas.Base.{
  ◌≡◌, ◌≢◌, refl, false, Option, none, some, [], ◌∷◌, Bytes, arith, length, bytes_eq, ◌==◌, eqb,
  eqb_iff, if◌then◌else◌, ap, sym, ◌∙◌, Bool-cases, inl, inr,
}
use go_bananas.Base.Result.{Result, ok, err, panic, ◌>>=◌}
use go_bananas.Session.{Session, csrf_token, store_csrf_token}
use go_bananas.Session.Access.{View, view}
use go_bananas.Session.Reads.{reads_clean, store-token, csrf_token-some}
use go_bananas.Middleware.Csrf.{
  Codec, Error, Request, unauthorized, next, Outcome, mask, random_bytes, token_from_request,
  verify, ensure_token, handle_csrf, can_skip_csrf_check, token_length, token_string, or_nil,
  or_500, unmask, lift,
}
use go_bananas.Middleware.Csrf.Masking.{IsBytes, unmask-mask}

token_again : (s : Option Session) → (csrf_token (csrf_token s).1).0 ≡ (csrf_token s).0
unfolding view
token_again s = ap {A = View} {B = Bytes} (λ v. v.token) (reads_clean s).0

-- The comparison at the end of the handler passes only a token that was read and equals the
-- existing one.
compared :
    (incoming : Result Error Bytes) (existing masked : Bytes) (s : Option Session) (out : Outcome)
    → (m : Bytes)
    → (or_nil incoming >>= λ t.
        ok (record { reply = if existing == t then next masked else unauthorized; session = s }))
      ≡ ok out
    → out.reply ≡ next m
    → existing ≢ []
    → (incoming ≡ ok existing) × (out.session ≡ s)
compared (ok t) existing masked s out m e f ne = ground (arith, bytes_eq.equals_iff existing t)
compared (err x) existing masked s out m e f ne =
    absurd (ground (arith, bytes_eq.equals_iff existing []))
compared panic existing masked s out m e f ne = absurd (ground arith)

ne_of_length : (t : Bytes) → length t ≡ token_length → t ≢ []
ne_of_length [] h = absurd (omega arith)
ne_of_length (b ∷ t) h = ground arith

module _ (codec : Codec) (r : Request) where
  verify-next :
      (existing : Bytes) (s : Option Session) (pad : Option Bytes) (out : Outcome) (m : Bytes)
      → verify codec r existing s pad ≡ ok out
      → out.reply ≡ next m
      → can_skip_csrf_check r.method ≡ false
      → existing ≢ []
      → (token_from_request codec r ≡ ok existing) × (out.session ≡ s)
  unfolding verify
  verify-next existing s pad out m e f skip ne = go (mask codec existing pad) (rw skip at e)
    where
      go :
          (masked : Result Error Bytes)
          → or_500 s masked (λ mk. or_nil (token_from_request codec r) >>= λ t.
              ok (record { reply = if existing == t then next mk else unauthorized; session = s }))
            ≡ ok out
          → (token_from_request codec r ≡ ok existing) × (out.session ≡ s)
      go (ok mk) h = compared (token_from_request codec r) existing mk s out m h f ne
      go (err x) h = absurd (ground arith)
      go panic h = absurd (ground arith)

  verify-accepts :
      (existing : Bytes) (s : Option Session) (pad : Option Bytes) (masked : Bytes)
      → mask codec existing pad ≡ ok masked
      → token_from_request codec r ≡ ok existing
      → verify codec r existing s pad ≡ ok (record { reply = next masked; session = s })
  unfolding verify
  verify-accepts existing s pad masked e f = ground (arith, bytes_eq.equals_iff existing existing)

  abbrev IsChecked : Outcome → Type 0
  IsChecked out =
      (token_from_request codec r ≡ ok (csrf_token out.session).0)
      × (length (csrf_token out.session).0 ≡ token_length)

  -- The check against a token that the session gives back.
  verify-IsChecked :
      (token : Bytes) (s : Option Session) (pad : Option Bytes) (out : Outcome) (m : Bytes)
      → (csrf_token s).0 ≡ token
      → length token ≡ token_length
      → verify codec r token s pad ≡ ok out
      → out.reply ≡ next m
      → can_skip_csrf_check r.method ≡ false
      → IsChecked out
  verify-IsChecked token s pad out m back sized e f skip =
      let (read, same) = verify-next token s pad out m e f skip (ne_of_length token sized) in
      rw (same, back) (read, sized)

  replaced-IsChecked :
      (s : Session) (t : Bytes) (pad : Option Bytes) (out : Outcome) (m : Bytes)
      → length t ≡ token_length
      → (lift (store_csrf_token (some s) t) >>= λ s'. verify codec r t s' pad) ≡ ok out
      → out.reply ≡ next m
      → can_skip_csrf_check r.method ≡ false
      → IsChecked out
  replaced-IsChecked s t pad out m sized e f skip = go (store_csrf_token (some s) t) refl e
    where
      go :
          (stored : Result Unit (Option Session))
          → store_csrf_token (some s) t ≡ stored
          → (lift stored >>= λ s'. verify codec r t s' pad) ≡ ok out
          → IsChecked out
      go (ok s') at h =
          verify-IsChecked t s' pad out m (store-token s t s' (ne_of_length t sized) at) sized h f
            skip
      go (err x) at h = absurd (ground arith)
      go panic at h = absurd (ground arith)

  -- A request with a method that the check may not skip reaches the next handler only with the
  -- session's token: the token that it carries, unmasked, is the one that the session holds
  -- afterwards, of 64 bytes, be it the one it held before or a new one. The random source gives 64
  -- bytes or fails.
  pub next-token :
      (s : Session) (fresh pad : Option Bytes) (out : Outcome) (m : Bytes)
      → ((f : Bytes) → fresh ≡ some f → length f ≡ token_length)
      → can_skip_csrf_check r.method ≡ false
      → handle_csrf codec r (some s) fresh pad ≡ ok out
      → out.reply ≡ next m
      → (token_from_request codec r ≡ ok (csrf_token out.session).0)
        × (length (csrf_token out.session).0 ≡ token_length)
  unfolding handle_csrf ensure_token random_bytes
  next-token s fresh pad out m sized skip e f =
      let (t, read) = csrf_token-some s in
      elim (Bool-cases (eqb (length (csrf_token (some s)).0) token_length)) [
        | inl old ↦
            verify-IsChecked (csrf_token (some s)).0 (csrf_token (some s)).1 pad out m
              (token_again (some s)) ((eqb_iff _ _).0 old) (rw old at e) f skip
        | inr new ↦ replace fresh sized (rw (new, read) at e)
      ]
    where
      replace :
          (o : Option Bytes)
          → ((g : Bytes) → o ≡ some g → length g ≡ token_length)
          → or_500 (some (csrf_token-some s).0) (random_bytes o) (λ t.
            lift (store_csrf_token (some (csrf_token-some s).0) t) >>= λ s'.
            verify codec r t s' pad)
            ≡ ok out
          → IsChecked out
      replace none sized' h = absurd (ground arith)
      replace (some g) sized' h =
          replaced-IsChecked (csrf_token-some s).0 g pad out m (sized' g refl) h f skip

  token_read :
      (sent token d : Bytes)
      → codec.decode [] ≡ some []
      → token_string r ≡ sent
      → codec.decode sent ≡ some d
      → unmask d ≡ ok token
      → token_from_request codec r ≡ ok token
  unfolding token_from_request unmask
  token_read sent token d empty at decodes unmasks = ground (arith, bytes_eq.equals_iff sent [])

  -- A token that an earlier page carried, masked with any 64 random bytes, is accepted from any of
  -- the three places that a request can carry it in, for every method, and the handler goes on
  -- with the session as CSRFToken left it, if the session still holds the token. The codec decodes
  -- what it encodes, and the empty string to no bytes.
  pub masked-accepted :
      (s : Session) (pad pad' sent : Bytes)
      → ((b : Bytes) → codec.decode (codec.encode b) ≡ some b)
      → codec.decode [] ≡ some []
      → length (csrf_token (some s)).0 ≡ token_length
      → IsBytes (csrf_token (some s)).0
      → (length pad ≡ token_length) × IsBytes pad
      → (length pad' ≡ token_length) × IsBytes pad'
      → mask codec (csrf_token (some s)).0 (some pad) ≡ ok sent
      → token_string r ≡ sent
      → (m : Bytes) × (handle_csrf codec r (some s) (some pad') (some pad')
          ≡ ok (record { reply = next m; session = (csrf_token (some s)).1 }))
  unfolding handle_csrf ensure_token
  masked-accepted s pad pad' sent round filled size bytes (l, h) (l', h') e at =
      let token = (csrf_token (some s)).0 in
      let ne = ne_of_length token size in
      let (m, d, masks, decodes, unmasks) =
        unmask-mask codec token pad round ne (l ∙ sym size) h bytes in
      let (m', d', masks', decodes', unmasks') =
        unmask-mask codec token pad' round ne (l' ∙ sym size) h' bytes in
      let same : m ≡ sent = ground (arith, masks) in
      (
        m',
        rw ((eqb_iff _ _).1 size) (
            verify-accepts token (csrf_token (some s)).1 (some pad') m' masks'
              (token_read sent token d filled at (rw (← same) decodes) unmasks)),
      )
