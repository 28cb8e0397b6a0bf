-- ===== src/Middleware/Recorder.antt =====
-- middleware/log_requests.go: what LogRequests records of a response. A handler returns, and does
-- not take over the connection.
mod Tests
use go_bananas.Base.{
  ℕ, ◌+◌, ◌≡◌, ◌≢◌, ◌≤◌, ◌⊎◌, inl, inr, refl, Bool, true, false, ◌&&◌, not, List, [], ◌∷◌, arith,
  eqb, leb, ltb, if◌then◌else◌,
}

-- statusRecorder; the writer that it wraps takes as many bytes of a piece as the call says.
pub record Recorder : Type 0 where
  pub status : ℕ
  pub bytes : ℕ

-- A handler's calls: a status, a piece of the body of which so many bytes are taken, or a flush,
-- which http.ResponseController does on the writer that Unwrap gives.
pub data Call : Type 0 where
  header : ℕ → Call
  piece : ℕ → Call
  flush : Call

-- statusRecorder.WriteHeader
unfoldable pub write_header : ℕ → Recorder → Recorder
write_header c r = if eqb r.status 0 then record r { status = c } else r

-- statusRecorder.Write
unfoldable pub write : ℕ → Recorder → Recorder
write n r = record { status = if eqb r.status 0 then 200 else r.status; bytes = r.bytes + n }

unfoldable pub status_or_200 : Recorder → ℕ
status_or_200 r = if eqb r.status 0 then 200 else r.status

-- The recorder sees nothing of a flush.
abbrev pub record_calls : List Call → Recorder → Recorder
record_calls [] r = r
record_calls (header c ∷ cs) r = record_calls cs (write_header c r)
record_calls (piece n ∷ cs) r = record_calls cs (write n r)
record_calls (flush ∷ cs) r = record_calls cs r

-- LogRequests: the status and the number of bytes that are logged.
unfoldable pub log_requests : List Call → ℕ × ℕ
unfolding write_header write status_or_200
log_requests cs =
    let r = record_calls cs (record { status = 0; bytes = 0 }) in (status_or_200 r, r.bytes)

-- As net/http documents it, a status from 100 to 199 but 101 is informational: it is sent at once,
-- and a final status follows.
abbrev pub is_informational : ℕ → Bool
is_informational c = leb 100 c && ltb c 200 && not (eqb c 101)

-- The final status that the client gets: the first that is not informational, or 200 if a body, a
-- flush or the end of the handler comes before it.
abbrev pub sent_status : List Call → ℕ
sent_status [] = 200
sent_status (header c ∷ cs) = let rest = sent_status cs in if is_informational c then rest else c
sent_status (piece n ∷ cs) = 200
sent_status (flush ∷ cs) = 200

abbrev pub sent_bytes : List Call → ℕ
sent_bytes [] = 0
sent_bytes (header c ∷ cs) = sent_bytes cs
sent_bytes (piece n ∷ cs) = n + sent_bytes cs
sent_bytes (flush ∷ cs) = sent_bytes cs

-- No status is set before the first piece of the body.
abbrev pub LacksStatus : List Call → Type 0
LacksStatus [] = Unit
LacksStatus (header c ∷ cs) = ⊥
LacksStatus (piece n ∷ cs) = Unit
LacksStatus (flush ∷ cs) = LacksStatus cs

-- A status comes first that is valid and final, or a piece of the body, or a flush with which no
-- status follows before the body.
abbrev pub IsPlain : List Call → Type 0
IsPlain [] = Unit
IsPlain (header c ∷ cs) = (c ≡ 101) ⊎ ((200 ≤ c) × (c ≤ 999))
IsPlain (piece n ∷ cs) = Unit
IsPlain (flush ∷ cs) = LacksStatus cs

bytes_lem :
    (cs : List Call) (s b : ℕ)
    → (record_calls cs (record { status = s; bytes = b })).bytes ≡ b + sent_bytes cs
unfolding write_header write
bytes_lem [] s b = omega arith
bytes_lem (header c ∷ cs) s b = ground (arith, bytes_lem cs c b, bytes_lem cs s b)
bytes_lem (piece n ∷ cs) s b = omega (arith, bytes_lem cs (if eqb s 0 then 200 else s) (b + n))
bytes_lem (flush ∷ cs) s b = bytes_lem cs s b

status_lem :
    (cs : List Call) (s b : ℕ)
    → s ≢ 0
    → (record_calls cs (record { status = s; bytes = b })).status ≡ s
unfolding write_header write
status_lem [] s b h = refl
status_lem (header c ∷ cs) s b h = ground (arith, h, status_lem cs s b h)
status_lem (piece n ∷ cs) s b h = ground (arith, h, status_lem cs s (b + n) h)
status_lem (flush ∷ cs) s b h = status_lem cs s b h

-- A recorder without a status logs 200 if none is set before the body.
unset_lem : (cs : List Call) → LacksStatus cs → log_requests cs ≡ (200, sent_bytes cs)
unfolding log_requests status_or_200 write_header write
unset_lem [] h = refl
unset_lem (header c ∷ cs) h = absurd h
unset_lem (piece n ∷ cs) h = ground (arith, status_lem cs 200 n (omega arith), bytes_lem cs 200 n)
unset_lem (flush ∷ cs) h = unset_lem cs h

-- The status that is logged is the final one that the client gets, and the size is the number of
-- bytes of the body that the writer took, whatever the handler calls after it has set a valid status
-- that is not informational, or has written a piece of the body; and also after a flush, if no
-- status follows before the body.
pub log_requests-sent :
    (cs : List Call) → IsPlain cs → log_requests cs ≡ (sent_status cs, sent_bytes cs)
unfolding log_requests status_or_200 write_header write
log_requests-sent [] h = refl
log_requests-sent (header c ∷ cs) h =
    ground (arith, h, status_lem cs c 0 (ground (arith, h)), bytes_lem cs c 0)
log_requests-sent (piece n ∷ cs) h =
    ground (arith, status_lem cs 200 n (omega arith), bytes_lem cs 200 n)
log_requests-sent (flush ∷ cs) h = unset_lem cs h
