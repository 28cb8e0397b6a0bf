-- ===== src/Middleware/Recorder/Tests.antt =====
-- What is logged of concrete responses.
use go_bananas.Base.{◌≡◌, refl, inr, List, [], ◌∷◌, arith}
use go_bananas.Middleware.Recorder.{
  Call, header, piece, flush, write_header, write, status_or_200, log_requests, sent_status,
  sent_bytes, log_requests-sent,
}

abbrev calls : List Call
calls = piece 3 ∷ header 404 ∷ flush ∷ piece 2 ∷ []

-- Early hints are logged as the status.
informational_test :
    (log_requests (header 103 ∷ header 404 ∷ calls) ≡ (103, 5))
    × (sent_status (header 103 ∷ header 404 ∷ calls) ≡ 404)
unfolding log_requests write_header write status_or_200
informational_test = (refl, refl)

-- A status after a flush is logged, but not sent.
flush_test :
    (log_requests (flush ∷ header 404 ∷ calls) ≡ (404, 5))
    × (sent_status (flush ∷ header 404 ∷ calls) ≡ 200)
unfolding log_requests write_header write status_or_200
flush_test = (refl, refl)

log_requests-sent_example :
    log_requests (header 201 ∷ calls)
    ≡ (sent_status (header 201 ∷ calls), sent_bytes (header 201 ∷ calls))
log_requests-sent_example = log_requests-sent (header 201 ∷ calls) (inr (omega arith, omega arith))
