-- ===== src/Middleware/Csrf/Masking.antt =====
-- middleware/csrf.go: unmask undoes mask.
use Prim.Native.Nat.{bit_xor}
use go_bananas.Base.{
  suc, ◌*◌, ◌/◌, ◌<◌, ◌≡◌, ◌≢◌, refl, some, [], ◌∷◌, ◌++◌, Bytes, arith, All, length, length-append,
  take-append, drop-append, ap,
}
use go_bananas.Base.Result.{ok}
use go_bananas.Middleware.Csrf.{Codec, xor, unmask, mask, random_bytes}
use go_bananas.Middleware.Csrf.Xor.{bit_xor_cancel}

abbrev pub IsBytes : Bytes → Type 0
IsBytes s = All (λ b. b < 256) s

-- The bytes masked by random ones of the same number, and how they come back.
pub record Masked (b raw masked : Bytes) : Type 0 where
  pub runs : xor b raw ≡ ok masked
  pub size : length masked ≡ length raw
  pub undone : xor masked b ≡ ok raw

pub xor_lem :
    (b raw : Bytes)
    → length b ≡ length raw
    → IsBytes b
    → IsBytes raw
    → (masked : Bytes) × Masked b raw masked
unfolding xor
xor_lem [] [] e h k = ([], record { runs = refl; size = refl; undone = refl })
xor_lem [] (y ∷ raw) e h k = absurd (omega arith)
xor_lem (x ∷ b) [] e h k = absurd (omega arith)
xor_lem (x ∷ b) (y ∷ raw) e (hx, h) (hy, k) =
    let (m, r) = xor_lem b raw (omega arith) h k in
    (
      bit_xor x y ∷ m,
      record {
        runs = rw r.runs refl;
        size = ap suc r.size;
        undone = rw r.undone (rw (bit_xor_cancel x y hx hy) refl);
      },
    )

unmask-append :
    (b raw masked : Bytes)
    → raw ≢ []
    → length b ≡ length raw
    → Masked b raw masked
    → unmask (b ++ masked) ≡ ok raw
unfolding unmask
unmask-append b [] masked ne e r = absurd (ne refl)
unmask-append b (y ∷ raw) masked ne e r =
    let total : length (b ++ masked) ≡ length b * 2 =
      omega (arith, length-append b masked, r.size) in
    let half : length (b ++ masked) / 2 ≡ length b = omega (arith, total) in
    rw half
      (rw (take-append b masked) (rw (drop-append b masked) (ground (arith, r.undone, total))))

-- A non-empty token masked by as many random bytes, encoded and decoded again, is unmasked to
-- itself: whatever the random bytes are, and whatever codec decodes what it encodes.
pub unmask-mask :
    (codec : Codec) (raw pad : Bytes)
    → ((s : Bytes) → codec.decode (codec.encode s) ≡ some s)
    → raw ≢ []
    → length pad ≡ length raw
    → IsBytes pad
    → IsBytes raw
    → (masked : Bytes) × (decoded : Bytes) × (mask codec raw (some pad) ≡ ok masked)
      × (codec.decode masked ≡ some decoded)
      × (unmask decoded ≡ ok raw)
unfolding mask random_bytes
unmask-mask codec raw pad round ne e h k =
    let (m, r) = xor_lem pad raw e h k in
    (codec.encode (pad ++ m), pad ++ m, rw r.runs refl, round _, unmask-append pad raw m ne e r)
