-- ===== src/Middleware/Csrf/Xor.antt =====
-- middleware/csrf.go: xor of byte slices, and its laws.
use Prim.Native.Nat.{bit_xor}
use go_bananas.Base.{ℕ, zero, suc, ◌<◌, ◌≡◌, refl, Bool, true, ◌&&◌, arith, eqb, eqb_iff}

check_bytes : (ℕ → Bool) → ℕ → Bool
check_bytes test zero = true
check_bytes test (suc k) = check_bytes test k && test k

check_bytes-at :
    (test : ℕ → Bool) (byte k : ℕ) → check_bytes test k ≡ true → byte < k → test byte ≡ true
unfolding check_bytes
check_bytes-at test byte zero passed below = absurd (omega arith)
check_bytes-at test byte (suc k) passed below = ground (arith, check_bytes-at test byte k)

xor_table : check_bytes (λ a. check_bytes (λ b. eqb (bit_xor (bit_xor a b) a) b) 256) 256 ≡ true
unfolding check_bytes
xor_table = refl

pub bit_xor_cancel : (a b : ℕ) → a < 256 → b < 256 → bit_xor (bit_xor a b) a ≡ b
bit_xor_cancel a b ha hb = (eqb_iff _ b).0 (
    check_bytes-at _ b 256
      (check_bytes-at (λ a. check_bytes (λ b. eqb (bit_xor (bit_xor a b) a) b) 256) a 256 xor_table
        ha)
      hb)
