-- ===== src/Values.antt =====
-- The values map of a gorilla session, a map[any]any: keys and values with their dynamic types, as
-- far as flash/flash.go and session/session.go tell them apart. A map[string]struct{} stored in it
-- is a reference, so the sets of messages live in a heap.
use go_bananas.Base.{ℕ, Bool, true, false, ◌≡◌, ◌↔◌, Bytes, bytes_eq, MapKey, ◌==◌, nat_eq, arith}
use go_bananas.Base.Dict.{Dict}
use go_bananas.Base.Int.{ℤ}

-- A string of type flashKey, one of type sessionKey, or any other key.
pub data Key : Type 0 where
  flash_key : Bytes → Key
  session_key : Bytes → Key
  other_key : Bytes → Key

pub data Value : Type 0 where
  set_ref : ℕ → Value
  byte_slice : Bytes → Value
  int64 : ℤ → Value
  str : Bytes → Value
  opaque : ℕ → Value

unfoldable pub key_beq : Key → Key → Bool
key_beq (flash_key a) (flash_key b) = a == b
key_beq (session_key a) (session_key b) = a == b
key_beq (other_key a) (other_key b) = a == b
key_beq _ _ = false

pub key_beq_iff : (a b : Key) → (key_beq a b ≡ true) ↔ (a ≡ b)
unfolding key_beq
key_beq_iff (flash_key a) (flash_key b) = ground (arith, bytes_eq.equals_iff a b)
key_beq_iff (session_key a) (session_key b) = ground (arith, bytes_eq.equals_iff a b)
key_beq_iff (other_key a) (other_key b) = ground (arith, bytes_eq.equals_iff a b)
key_beq_iff _ _ = ground arith

instance abbrev pub key_eq : MapKey Key
key_eq = record { equals = key_beq; equals_iff = key_beq_iff }

abbrev pub Values : Type 0
Values = Dict Key Value
