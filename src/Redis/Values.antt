-- ===== src/Redis/Values.antt =====
-- The values that the program keeps in Redis: the texts that it writes, read as numbers or as UUIDs.
use base_backend.Prelude.{
  ℕ, ◌≡◌, ◌↔◌, refl, String, Bool, true, false, ap, arith, Equality, ◌==◌, nat_eq, string_eq,
}
use text.Mathlib.TextEquality.{eq_iff}

-- Microseconds since the epoch, the resolution of Python's `datetime`.
abbrev pub Time : Type 0
Time = ℕ

abbrev pub second : ℕ
second = 1_000_000

-- A UUID is its 128-bit number; `str` of it is injective.
abbrev pub Uuid : Type 0
Uuid = ℕ

-- `number` is a text that `int` reads, `uuid` the `str` of a UUID, `other` any other text.
pub data Value : Type 0 where
  number : ℕ → Value
  uuid : Uuid → Value
  other : String → Value

abbrev value_beq : Value → Value → Bool
value_beq (number a) (number b) = a == b
value_beq (uuid a) (uuid b) = a == b
value_beq (other a) (other b) = a == b
value_beq _ _ = false

value_beq-eq : (a b : Value) → value_beq a b ≡ true → a ≡ b
value_beq-eq (number a) (number b) h = ground arith
value_beq-eq (uuid a) (uuid b) h = ground arith
value_beq-eq (other a) (other b) h = ap other ((eq_iff a b).0 h)
value_beq-eq (number _) (uuid _) h = cc
value_beq-eq (number _) (other _) h = cc
value_beq-eq (uuid _) (number _) h = cc
value_beq-eq (uuid _) (other _) h = cc
value_beq-eq (other _) (number _) h = cc
value_beq-eq (other _) (uuid _) h = cc

value_beq_self : (a : Value) → value_beq a a ≡ true
value_beq_self (number a) = ground arith
value_beq_self (uuid a) = ground arith
value_beq_self (other a) = (eq_iff a a).1 refl

pub value_beq_iff : (a b : Value) → (value_beq a b ≡ true) ↔ (a ≡ b)
value_beq_iff a b = (value_beq-eq a b, λ h. rw h (value_beq_self b))

instance abbrev pub value_eq : Equality Value
value_eq = record { equal = value_beq; equal_iff = value_beq_iff }
