-- ===== src/Message/Outcome.antt =====
-- The ways in which scanning a buffer ends. `MessageInterrupted` is thrown where the buffer ends
-- inside a message and `BadRedisMessage` (except/exceptions.hpp) where the bytes are no message.
pub data Outcome {ℓ} (A : Type ℓ) : Type ℓ where
  ok : A → Outcome A
  message_interrupted : Outcome A
  bad_redis_message : Outcome A
  -- A read past the end of the buffer, or an iterator before its begin: undefined in C++.
  fault : Outcome A
  -- The model's fuel ran out; no run of the program ends so.
  exhausted : Outcome A

infixl 5 ◌>>=◌
abbrev pub ◌>>=◌ {ℓ κ} : {A : Type ℓ} {B : Type κ} → Outcome A → (A → Outcome B) → Outcome B
ok a >>= f = f a
message_interrupted >>= f = message_interrupted
bad_redis_message >>= f = bad_redis_message
fault >>= f = fault
exhausted >>= f = exhausted
