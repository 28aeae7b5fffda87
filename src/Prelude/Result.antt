-- ===== src/Prelude/Result.antt =====
-- A value or an error, for the functions that return `(T, error)`.

pub data Result (E A : Type 0) : Type 0 where
  ok : A → Result E A
  err : E → Result E A
