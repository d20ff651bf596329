-- ===== src/Base/Halt.antt =====
-- Code that may panic, or whose loop takes fuel.

-- What a piece of code that may run for ever or panic comes to; `stuck` is the model's own answer
-- where its fuel is used up.
pub data Halt {ℓ} (A : Type ℓ) : Type ℓ where
  done : A → Halt A
  panics stuck : Halt A

infixl 5 ◌>>=◌
abbrev pub ◌>>=◌ {ℓ κ} : {A : Type ℓ} {B : Type κ} → Halt A → (A → Halt B) → Halt B
done a >>= f = f a
panics >>= f = panics
stuck >>= f = stuck
