-- ===== src/Json/Number.antt =====
-- Python's integers, and numbers in thousandths.
use home_ai_agent.Base.{ℕ, ◌+◌, ◌*◌, Eq, ℕ_discrete}

-- `negsuc n` is -(n + 1)
pub data ℤ : Type 0 where
  pos : ℕ → ℤ
  negsuc : ℕ → ℤ

unfoldable pub ℤ-discrete : Discrete ℤ
unfolding ℕ_discrete
ℤ-discrete = hlevel ℕ_discrete

instance unfoldable pub int_eq : Eq ℤ
unfolding ℤ-discrete
int_eq = record { dec = ℤ-discrete }

-- 1000 * z
abbrev pub thousandths : ℤ → ℤ
thousandths (pos n) = pos (n * 1000)
thousandths (negsuc n) = negsuc (n * 1000 + 999)
