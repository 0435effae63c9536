-- ===== src/Policy/Rand.antt =====
-- A2-zengzix2/src/csc369_policy_rand.c: a random victim. What `random` returns is a sequence.
use csc369_os_a.Base.{ℕ, ◌+◌, ◌%◌, pure, ◌>>=◌, ◌>>◌, gets, modify}
use csc369_os_a.Machine.{Sim}

-- CSC369_PolicyRandOnRef
unfoldable pub rand_on_ref : ℕ → Sim (Unit {0})
rand_on_ref frame = pure tt

-- CSC369_PolicyRandEvict
unfoldable pub rand_evict : Sim ℕ
rand_evict = do
  m ← gets (λ m. m)
  modify λ m. record m { random_calls = m.random_calls + 1 }
  pure (m.random m.random_calls % m.memsize)
