-- ===== src/Policy/Rr.antt =====
-- A2-zengzix2/src/csc369_policy_rr.c: round robin.
use csc369_os_a.Base.{ℕ, ◌+◌, ◌%◌, ◌^◌, pure, ◌>>=◌, ◌>>◌, gets, modify}
use csc369_os_a.Machine.{Sim}

-- CSC369_PolicyRROnRef
unfoldable pub rr_on_ref : ℕ → Sim (Unit {0})
rr_on_ref frame = pure tt

-- CSC369_PolicyRREvict
unfoldable pub rr_evict : Sim ℕ
rr_evict = do
  victim ← gets (λ m. m.rr_next)
  modify λ m. record m { rr_next = ((m.rr_next + 1) % 2 ^ 64) % m.memsize }
  pure victim
