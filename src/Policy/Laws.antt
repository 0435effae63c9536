-- ===== src/Policy/Laws.antt =====
-- What the memory manager relies on of a replacement policy.
use csc369_os_a.Base.{ℕ, ◌<◌, ◌≡◌, ◌≢◌, true, false, Ptr, null}
use csc369_os_a.Base.Returns.{Returns}
use csc369_os_a.Machine.{Machine, Policy}
use csc369_os_a.Coremap.Consistent.{Consistent}
use csc369_os_a.Policy.{policy_init, policy_on_ref, policy_evict}
use csc369_os_a.Policy.Memory.{SameMemory}

-- The policy's own state, and what it knows of the frames but for frame `x`, are the same.
pub record SameQueues (x : ℕ) (m m' : Machine) : Type 0 where
  pub links : m'.links ≡ m.links
  pub clock_list : m'.clock_list ≡ m.clock_list
  pub clock_hand : m'.clock_hand ≡ m.clock_hand
  pub rr_next : m'.rr_next ≡ m.rr_next
  pub frame_count : m'.frame_count ≡ m.frame_count
  pub memsize : m'.memsize ≡ m.memsize
  pub free : (i : ℕ) → i ≢ x → (m'.frames i).free ≡ (m.frames i).free

-- No frame is in use, and the policy's variables are as they are before its init function runs.
pub record Fresh (m : Machine) : Type 0 where
  pub memsize : m.memsize ≡ m.frame_count
  pub free : (i : ℕ) → (m.frames i).free ≡ true
  pub unlinked : (e : Ptr) → (m.links.next e ≡ null) × (m.links.prev e ≡ null)
  pub clock_list : m.clock_list ≡ null
  pub rr_next : m.rr_next ≡ 0

-- `Tracked x m`: the policy keeps track of every frame in use but `x`; of all, if `x` is the frame
-- count.
pub record PolicyLaws (p : Policy) : Type 1 where
  pub Tracked : ℕ → Machine → Type 0
  pub stable : (x : ℕ) (m m' : Machine) → Tracked x m → SameQueues x m m' → Tracked x m'
  pub start :
      (m : Machine)
      → m.policy ≡ p
      → 0 < m.frame_count
      → Fresh m
      → Returns
          (λ _ m'. SameMemory m m' × (m'.stats ≡ m.stats) × Tracked m.frame_count m')
          (policy_init p m)
  pub reserve :
      (x : ℕ) (m : Machine)
      → x < m.frame_count
      → (m.frames x).free ≡ true
      → Tracked m.frame_count m
      → Tracked x m
  pub evict :
      (m : Machine)
      → m.policy ≡ p
      → 0 < m.frame_count
      → Consistent m.frame_count m
      → ((i : ℕ) → i < m.frame_count → (m.frames i).free ≡ false)
      → Tracked m.frame_count m
      → Returns
          (λ f m'. (f < m.frame_count) × SameMemory m m' × (m'.stats ≡ m.stats) × Tracked f m')
          (policy_evict p m)
  pub on_ref_new :
      (x : ℕ) (m : Machine)
      → m.policy ≡ p
      → x < m.frame_count
      → (m.frames x).free ≡ false
      → Consistent m.frame_count m
      → Tracked x m
      → Returns
          (λ _ m'. SameMemory m m' × (m'.stats ≡ m.stats) × Tracked m.frame_count m')
          (policy_on_ref p x m)
  pub on_ref_old :
      (x : ℕ) (m : Machine)
      → m.policy ≡ p
      → x < m.frame_count
      → (m.frames x).free ≡ false
      → Consistent m.frame_count m
      → Tracked m.frame_count m
      → Returns
          (λ _ m'. SameMemory m m' × (m'.stats ≡ m.stats) × Tracked m.frame_count m')
          (policy_on_ref p x m)
