-- ===== src/State/Clearing.antt =====
-- What the clear functions remove and keep, and that states survive being written as text.
use k8s_drain_surge.Base.{String, ◌≡◌, refl, none, List, [], ◌∷◌, arith, eq_iff, if◌then◌else◌}
use k8s_drain_surge.Base.Maps.{GoMap, erase}
use k8s_drain_surge.State.{DrainState, drain_state, text, erase_all, mem_key}

-- The constants that the controller writes are read back as themselves.
pub drain_state-text :
    (drain_state "" ≡ DrainState.none)
    × (drain_state "scaled-up" ≡ DrainState.scaled_up)
    × (drain_state "ready" ≡ DrainState.ready)
    × (drain_state "draining" ≡ DrainState.draining)
    × (drain_state "done" ≡ DrainState.done)
unfolding drain_state
drain_state-text = (refl, refl, refl, refl, refl)

-- The loop of the clear functions removes exactly the keys of its list.
pub erase_all-at :
    (keys : List String) (m : GoMap String) (k : String)
    → erase_all keys m k ≡ (if mem_key keys k then none else m k)
erase_all-at [] m k = refl
erase_all-at (key ∷ keys) m k = ground (arith, erase_all-at keys (erase key m) k)

-- Reading a state text and writing it again gives the text back, for every text.
pub text-drain_state : (s : String) → text (drain_state s) ≡ s
unfolding drain_state
text-drain_state s = ground (
  arith,
  eq_iff s "",
  eq_iff s "pending",
  eq_iff s "scaled-up",
  eq_iff s "ready",
  eq_iff s "draining",
  eq_iff s "done",
)
