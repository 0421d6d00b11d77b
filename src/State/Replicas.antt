-- ===== src/State/Replicas.antt =====
-- The original replica count survives being written to its annotation.
use k8s_drain_surge.Base.{String, ◌≡◌, ◌≢◌, refl, none, arith, eq_iff, ap}
use k8s_drain_surge.Base.Int.{ℤ, InRange, half32, half64, int32-InRange}
use k8s_drain_surge.Base.Maps.{GoMap, insert}
use k8s_drain_surge.Errors.{ok}
use k8s_drain_surge.Strconv.{atoi, itoa}
use k8s_drain_surge.Strconv.RoundTrip.{atoi-itoa}
use k8s_drain_surge.State.{annotation_original_replicas, get_original_replicas}

atoi-empty : atoi "" ≡ none
unfolding atoi
atoi-empty = refl

itoa-not_empty : (z : ℤ) → InRange half64 z → itoa z ≢ ""
itoa-not_empty z fits e = cc (atoi-itoa z fits, ap atoi e, atoi-empty)

pub int32_fits_int64 : (z : ℤ) → InRange half32 z → InRange half64 z
int32_fits_int64 z fits = ground (arith, fits)

-- For every int32, getOriginalReplicas reads back the count that the handlers write, whatever else
-- the annotations hold.
pub get_original_replicas-itoa :
    (m : GoMap String) (n : ℤ)
    → InRange half32 n
    → get_original_replicas (insert annotation_original_replicas (itoa n) m) ≡ ok n
unfolding get_original_replicas
get_original_replicas-itoa m n fits = ground (
  arith,
  atoi-itoa n (int32_fits_int64 n fits),
  itoa-not_empty n (int32_fits_int64 n fits),
  eq_iff (itoa n) "",
  int32-InRange n fits,
)
