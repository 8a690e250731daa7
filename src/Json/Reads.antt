-- ===== src/Json/Reads.antt =====
-- What a map holds after a write.
use soothe_client_go.Prelude.{String, ◌≡◌, refl, ◌==◌, eq_iff, arith, if◌then◌else◌}
use soothe_client_go.Json.{Value, Fields, end, field, get, put}

pub get-put :
    (k j : String) (v : Value) (fs : Fields) → get j (put k v fs) ≡ (if k == j then v else get j fs)
unfolding get put
get-put k j v end = refl
get-put k j v (field i w fs) = ground (arith, eq_iff k j, eq_iff i k, eq_iff i j, get-put k j v fs)
