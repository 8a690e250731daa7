-- ===== src/Json/Size.antt =====
-- A bound for the recursion into nested maps: what `get` finds in a map is smaller than the map.
use soothe_client_go.Prelude.{ℕ, ◌+◌, ◌≤◌, ◌<◌, String, ◌≡◌, arith}
use soothe_client_go.Json.{Value, arr, obj, Items, nil, cons, Fields, end, field, get}

mutual
  pub size_fields : Fields → ℕ
  size_fields end = 0
  size_fields (field name value rest) = size_fields rest + size value

  pub size_items : Items → ℕ
  size_items nil = 0
  size_items (cons first rest) = size_items rest + size first

  pub size : Value → ℕ
  size (obj m) = 1 + size_fields m
  size (arr items) = 1 + size_items items
  size _ = 0

pub size-get : (k : String) (fs : Fields) → size (get k fs) ≤ size_fields fs
unfolding size get
size-get k end = omega arith
size-get k (field j v fs) = ground (arith, size-get k fs)

pub size-obj : (k : String) (fs gs : Fields) → get k fs ≡ obj gs → size_fields gs < size_fields fs
unfolding size
size-obj k fs gs h = ground (arith, size-get k fs)
