-- ===== src/Shared/Cache.antt =====
-- common/comcache: the handler over redis and the table of handlers. github.com/go-redis/redis and
-- encoding/json are interfaces over an unknown state `X`.
pub mod Laws
use shopble_stellar.Common.{
  ℕ, String, ◌⊎◌, inl, inr, Bool, true, false, Option, none, some, ltb, ◌==◌, string_eq,
  if◌then◌else◌,
}

-- What redis answers to GET: no such key, another error, or the bytes of the value.
pub data Found (B E : Type 0) : Type 0 where
  redis_nil : Found B E
  fails : E → Found B E
  holds : B → Found B E

pub record Redis (B E X : Type 0) : Type 0 where
  pub get : String → X → Found B E × X
  -- how many of the keys exist
  pub exists : String → X → (E ⊎ ℕ) × X
  -- the time to live in nanoseconds, 0 for none
  pub set : String → B → ℕ → X → Option E × X
  pub del : String → X → Option E × X

-- `json.Marshal` of a value, and `json.Unmarshal` into one
pub record JsonEncoder (T B E : Type 0) : Type 0 where
  pub encode : T → E ⊎ B
  pub decode : B → E ⊎ T

-- `ErrNotFound`, or the error of redis or of the encoder.
pub data CacheError (E : Type 0) : Type 0 where
  data_not_found : CacheError E
  plain : E → CacheError E

pub data Cached (E A : Type 0) : Type 0 where
  ok : A → Cached E A
  err : CacheError E → Cached E A

-- `dumpEncoder`
dumped : {T B E : Type 0} → JsonEncoder T B E → E ⊎ B → E ⊎ T
dumped encoder (inl e) = inl e
dumped encoder (inr bytes) = encoder.decode bytes

unfoldable pub dump_encoder : {T B E : Type 0} → JsonEncoder T B E → T → E ⊎ T
unfolding dumped
dump_encoder encoder from_obj = dumped encoder (encoder.encode from_obj)

module _ {T B E X : Type 0} (redis : Redis B E X) (encoder : JsonEncoder T B E) where
  decoded : E ⊎ T → Cached E T
  decoded (inl e) = err (CacheError.plain e)
  decoded (inr t) = ok t

  got : Found B E × X → Cached E T × X
  unfolding decoded
  got (redis_nil, x) = (err CacheError.data_not_found, x)
  got (fails e, x) = (err (CacheError.plain e), x)
  got (holds bytes, x) = (decoded (encoder.decode bytes), x)

  -- `RedisHandler.Get`
  unfoldable pub get_value : String → X → Cached E T × X
  unfolding got
  get_value key x = got (redis.get key x)

  counted : (E ⊎ ℕ) × X → Cached E Bool × X
  counted (inl e, x) = (err (CacheError.plain e), x)
  counted (inr n, x) = (ok (ltb 0 n), x)

  -- `RedisHandler.Exists`
  unfoldable pub exists : String → X → Cached E Bool × X
  unfolding counted
  exists key x = counted (redis.exists key x)

  replied : Option E × X → Cached E Unit × X
  replied (none, x) = (ok tt, x)
  replied (some e, x) = (err (CacheError.plain e), x)

  stored : String → ℕ → E ⊎ B → X → Cached E Unit × X
  unfolding replied
  stored key timeout (inl e) x = (err (CacheError.plain e), x)
  stored key timeout (inr bytes) x = replied (redis.set key bytes timeout x)

  -- `RedisHandler.SetEx` and `Set`
  unfoldable pub set_ex : String → T → ℕ → X → Cached E Unit × X
  unfolding stored
  set_ex key value timeout x = stored key timeout (encoder.encode value) x

  unfoldable pub set : String → T → ℕ → X → Cached E Unit × X
  set key value timeout x = set_ex key value timeout x

  -- `RedisHandler.Delete`
  unfoldable pub delete : String → X → Cached E Unit × X
  unfolding replied
  delete key x = replied (redis.del key x)

-- `RegisterCacheHandler` on the table of loaders: `none` is the panic.
unfoldable pub register_cache_handler :
    {L : Type 0} → String → L → (String → Option L) → Option (String → Option L)
register_cache_handler cache_idx loader loaders = elim (loaders cache_idx) [
  | none ↦ some (λ j. if cache_idx == j then some loader else loaders j)
  | some old ↦ none
]
