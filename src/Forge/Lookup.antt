-- ===== src/Forge/Lookup.antt =====
-- `LookupCache` and `cached_lookup` of hunter-rs/src/forge.rs. Times are milliseconds; the map is a
-- function from its keys. The lock is not held while the forge is ask_forge, so the cache that the
-- answer is recorded in is given apart from the one that was read; `locks` is false when the lock
-- is poisoned.
use bug_hunter.Prelude.{
  ℕ, ◌-◌, ◌≤◌, Bool, String, Option, none, some, str_eq, ltb, if◌then◌else◌, arith, ◌≡◌, refl,
  Bool-cases, inl, inr,
}

abbrev pub lookup_ttl : ℕ
lookup_ttl = 900_000

abbrev pub LookupCache : Type 0
LookupCache = String → Option (Bool × ℕ)

abbrev pub is_live : (now at : ℕ) → Bool
is_live now at = ltb (now - at) lookup_ttl

abbrev pub live_answer : (now : ℕ) → Option (Bool × ℕ) → Option Bool
live_answer now none = none
live_answer now (some (answer, at)) = if is_live now at then some answer else none

unfoldable pub fresh : LookupCache → String → (now : ℕ) → Option Bool
fresh cache key now = live_answer now (cache key)

-- `retain`, for one key.
abbrev pub retained : (now : ℕ) → Option (Bool × ℕ) → Option (Bool × ℕ)
retained now none = none
retained now (some (answer, at)) = if is_live now at then some (answer, at) else none

-- `LookupCache::record`, that is `record_all` of one answer.
unfoldable pub remember : String → Bool → (now : ℕ) → LookupCache → LookupCache
remember key answer now cache k =
    if str_eq k key then some (answer, now) else retained now (cache k)

abbrev pub remember_if : Bool → String → Bool → (now : ℕ) → LookupCache → LookupCache
remember_if locks key answer now cache = if locks then remember key answer now cache else cache

abbrev pub ask_forge :
    Bool → String → Option Bool → LookupCache → (later : ℕ) → Option Bool × LookupCache
ask_forge locks key none cache later = (none, cache)
ask_forge locks key (some answer) cache later =
    (some answer, remember_if locks key answer later cache)

abbrev pub reuse_or_ask :
    Bool
    → String
    → Option Bool
    → LookupCache
    → (later : ℕ) → Option Bool
    → Option Bool × LookupCache
reuse_or_ask locks key look_up cache later (some answer) = (some answer, cache)
reuse_or_ask locks key look_up cache later none = ask_forge locks key look_up cache later

-- `none` for an error of `look_up`.
unfoldable pub cached_lookup :
    (locks : Bool)
    → (key : String) → (look_up : Option Bool) → (read : LookupCache) → (now : ℕ)
    → (cache : LookupCache) → (later : ℕ) → Option Bool × LookupCache
unfolding fresh remember
cached_lookup locks key look_up read now cache later =
    reuse_or_ask locks key look_up cache later (if locks then fresh read key now else none)

-- A recorded answer serves for fifteen minutes, and recording it, with the expired answers that it
-- drops, changes nothing that any later question for another key is answered.
pub remember-fresh :
    (cache : LookupCache) (key k : String) (answer : Bool) (now t : ℕ)
    → now ≤ t
    → fresh (remember key answer now cache) k t ≡ (
        if str_eq k key
        then (if ltb (t - now) lookup_ttl then some answer else none)
        else fresh cache k t)
unfolding fresh remember
remember-fresh cache key k answer now t h = elim (Bool-cases (str_eq k key)) [
  | inl e ↦ rw e refl
  | inr e ↦ rw e (retained-live (cache k))
]
  where
    retained-live : (o : Option (Bool × ℕ)) → live_answer t (retained now o) ≡ live_answer t o
    retained-live none = refl
    retained-live (some (a, at)) = ground arith
