-- ===== src/Secrets/Tests.antt =====
-- Tests of the cache and an instance of its theorem.
use forcefield.Base.{
  ◌<◌, Bytes, ℕ, Bool, ◌==◌, if◌then◌else◌, ◌≤◌, length, List, ◌≡◌, [], ◌∷◌, some, false, bytes,
  refl,
}
use forcefield.Secrets.Cache.{
  default_cache_entries, new_cache, Cache, hit, missed, get_start, get_finish,
}
use forcefield.Secrets.Cache.Recent.{CacheEvent, stored, Reaches, fresh, finished, recent}
use forcefield.Secrets.Cache.Hits.{get_start-recent}

abbrev empty_cache : Cache
empty_cache = record { ttl = 10; max = 1; entries = []; lru = []; closed = false }

-- The second secret evicts the first.
abbrev one_secret : Cache
one_secret = (get_finish 5 (bytes "a") (bytes "s1") empty_cache).1

abbrev other_secret : Cache
other_secret = (get_finish 6 (bytes "b") (bytes "s2") one_secret).1

abbrev history : List CacheEvent
history = stored (bytes "b") (bytes "s2") 16 ∷ stored (bytes "a") (bytes "s1") 15 ∷ []

other_secret-Reaches : Reaches 10 1 other_secret history
unfolding get_finish new_cache
other_secret-Reaches =
    finished (finished (fresh empty_cache refl) 5 (bytes "a") (bytes "s1") refl refl) 6 (bytes "b")
      (bytes "s2") refl refl

get_start-recent_example :
    (length other_secret.entries ≤ (if 1 == 0 then default_cache_entries else 1))
    × ((context : Bool) (now : ℕ) (k v : Bytes)
        → (get_start context now k other_secret).0 ≡ hit v
        → (x : ℕ) × (recent history k ≡ some record { secret = v; expires = x }) × (now < x))
get_start-recent_example = get_start-recent 10 1 other_secret history other_secret-Reaches

hit_test : (get_start false 15 (bytes "b") other_secret).0 ≡ hit (bytes "s2")
unfolding get_start get_finish
hit_test = refl

expired_test : (get_start false 16 (bytes "b") other_secret).0 ≡ missed
unfolding get_start get_finish
expired_test = refl

evicted_test : (get_start false 7 (bytes "a") other_secret).0 ≡ missed
unfolding get_start get_finish
evicted_test = refl
