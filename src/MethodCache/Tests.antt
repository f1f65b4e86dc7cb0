-- ===== src/MethodCache/Tests.antt =====
-- Three pages of one layout, and one that needs its render.
use stolosio.Prelude.{String, ◌≡◌, refl, none, some, List, [], ◌∷◌, true, false, arith}
use stolosio.Prelude.Dicts.{lookup}
use stolosio.MethodCache.Store.{Comparison, record_memory, entry_of}
use stolosio.MethodCache.Policy.{Settings, cache_url, cache_pattern, http_sufficient, comparison}
use stolosio.MethodCache.History.{record_each, made}
use stolosio.MethodCache.Evidence.{IsEvidenced, http_sufficient-IsEvidenced}
use stolosio.MethodCache.Stickiness.{http_sufficient-sticks}
use stolosio.MethodCache.Retention.{delete_unseen, read_table, delete_unseen-hides}
use stolosio.MethodCache.Storage.{store_each, store_each_same}

abbrev keys : String → String × String
keys url = (url, "pattern:wiki/*")

abbrev settings : Settings
settings = record { cache_ttl = 1000; pattern_min_comparisons = 2; pattern_max_contradictions = 2 }

abbrev pages : List Comparison
pages =
    comparison keys settings "wiki/a" true 100 1
    ∷ comparison keys settings "wiki/b" true 120 2
    ∷ comparison keys settings "wiki/c" false 110 3
    ∷ []

seen_page :
    http_sufficient keys settings "wiki/a" 90 9 (record_each 1000 pages []) ≡ some (cache_url 1 1)
unfolding http_sufficient record_each stolosio.MethodCache.Entry.record_comparison
seen_page = refl

new_page :
    http_sufficient keys settings "wiki/d" 90 9 (record_each 1000 pages [])
    ≡ some (cache_pattern 2 3)
unfolding http_sufficient record_each stolosio.MethodCache.Entry.record_comparison
new_page = refl

http_sufficient-IsEvidenced_example :
    IsEvidenced settings 9
      (made pages (λ k. []) (keys "wiki/d").0)
      (made pages (λ k. []) (keys "wiki/d").1)
      (http_sufficient keys settings "wiki/d" 90 9 (record_each 1000 pages []))
http_sufficient-IsEvidenced_example = http_sufficient-IsEvidenced keys settings pages "wiki/d" 90 9

http_sufficient-sticks_example :
    http_sufficient keys settings "wiki/c" 110 9 (
      record_each 1000
        (comparison keys settings "wiki/c" true 110 5
          ∷ comparison keys settings "wiki/a" true 110 6
          ∷ [])
        (record_memory 1000 (comparison keys settings "wiki/c" false 110 4) []))
    ≡ none
http_sufficient-sticks_example =
    http_sufficient-sticks keys settings "wiki/c" 110 110 4 9
      (comparison keys settings "wiki/c" true 110 5
        ∷ comparison keys settings "wiki/a" true 110 6
        ∷ [])
      [] ((omega arith, omega arith), ((omega arith, omega arith), tt)) (omega arith, omega arith)

store_each_same_example :
    entry_of (lookup "wiki/c" (store_each 1000 (λ c. false) pages []))
    ≡ lookup "wiki/c" (record_each 1000 pages [])
store_each_same_example = store_each_same 1000 (λ c. false) pages "wiki/c"

delete_unseen-hides_example :
    http_sufficient keys settings "wiki/a" 90 1500
      (read_table (delete_unseen (λ k. true) 1000 1002 (store_each 1000 (λ c. true) pages [])))
    ≡ http_sufficient keys settings "wiki/a" 90 1500
        (read_table (store_each 1000 (λ c. true) pages []))
delete_unseen-hides_example =
    delete_unseen-hides keys settings (λ c. true) (λ k. true) pages 1000 1002 1500 "wiki/a" 90
      (omega arith) (omega arith)
