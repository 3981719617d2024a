-- ===== src/Tests/Businesses.antt =====
-- A business with a number and a short code, for
-- services/business-registry/src/business_registry/registry.py.
use Prim.Native.String.{String}
use fraudnet.Prelude.{◌≡◌, refl, none, List, [], ◌∷◌}
use fraudnet.Prelude.Dict
use fraudnet.BusinessRegistry.Tables.{no_tables}
use fraudnet.BusinessRegistry.InMemory
use fraudnet.BusinessRegistry.Linked.{Answers, run-Answers}
use fraudnet.Tests.Format.{format, format_trip, format_unmarked}
use fraudnet.BusinessRegistry.Cached
use fraudnet.BusinessRegistry.Cached.{query_msisdn, query_shortcode}
use fraudnet.BusinessRegistry.Runs.{new_registry, run-lookup_current}

abbrev same : String → String
same s = s

abbrev steps : List InMemory.Operation
steps =
    InMemory.create "b1" "Bank" none "mtn-ghana"
    ∷ InMemory.link_msisdn "b1" "+233200000001"
    ∷ InMemory.link_shortcode "b1" "BANK"
    ∷ InMemory.verify "2026-01-01" "b1"
    ∷ []

run-Answers_example :
    Answers
      (InMemory.run same steps no_tables)
      (Dict.lookup "+233200000001" (InMemory.run same steps no_tables).msisdns)
      (InMemory.lookup_msisdn "+233200000001" (InMemory.run same steps no_tables))
    × Answers
        (InMemory.run same steps no_tables)
        (Dict.lookup "BANK" (InMemory.run same steps no_tables).shortcodes)
        (InMemory.lookup_shortcode same "BANK" (InMemory.run same steps no_tables))
run-Answers_example = run-Answers same steps "+233200000001" "BANK"

-- The same steps with lookups between them, on the registry with a cache.
abbrev cached_steps : List Cached.Operation
cached_steps =
    Cached.create "b1" "Bank" none "mtn-ghana"
    ∷ Cached.link_msisdn "b1" "+233200000001"
    ∷ Cached.find_msisdn "+233200000001"
    ∷ Cached.verify "2026-01-01" "b1"
    ∷ []

run-lookup_current_example :
    ((Cached.lookup_msisdn format "+233200000001"
        (Cached.run format same cached_steps new_registry)).0
      ≡ query_msisdn "+233200000001" (Cached.run format same cached_steps new_registry).tables)
    × ((Cached.lookup_shortcode format same "BANK"
          (Cached.run format same cached_steps new_registry)).0
        ≡ query_shortcode "BANK" (Cached.run format same cached_steps new_registry).tables)
run-lookup_current_example =
    run-lookup_current format same (λ s. refl) format_trip format_unmarked cached_steps
      "+233200000001" "BANK"
