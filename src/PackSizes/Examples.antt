-- ===== src/PackSizes/Examples.antt =====
-- The repository over a collection in memory, and the theorems of this part at an input.
use pack_service.Base.{ℕ, ◌≡◌, refl, List, [], ◌∷◌, none, some}
use pack_service.Base.Int.{ℤ, pos}
use pack_service.Breaker.{open_state, new, default_config, admit}
use pack_service.Handler.{PackSizeConfig}
use pack_service.TtlCache.Client.{timed_cache}
use pack_service.PackSizes.{
  active_is_true, Reads, new_config, list, plain_repository, Guarded, guarded, guarded_repository,
  invalid_request, not_found, internal_error, history_ok, refused, circuit_open,
  get_active_pack_sizes, update_pack_sizes, list_pack_sizes, service_update,
}
use pack_service.PackSizes.Active.{active_count, IsSingle, creating, run_calls, run_calls-IsSingle}
use pack_service.PackSizes.ReadBack.{guarded_service}
use pack_service.PackSizes.Memory.{memory, memory-CollectionLaws, empty-IsSingle}
use Prim.Native.String.{String}

abbrev at : ℕ → String → Reads
at t id = record {
  admitted_at = t;
  changed_at = t;
  created_at = t;
  updated_at = t;
  ended_at = t;
  new_id = id;
}

abbrev threes : List ℤ
threes = pos 3 ∷ []

abbrev empty_db : Guarded (List PackSizeConfig)
empty_db = record { inner = []; breaker = new }

run_calls-IsSingle_example :
    IsSingle memory memory-CollectionLaws
      (run_calls
        (guarded_repository default_config (plain_repository memory))
        (creating threes "a" (at 1 "x") ∷ creating (pos 5 ∷ []) "b" (at 2 "y") ∷ [])
        empty_db).inner
run_calls-IsSingle_example =
    run_calls-IsSingle memory memory-CollectionLaws default_config
      (creating threes "a" (at 1 "x") ∷ creating (pos 5 ∷ []) "b" (at 2 "y") ∷ []) empty_db
      empty-IsSingle

-- Two calls of `Create` that overlap: both switch the old configurations off before either puts its
-- own in, and two are active.
overlap :
    active_count
      (memory.insert_one
        (new_config (pos 5 ∷ []) "b" (at 2 "y"))
        (memory.insert_one
          (new_config threes "a" (at 1 "x"))
          (memory.deactivate_many active_is_true 2
            (memory.deactivate_many active_is_true 1 []).0).0).0).0
    ≡ 2
unfolding memory
overlap = refl

abbrev refusing : Guarded (List PackSizeConfig)
refusing = record { inner = []; breaker = record new { state = open_state; last_failure_time = 9 } }

-- An empty list of sizes, a service without a repository, and the history with no limit.
no_sizes :
    (update_pack_sizes
      (guarded_service memory default_config)
      (timed_cache (λ n. n))
      (some (record { sizes = []; created_by = "a" }))
      (at 1 "x")
      empty_db
      none).2
    ≡ invalid_request
unfolding update_pack_sizes
no_sizes = refl

no_repository : (get_active_pack_sizes none (at 1 "") empty_db).1 ≡ internal_error
unfolding get_active_pack_sizes
no_repository = refl

history :
    (list_pack_sizes (guarded_service memory default_config) none (at 1 "") empty_db).1
    ≡ history_ok []
unfolding list_pack_sizes guarded_repository plain_repository guarded list memory admit new
history = refl

-- While the breaker is open an update fails, and there is nothing to show.
update_refused :
    (service_update (guarded_service memory default_config) "x" threes "a" (at 10 "") refusing).1
    ≡ refused circuit_open
unfolding service_update guarded_repository guarded admit new
update_refused = refl

nothing_shown :
    (get_active_pack_sizes (guarded_service memory default_config) (at 10 "") refusing).1
    ≡ not_found
unfolding get_active_pack_sizes guarded_repository guarded admit new
nothing_shown = refl
