-- ===== src/PackSizes/ReadBack.antt =====
-- An update of the pack sizes is what is read afterwards.
use pack_service.Base.{◌≡◌, ◌⊎◌, Option, some}
use pack_service.Breaker.{Config}
use pack_service.Handler.{PackSizeConfig}
use pack_service.PackSizes.{
  Collection, Repository, plain_repository, Guarded, guarded_repository, SizesResponse,
  internal_error, sizes_ok,
}
use pack_service.PackSizes.Laws.{SameContent}
use Prim.Native.String.{String}

-- The service with its repository in the circuit breaker.
abbrev pub guarded_service : {D : Type 0} → Collection D → Config → Option (Repository (Guarded D))
guarded_service driver config = some (guarded_repository config (plain_repository driver))

-- What the endpoint says of the new configuration `c`, or an error of the database.
abbrev pub Shows : PackSizeConfig → SizesResponse → Type 0
Shows c r = (r ≡ internal_error) ⊎ ((c' : PackSizeConfig) × (r ≡ sizes_ok c') × SameContent c c')
