-- ===== src/Packs.antt =====
-- internal/domain/model/pack.go: packs and the result of a calculation. The children model
-- internal/service/pack_calculator.go.
pub mod Selection
pub mod Table
mod Relax
pub mod Fill
mod Minimum
mod Counting
pub mod Pool
pub mod Optimal
pub mod Sorting
pub mod Service
pub mod Breakdown
pub mod Calculator
mod Examples
use pack_service.Base.{ℕ, List, []}
use pack_service.Base.Int.{ℤ, pos}

-- `Pack`: a size and how many packs of it.
pub record Pack : Type 0 where
  pub size : ℤ
  pub quantity : ℕ

pub record PackResult : Type 0 where
  pub ordered_items : ℤ
  pub total_items : ℤ
  pub packs : List Pack

-- `Empty`
abbrev pub empty : ℤ → PackResult
empty ordered = record { ordered_items = ordered; total_items = pos 0; packs = [] }
