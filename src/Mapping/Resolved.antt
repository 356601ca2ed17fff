-- ===== src/Mapping/Resolved.antt =====
-- backend/src/trace/output/resolved_mapping.cpp: the cache lines of a resolved source access.
use Prim.Native.String.{String}
use yet_another_reuse_distan.Prelude.{
  ℕ, List, [], Option, none, some, Result, ok, throw, ◌>>=◌, invalid_argument,
}
use yet_another_reuse_distan.Mapping.Address.{CacheGeometry}
use yet_another_reuse_distan.Mapping.Types.{
  CacheLineMapping, CacheLineAddressRange, AddressBasis, AccessOperation,
}
use yet_another_reuse_distan.Mapping.LineMapping.{LineSink, for_each_cache_line, push_back}
use yet_another_reuse_distan.Trace.Budget.{TraceEmissionBudget, consume_line_reference}

pub record ResolvedAccess : Type 0 where
  pub object_id : String
  pub object_byte_offset : ℕ
  pub access_size : ℕ
  pub linked_byte_address : ℕ
  pub address_basis : AddressBasis
  pub operation : AccessOperation
  pub source_access_ordinal : ℕ

unfoldable pub range_of : ResolvedAccess → CacheLineAddressRange
range_of a = record {
  object_id = a.object_id;
  object_byte_offset = a.object_byte_offset;
  access_size = a.access_size;
  linked_byte_address = a.linked_byte_address;
  address_basis = a.address_basis;
}

-- The row with the operation and the ordinal of its access.
unfoldable pub annotate : ResolvedAccess → CacheLineMapping → CacheLineMapping
annotate a m = record m { operation = a.operation; source_access_ordinal = a.source_access_ordinal }

module _ {S : Type 0} where
  unfoldable pub for_each_access_line :
      ResolvedAccess → CacheGeometry → Option (LineSink S) → S → Result S
  unfolding range_of annotate
  for_each_access_line a g none s = throw invalid_argument
  for_each_access_line a g (some sink) s =
      for_each_cache_line (range_of a) g (some (λ t m. sink t (annotate a m))) s

module _ {S : Type 0} where
  -- A row is charged to the budget before it is delivered; the budget is part of the state.
  unfoldable pub budgeted : LineSink S → LineSink (TraceEmissionBudget × S)
  budgeted sink (budget, s) m = do
    budget' ← consume_line_reference budget
    s' ← sink s m
    ok (budget', s')

  unfoldable pub for_each_budgeted_line :
      ResolvedAccess
      → CacheGeometry
      → Option (LineSink S)
      → TraceEmissionBudget × S
      → Result (TraceEmissionBudget × S)
  unfolding for_each_access_line budgeted
  for_each_budgeted_line a g none s = throw invalid_argument
  for_each_budgeted_line a g (some sink) s = for_each_access_line a g (some (budgeted sink)) s

unfoldable pub map_access_lines : ResolvedAccess → CacheGeometry → Result (List CacheLineMapping)
unfolding for_each_access_line
map_access_lines a g = for_each_access_line a g (some push_back) []
