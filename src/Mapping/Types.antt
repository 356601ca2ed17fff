-- ===== src/Mapping/Types.antt =====
-- backend/include/yarda/access_operation.hpp, elf/address_model.hpp and cache/line_mapping.hpp: the
-- rows that a source access becomes.
use Prim.Native.String.{String}
use yet_another_reuse_distan.Prelude.{ℕ}
use yet_another_reuse_distan.Mapping.Address.{DecodedCacheAddress}

pub data AccessOperation : Type 0 where
  unknown load store : AccessOperation

pub data AddressBasis : Type 0 where
  absolute image_relative : AddressBasis

pub record CacheLineMapping : Type 0 where
  pub object_id : String
  pub object_byte_offset : ℕ
  pub address_basis : AddressBasis
  pub decoded : DecodedCacheAddress
  pub source_object_byte_offset : ℕ
  pub source_access_size : ℕ
  pub source_linked_byte_address : ℕ
  pub operation : AccessOperation
  pub source_access_ordinal : ℕ
  pub line_span_ordinal : ℕ

pub record CacheLineAddressRange : Type 0 where
  pub object_id : String
  pub object_byte_offset : ℕ
  pub access_size : ℕ
  pub linked_byte_address : ℕ
  pub address_basis : AddressBasis
