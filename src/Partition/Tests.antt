-- ===== src/Partition/Tests.antt =====
-- The partition's theorems on small inputs.
use true_pad.Partition.{
  PairSlices, partition, required_source_length, combine_sources, combine_into, all_long_enough,
}
use true_pad.Partition.Combine.{combine_sources_total, combine_sources-cons}
use true_pad.Partition.Slices.{partition_covers, auth_records_cover, records_from}
use true_pad.Base.Xor.{xor_bytes}
use true_pad.Base.Buffer.{zeros}
use true_pad.Base.{every_byte-IsBytes}
use true_pad.Base.{◌*◌, ◌≡◌, refl, [], ◌∷◌, ◌++◌, some, arith, Bytes, IsBytes, length, take}

abbrev source_a : Bytes
source_a = 1 ∷ 2 ∷ 250 ∷ []

abbrev source_b : Bytes
source_b = 7 ∷ 7 ∷ 7 ∷ 9 ∷ []

combine_sources_total_example :
    (m : Bytes) × (combine_sources (source_a ∷ source_b ∷ []) 3 ≡ some m)
    × (length m ≡ 3)
    × IsBytes m
unfolding all_long_enough
combine_sources_total_example =
    combine_sources_total source_a (source_b ∷ []) 3 (omega arith)
      (every_byte-IsBytes source_a refl, (every_byte-IsBytes source_b refl, tt)) refl

combine_sources-cons_example :
    combine_sources (source_a ∷ source_b ∷ []) 3
    ≡ some (xor_bytes (take 3 source_a) (7 ∷ 7 ∷ 7 ∷ []))
unfolding combine_sources all_long_enough combine_into
combine_sources-cons_example =
    combine_sources-cons source_a source_b [] 3 (7 ∷ 7 ∷ 7 ∷ []) refl (omega arith)

-- Two bytes and no record for each direction.
abbrev four_bytes : Bytes
four_bytes = 1 ∷ 2 ∷ 3 ∷ 4 ∷ []

abbrev four_slices : PairSlices
four_slices = record {
  ab_encryption = 1 ∷ 2 ∷ [];
  ab_authentication = [];
  ba_encryption = 3 ∷ 4 ∷ [];
  ba_authentication = [];
}

partition_covers_example :
    (four_slices.ab_encryption
        ++ (four_slices.ab_authentication
            ++ (four_slices.ba_encryption ++ four_slices.ba_authentication))
      ≡ four_bytes)
    × (length four_slices.ab_encryption ≡ 2)
    × (length four_slices.ab_authentication ≡ 32 * 0)
    × (length four_slices.ba_encryption ≡ 2)
    × (length four_slices.ba_authentication ≡ 32 * 0)
unfolding partition required_source_length
partition_covers_example = partition_covers four_bytes 2 0 four_slices refl

auth_records_cover_example : records_from (zeros 64) 0 2 ≡ some (zeros 64)
auth_records_cover_example = auth_records_cover (zeros 64) 2 refl (omega arith)
