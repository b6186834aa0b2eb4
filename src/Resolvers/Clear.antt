-- ===== src/Resolvers/Clear.antt =====
-- What is left of a name's records when it is cleared, of
-- pallets/pns-resolvers/src/resolvers.rs.
use pns_pallets.Base.{ℕ, ◌≡◌, ◌≢◌, refl, true, false, List, [], ◌∷◌, ◌==◌, arith}
use pns_pallets.Types.{DomainHash, Bytes}
use pns_pallets.Types.Ddns.{RecordType, storage_key, same_type}
use pns_pallets.Types.Storage.{Resolvers}
use pns_pallets.Resolvers.{
  entry, keep_entry, get_record, clear_records_except_ss58, clear_all_records,
}

pub entry-keep_entry :
    (j k : ℕ) (es : List (ℕ × Bytes))
    → entry j (keep_entry k es) ≡ (elim (j == k) [ true ↦ entry j es | false ↦ [] ])
unfolding entry keep_entry
entry-keep_entry j k [] = ground arith
entry-keep_entry j k ((i, v) ∷ es) = ground (arith, entry-keep_entry j k es)

-- After a name's records have been cleared, its SS58 record reads as before, every other record of
-- it reads as empty, and the records of other names and all texts are as before; after all have been
-- cleared, no record and no text of it is left.
pub clear_records_except_ss58_lem :
    (node other : DomainHash) (t : RecordType) (r : Resolvers)
    → other ≢ node
    → same_type t RecordType.ss58 ≡ false
    → let kept = clear_records_except_ss58 node r in
      (get_record node RecordType.ss58 kept ≡ get_record node RecordType.ss58 r)
      × (get_record node t kept ≡ [])
      × (get_record other t kept ≡ get_record other t r)
      × (kept.texts ≡ r.texts)
      × ((clear_all_records node kept).records node ≡ [])
      × ((clear_all_records node r).texts node ≡ [])
      × (get_record other t (clear_all_records node r) ≡ get_record other t r)
unfolding clear_records_except_ss58 clear_all_records same_type
clear_records_except_ss58_lem node other t r different plain = (
  ground (arith, entry-keep_entry 0 0 (r.records node)),
  ground (arith, entry-keep_entry (storage_key t) 0 (r.records node)),
  ground arith,
  refl,
  ground arith,
  ground arith,
  ground arith,
)
