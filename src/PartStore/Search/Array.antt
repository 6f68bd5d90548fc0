-- ===== src/PartStore/Search/Array.antt =====
-- The array container of `serialized_contains` of src/part_store.rs.
