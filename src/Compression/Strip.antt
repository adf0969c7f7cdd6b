-- ===== src/Compression/Strip.antt =====
-- What is left of a schema that was encoded and is read back: crates/euledb-storage/src/compression.rs.
use eule_db.Common.{
  ℕ, ◌≤◌, ◌≡◌, ◌↔◌, refl, ap, ap₂, ◌∙◌, arith, List, [], ◌∷◌, map, All, false, ok, eq_bytes,
  eq_bytes_refl, eq_of_eq_bytes, Bool-cases, inl, inr,
}
use eule_db.Common.Text.{Text, codes}
use eule_db.Audit.Line.{decimal}
use eule_db.Schema.{Field, insert_entry, has_entry}
use eule_db.Compression.{
  Compression, zstd, uncompressed, ArrowSchema, compression_key, level_key, encoding_metadata,
  extend_entries, remove_entry, encode_field, strip_field, applied_to, stripped_from, new_level,
}

-- A key that is inserted and removed leaves what removing it would.
remove_entry-insert_entry :
    (key value : Text) (m : List (Text × Text))
    → remove_entry key (insert_entry key value m) ≡ remove_entry key m
unfolding remove_entry insert_entry
remove_entry-insert_entry key value [] = rw (eq_bytes_refl key) refl
remove_entry-insert_entry key value ((k, v) ∷ rest) = elim (Bool-cases (eq_bytes k key)) [
  | inl e ↦ rw e (rw (eq_bytes_refl key) refl)
  | inr e ↦ rw e (rw e (ap (λ t. (k, v) ∷ t) (remove_entry-insert_entry key value rest)))
]

-- Another key's entry is not touched.
remove_entry-insert_other :
    (key other value : Text) (m : List (Text × Text))
    → eq_bytes other key ≡ false
    → remove_entry key (insert_entry other value m) ≡ insert_entry other value (remove_entry key m)
unfolding remove_entry insert_entry
remove_entry-insert_other key other value [] h = rw h refl
remove_entry-insert_other key other value ((k, v) ∷ rest) h = elim (Bool-cases (eq_bytes k other)) [
  | inl e ↦
      let f : eq_bytes k key ≡ false = ap (λ t. eq_bytes t key) (eq_of_eq_bytes k other e) ∙ h in
      rw (e, h, f) (rw e refl)
  | inr e ↦ elim (Bool-cases (eq_bytes k key)) [
    | inl f ↦ rw (e, f) refl
    | inr f ↦
        rw (e, f) (rw e (ap (λ t. (k, v) ∷ t) (remove_entry-insert_other key other value rest h)))
  ]
]

remove_entry_absent :
    (key : Text) (m : List (Text × Text)) → has_entry key m ≡ false → remove_entry key m ≡ m
unfolding remove_entry has_entry
remove_entry_absent key [] h = refl
remove_entry_absent key ((k, v) ∷ rest) h = elim (Bool-cases (eq_bytes k key)) [
  | inl e ↦ cc (rw e at h)
  | inr e ↦ rw e (ap (λ t. (k, v) ∷ t) (remove_entry_absent key rest (rw e at h)))
]

strip_encoded :
    (c : Compression) (m : List (Text × Text))
    → remove_entry level_key (remove_entry compression_key (extend_entries m (encoding_metadata c)))
      ≡ remove_entry level_key (remove_entry compression_key m)
unfolding encoding_metadata extend_entries
strip_encoded uncompressed m =
    ap (remove_entry level_key) (remove_entry-insert_entry compression_key (codes "none") m)
strip_encoded (zstd level) m =
    ap (remove_entry level_key) (
      remove_entry-insert_other compression_key level_key (decimal level)
        (insert_entry compression_key (codes "zstd") m) refl
      ∙ ap (insert_entry level_key (decimal level))
          (remove_entry-insert_entry compression_key (codes "zstd") m))
    ∙ remove_entry-insert_entry level_key (decimal level) (remove_entry compression_key m)

module _ {DataType : Type 0} where
  strip_fields :
      (c : Compression) (fields : List (Field DataType))
      → map strip_field (map (encode_field (encoding_metadata c)) fields) ≡ map strip_field fields
  unfolding strip_field encode_field
  strip_fields c [] = refl
  strip_fields c (f ∷ fs) =
      ap₂ (λ m rest. record f { metadata = m } ∷ rest) (strip_encoded c f.metadata)
        (strip_fields c fs)

  -- What is read back does not depend on how the table is compressed.
  stripped_from-applied_to :
      (c : Compression) (schema : ArrowSchema DataType)
      → stripped_from (applied_to c schema) ≡ stripped_from schema
  unfolding stripped_from applied_to
  stripped_from-applied_to c schema =
      ap (λ fs. record { fields = fs; schema_metadata = schema.schema_metadata })
        (strip_fields c schema.fields)

  -- A field carries none of the two encoding keys.
  pub record Unencoded (f : Field DataType) : Type 0 where
    pub no_compression : has_entry compression_key f.metadata ≡ false
    pub no_level : has_entry level_key f.metadata ≡ false

  strip_unencoded :
      (fields : List (Field DataType)) → All Unencoded fields → map strip_field fields ≡ fields
  unfolding strip_field
  strip_unencoded [] h = refl
  strip_unencoded (f ∷ fs) (u, h) =
      rw
        (
          remove_entry_absent compression_key f.metadata u.no_compression,
          remove_entry_absent level_key f.metadata u.no_level,
          strip_unencoded fs h,
        )
        refl

  -- A schema whose fields carry no encoding key of their own is read back exactly as it was declared, every
  -- other entry of its metadata included, however the table was compressed.
  pub stripped_from-applied_to_declared :
      (c : Compression) (schema : ArrowSchema DataType)
      → All Unencoded schema.fields
      → stripped_from (applied_to c schema) ≡ schema
  stripped_from-applied_to_declared c schema h =
      stripped_from-applied_to c schema
      ∙ (unfold stripped_from in
          ap (λ fs. record { fields = fs; schema_metadata = schema.schema_metadata })
            (strip_unencoded schema.fields h))

-- Exactly the levels from 1 to 22 are accepted, and they are kept as they are.
pub new_level-accepts : (level : ℕ) → (new_level level ≡ ok level) ↔ ((1 ≤ level) × (level ≤ 22))
unfolding new_level
new_level-accepts level = ground arith
