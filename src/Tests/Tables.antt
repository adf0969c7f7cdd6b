-- ===== src/Tests/Tables.antt =====
-- Schemas and capabilities at concrete inputs.
use eule_db.Common.{
  ℕ, ◌≡◌, ◌↔◌, refl, sym, ap, ◌∙◌, arith, List, [], ◌∷◌, Bytes, Bool, true, false, ok, some, none,
  Option, ◌==◌, ==_iff, eq_bytes, eq_of_eq_bytes, Bool-cases, inl, inr, if◌then◌else◌,
}
use eule_db.Common.Text.{Text}
use eule_db.Crypto.Capability.{
  Scope, read, write, Capability, tag_message, grant, new_gate, permits,
}
use eule_db.Crypto.Capability.Permits
use eule_db.Crypto.Capability.Permits.{permits-grant, tag_message-injective}
use eule_db.Crypto.Keyring.{Keyring}
use eule_db.Schema.{
  Field, validate, check_declared, check_present, check_column, auto_embedding,
  auto_embedding_columns,
}
use eule_db.Schema.Validate.{Admits, IsSearch, Among, validate-Admits}
use eule_db.Schema.Embedding.{embedding_or_named, auto_embedding_columns-auto_embedding}
use eule_db.Tests.Toy.{toy}

abbrev authority : Keyring
authority = record { keys = []; current = 1; kek = 7 ∷ 8 ∷ []; salt = []; nonce = []; sealed = [] }

-- A table "t", read by its grant and by a tag that was made up.
abbrev forged : Capability
forged = record { table = 116 ∷ []; scope = read; tag = 1 ∷ 2 ∷ [] }

permits-grant_example :
    (permits toy
        (new_gate toy authority (forged ∷ grant toy authority (116 ∷ []) read ∷ []))
        (116 ∷ [])
        read
      ≡ true)
    ↔ eule_db.Crypto.Capability.Permits.Among
        (grant toy authority (116 ∷ []) read)
        (forged ∷ grant toy authority (116 ∷ []) read ∷ [])
permits-grant_example =
    permits-grant toy authority (forged ∷ grant toy authority (116 ∷ []) read ∷ []) (116 ∷ []) read

-- "ta"
abbrev ta : Bytes
ta = 116 ∷ 97 ∷ []

tag_message-injective_example : (ta ≡ ta) × (write ≡ write)
tag_message-injective_example =
    tag_message-injective ta ta write write (omega arith) (omega arith) refl

-- The types of data are numbers, and the first column of a name is found.
abbrev find : List (Field ℕ) → Text → Option (Field ℕ)
find [] name = none
find (f ∷ fs) name = if eq_bytes f.name name then some f else find fs name

abbrev types_eq : ℕ → ℕ → Bool
types_eq a b = a == b

find_found :
    (fields : List (Field ℕ)) (name : Text) (c : Field ℕ)
    → find fields name ≡ some c
    → Among c fields × (c.name ≡ name)
find_found [] name c h = cc
find_found (f ∷ fs) name c h = elim (Bool-cases (eq_bytes f.name name)) [
  | inl e ↦
      let same : f ≡ c = cc (rw e at h) in
      (inl (sym same), ap (λ (t : Field ℕ). t.name) (sym same) ∙ eq_of_eq_bytes f.name name e)
  | inr e ↦ let (there, named) = find_found fs name c (rw e at h) in (inr there, named)
]

find-IsSearch : IsSearch ℕ types_eq find
find-IsSearch = record { found_among = find_found; eq_of_eq_type = λ a b h. (==_iff a b).0 h }

-- Columns "id" and "body".
abbrev declared : List (Field ℕ)
declared =
    record { name = 105 ∷ 100 ∷ []; data_type = 1; nullable = false; metadata = [] }
    ∷ record { name = 98 ∷ []; data_type = 2; nullable = true; metadata = [] }
    ∷ []

abbrev batch : List (Field ℕ)
batch =
    record { name = 98 ∷ []; data_type = 2; nullable = false; metadata = [] }
    ∷ record { name = 105 ∷ 100 ∷ []; data_type = 1; nullable = false; metadata = [] }
    ∷ []

batch_accepted : validate ℕ types_eq find declared batch ≡ ok tt
unfolding validate check_declared check_present check_column
batch_accepted = refl

validate-Admits_example : Admits declared batch
validate-Admits_example =
    validate-Admits ℕ types_eq find find-IsSearch declared batch batch_accepted

auto_embedding_columns-auto_embedding_example :
    auto_embedding_columns (auto_embedding (98 ∷ []) declared)
    ≡ embedding_or_named (98 ∷ []) declared
auto_embedding_columns-auto_embedding_example =
    auto_embedding_columns-auto_embedding (98 ∷ []) declared
