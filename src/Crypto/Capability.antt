-- ===== src/Crypto/Capability.antt =====
-- crates/euledb-storage/src/crypto/capability.rs: signed permissions, and the gate that checks them.
pub mod Permits
use eule_db.Common.{
  ℕ, ◌/◌, ◌%◌, ◌^◌, List, [], ◌∷◌, ◌++◌, length, Bytes, Bool, true, false, ◌&&◌, ◌||◌, eq_bytes,
}
use eule_db.Common.Text.{Text, codes, utf8}
use eule_db.Common.{u64_be}
use eule_db.Crypto.Platform.{Platform}
use eule_db.Crypto.Keyring.{Keyring, token_key}

-- "euledb/capability/v1"
abbrev pub capability_context : Bytes
capability_context =
    101 ∷ 117 ∷ 108 ∷ 101 ∷ 100 ∷ 98 ∷ 47 ∷ 99 ∷ 97 ∷ 112 ∷ 97 ∷ 98 ∷ 105 ∷ 108 ∷ 105 ∷ 116 ∷ 121
    ∷ 47 ∷ 118 ∷ 49 ∷ []

pub data Scope : Type 0 where
  read write schema : Scope

-- "read", "write" and "schema"
abbrev pub scope_bytes : Scope → Bytes
scope_bytes read = 114 ∷ 101 ∷ 97 ∷ 100 ∷ []
scope_bytes write = 119 ∷ 114 ∷ 105 ∷ 116 ∷ 101 ∷ []
scope_bytes schema = 115 ∷ 99 ∷ 104 ∷ 101 ∷ 109 ∷ 97 ∷ []

-- The derived equality of `Scope`.
abbrev pub eq_scope : Scope → Scope → Bool
eq_scope read read = true
eq_scope write write = true
eq_scope schema schema = true
eq_scope _ _ = false

-- The table is its UTF-8 bytes.
pub record Capability : Type 0 where
  pub table : Bytes
  pub scope : Scope
  pub tag : Bytes

pub record Gate : Type 0 where
  pub key : Bytes
  pub granted : List Capability

-- What a tag is computed over.
unfoldable pub tag_message : Bytes → Scope → Bytes
tag_message table scope =
    capability_context ++ (u64_be (length table) ++ (table ++ scope_bytes scope))

module _ (p : Platform) where
  unfoldable pub tag_for : Keyring → Bytes → Scope → Bytes
  unfolding tag_message
  tag_for k table scope = p.hmac (token_key p k) (tag_message table scope)

  unfoldable pub grant : Keyring → Bytes → Scope → Capability
  unfolding tag_for
  grant k table scope = record { table = table; scope = scope; tag = tag_for k table scope }

  unfoldable pub new_gate : Keyring → List Capability → Gate
  new_gate k granted = record { key = token_key p k; granted = granted }

  unfoldable pub verifies : Gate → Capability → Bool
  unfolding tag_message
  verifies g c = eq_bytes (p.hmac g.key (tag_message c.table c.scope)) c.tag

  -- `Iterator::any` over the capabilities of a gate.
  unfoldable pub any_permits : Gate → List Capability → Bytes → Scope → Bool
  unfolding verifies
  any_permits g [] table scope = false
  any_permits g (c ∷ cs) table scope =
      (eq_scope c.scope scope && (eq_bytes c.table table && verifies g c))
      || any_permits g cs table scope

  unfoldable pub permits : Gate → Bytes → Scope → Bool
  unfolding any_permits
  permits g table scope = any_permits g g.granted table scope
