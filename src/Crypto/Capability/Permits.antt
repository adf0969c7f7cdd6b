-- ===== src/Crypto/Capability/Permits.antt =====
-- What a gate permits, and that a tag's message has one reading:
-- crates/euledb-storage/src/crypto/capability.rs.
use eule_db.Common.{
  ℕ, ◌+◌, ◌*◌, ◌^◌, ◌<◌, ◌≡◌, ◌↔◌, ◌⊎◌, refl, ap, ap₂, sym, ◌∙◌, subst, arith, inl, inr,
}
use eule_db.Common.{
  List, [], ◌∷◌, ◌++◌, length, take, drop, Bytes, Bool, true, false, ◌&&◌, Bool-cases,
}
use eule_db.Common.{eq_bytes, eq_bytes_refl, eq_of_eq_bytes, u64_be}
use eule_db.Common.Slices.{take-append_left, drop-append_left}
use eule_db.Crypto.Platform.{Platform}
use eule_db.Crypto.Keyring.{Keyring, token_key}
use eule_db.Crypto.Capability.{
  Scope, read, write, schema, eq_scope, scope_bytes, Capability, tag_message, tag_for, grant,
  new_gate, verifies, any_permits, permits,
}

-- A capability is one of a list.
abbrev pub Among : Capability → List Capability → Type 0
Among c [] = ⊥
Among c (d ∷ ds) = (c ≡ d) ⊎ Among c ds

eq_scope_refl : (s : Scope) → eq_scope s s ≡ true
eq_scope_refl read = refl
eq_scope_refl write = refl
eq_scope_refl schema = refl

eq_of_eq_scope : (s t : Scope) → eq_scope s t ≡ true → s ≡ t
eq_of_eq_scope read read h = refl
eq_of_eq_scope read write h = cc
eq_of_eq_scope read schema h = cc
eq_of_eq_scope write read h = cc
eq_of_eq_scope write write h = refl
eq_of_eq_scope write schema h = cc
eq_of_eq_scope schema read h = cc
eq_of_eq_scope schema write h = cc
eq_of_eq_scope schema schema h = refl

and_left : (a b : Bool) → (a && b) ≡ true → a ≡ true
and_left true b h = refl
and_left false b h = cc

and_right : (a b : Bool) → (a && b) ≡ true → b ≡ true
and_right true b h = h
and_right false b h = cc

capability_ext : (c d : Capability) → c.table ≡ d.table → c.scope ≡ d.scope → c.tag ≡ d.tag → c ≡ d
capability_ext c d h i j = cc

module _ (p : Platform) where
  -- The test that `permits` puts to one capability singles out what the keyring grants.
  matches-grant :
      (k : Keyring) (granted : List Capability) (c : Capability) (table : Bytes) (scope : Scope)
      → ((eq_scope c.scope scope && (eq_bytes c.table table && verifies p (new_gate p k granted) c))
          ≡ true)
        ↔ (c ≡ grant p k table scope)
  unfolding verifies new_gate grant tag_for
  matches-grant k granted c table scope = (
    λ h.
        let s = eq_of_eq_scope c.scope scope (and_left _ _ h) in
        let h' = and_right (eq_scope c.scope scope) _ h in
        let t = eq_of_eq_bytes c.table table (and_left _ _ h') in
        let v = eq_of_eq_bytes _ c.tag (and_right (eq_bytes c.table table) _ h') in
        capability_ext c (grant p k table scope) t s
          (sym v ∙ ap₂ (λ x y. p.hmac (token_key p k) (tag_message x y)) t s),
    λ e.
        subst
          (λ (d : Capability).
            (eq_scope d.scope scope
              && (eq_bytes d.table table
                  && eq_bytes (p.hmac (token_key p k) (tag_message d.table d.scope)) d.tag))
            ≡ true)
          (sym e)
          (rw (eq_scope_refl scope, eq_bytes_refl table)
            (eq_bytes_refl (p.hmac (token_key p k) (tag_message table scope)))),
  )

  any_permits-grant :
      (k : Keyring) (all granted : List Capability) (table : Bytes) (scope : Scope)
      → (any_permits p (new_gate p k all) granted table scope ≡ true)
        ↔ Among (grant p k table scope) granted
  unfolding any_permits
  any_permits-grant k all [] table scope = (λ h. cc, λ e. elim e [ ])
  any_permits-grant k all (c ∷ cs) table scope =
      let rest = any_permits-grant k all cs table scope in
      let (to, from) = matches-grant k all c table scope in
      let test =
        eq_scope c.scope scope && (eq_bytes c.table table && verifies p (new_gate p k all) c) in
      elim (Bool-cases test) [
        | inl e ↦ (λ h. inl (sym (to e)), λ _. rw e refl)
        | inr e ↦ (
          λ h. inr (rest.0 (rw e at h)),
          λ among. elim among [ inl d ↦ cc (e, from (sym d)) | inr d ↦ rw e (rest.1 d) ],
        )
      ]

  -- A gate that the keyring's authority made permits a scope on a table exactly if the capability which
  -- that keyring grants for it is among those handed to the gate: a token for another table, of another
  -- scope or with any other tag permits nothing.
  pub permits-grant :
      (k : Keyring) (granted : List Capability) (table : Bytes) (scope : Scope)
      → (permits p (new_gate p k granted) table scope ≡ true)
        ↔ Among (grant p k table scope) granted
  unfolding permits new_gate
  permits-grant k granted table scope = any_permits-grant k granted granted table scope

-- The number that eight bytes hold, the highest first.
abbrev be_value : Bytes → ℕ
be_value (a ∷ b ∷ c ∷ d ∷ e ∷ f ∷ g ∷ h ∷ rest) =
    a * 2 ^ 56 + b * 2 ^ 48 + c * 2 ^ 40 + d * 2 ^ 32 + e * 16777216 + f * 65536 + g * 256 + h
be_value _ = 0

be_value-u64_be : (x : ℕ) (rest : Bytes) → x < 2 ^ 64 → be_value (u64_be x ++ rest) ≡ x
be_value-u64_be x rest h = omega arith

scope_bytes-injective : (s t : Scope) → scope_bytes s ≡ scope_bytes t → s ≡ t
scope_bytes-injective read read h = refl
scope_bytes-injective read write h = cc
scope_bytes-injective read schema h = cc
scope_bytes-injective write read h = cc
scope_bytes-injective write write h = refl
scope_bytes-injective write schema h = cc
scope_bytes-injective schema read h = cc
scope_bytes-injective schema write h = cc
scope_bytes-injective schema schema h = refl

-- Two tags are computed over the same message only if they are for the same table and the same scope, for
-- tables whose names have fewer than 2 ^ 64 bytes.
pub tag_message-injective :
    (table table' : Bytes) (scope scope' : Scope)
    → length table < 2 ^ 64
    → length table' < 2 ^ 64
    → tag_message table scope ≡ tag_message table' scope'
    → (table ≡ table') × (scope ≡ scope')
unfolding tag_message
tag_message-injective table table' scope scope' small small' h =
    let h₁ : u64_be (length table) ++ (table ++ scope_bytes scope)
        ≡ u64_be (length table') ++ (table' ++ scope_bytes scope') =
      ap (drop 20) h in
    let size : length table ≡ length table' =
      sym (be_value-u64_be (length table) (table ++ scope_bytes scope) small)
      ∙ ap be_value h₁
      ∙ be_value-u64_be (length table') (table' ++ scope_bytes scope') small' in
    let h₂ : table ++ scope_bytes scope ≡ table' ++ scope_bytes scope' = ap (drop 8) h₁ in
    (
      sym (take-append_left (length table) table (scope_bytes scope) refl)
          ∙ ap (take (length table)) h₂
          ∙ take-append_left (length table) table' (scope_bytes scope') (sym size),
      scope_bytes-injective scope scope' (
          sym (drop-append_left (length table) table (scope_bytes scope) refl)
          ∙ ap (drop (length table)) h₂
          ∙ drop-append_left (length table) table' (scope_bytes scope') (sym size)),
    )
