-- ===== src/Schema/Laws.antt =====
-- What a set-up of the schema establishes: K-transaction-processor/src/database.rs.
use k_indexer.Prelude.{
  ℤ, ◌≡◌, refl, sym, ap, subst, ◌∙◌, Bool, true, false, not, ◌&&◌, ◌||◌, Option, none, some, ltb_ℤ,
  Bool-cases, inl, inr, arith,
}
use k_indexer.Text.{Text, codes, text_eq, eq_of_text_eq}
use k_indexer.Page.{eq_ℤ}
use k_indexer.Schema.Statements.{Catalog, exists, lookup}
use k_indexer.Schema.{
  Outcome, and_then, schema_version, get_schema_version, is_version, verify_schema_setup, prepare,
  prepare_from, create_schema, settle_network, set_and_verify_network,
}

module _ (k : Catalog → Bool) where
  -- A check at the end holds where all went well.
  and_then-checked :
      (o : Outcome)
      → (and_then o (λ c. (k c, c))).0 ≡ true
      → k (and_then o (λ c. (k c, c))).1 ≡ true
  and_then-checked (true, c) h = h
  and_then-checked (false, c) h = ground arith

-- Where the set-up succeeds, the verification holds of what it leaves.
create_schema-verify_schema_setup :
    (upgrade_db : Bool) (c : Catalog)
    → (create_schema upgrade_db c).0 ≡ true
    → verify_schema_setup (create_schema upgrade_db c).1 ≡ true
unfolding create_schema
create_schema-verify_schema_setup upgrade_db c h =
    and_then-checked verify_schema_setup (prepare upgrade_db c) h

eq_of_eq_ℤ :
    (v : ℤ)
    → eq_ℤ v schema_version ≡ true
    → (ltb_ℤ v schema_version ≡ false) × (ltb_ℤ schema_version v ≡ false)
unfolding eq_ℤ
eq_of_eq_ℤ v h = ground arith

-- What passes the verification has the version.
version-verify_schema_setup :
    (c : Catalog) → verify_schema_setup c ≡ true → is_version (get_schema_version c) ≡ true
unfolding verify_schema_setup
version-verify_schema_setup c h = ground arith

prepare_from-is_version :
    (upgrade_db : Bool) (o : Option (Option ℤ)) (c : Catalog)
    → is_version o ≡ true
    → prepare_from upgrade_db o c ≡ (true, c)
unfolding prepare_from is_version
prepare_from-is_version upgrade_db none c h = ground arith
prepare_from-is_version upgrade_db (some none) c h = ground arith
prepare_from-is_version upgrade_db (some (some v)) c h = let e = eq_of_eq_ℤ v h in rw (e.0, e.1)

pub prepare-is_version :
    (upgrade_db : Bool) (c : Catalog)
    → is_version (get_schema_version c) ≡ true
    → prepare upgrade_db c ≡ (true, c)
unfolding prepare
prepare-is_version upgrade_db c h = prepare_from-is_version upgrade_db (get_schema_version c) c h

create_schema-verified :
    (upgrade_db : Bool) (c : Catalog)
    → verify_schema_setup c ≡ true
    → create_schema upgrade_db c ≡ (true, c)
unfolding create_schema
create_schema-verified upgrade_db c h =
    rw (prepare-is_version upgrade_db c (version-verify_schema_setup c h), h)

-- A set-up that succeeds may be repeated, with either flag: it succeeds again and changes nothing.
pub create_schema_idempotent :
    (upgrade_db again : Bool) (c : Catalog)
    → (create_schema upgrade_db c).0 ≡ true
    → create_schema again (create_schema upgrade_db c).1 ≡ (true, (create_schema upgrade_db c).1)
create_schema_idempotent upgrade_db again c h =
    create_schema-verified again (create_schema upgrade_db c).1
      (create_schema-verify_schema_setup upgrade_db c h)

prepare_from_refuses :
    (upgrade_db : Bool) (c : Catalog) (v : ℤ)
    → (ltb_ℤ schema_version v || (ltb_ℤ v schema_version && not upgrade_db)) ≡ true
    → prepare_from upgrade_db (some (some v)) c ≡ (false, c)
unfolding prepare_from
prepare_from_refuses true c v h = ground arith
prepare_from_refuses false c v h = ground arith

-- A newer schema is refused, an older one without the flag too, and both are left alone.
pub create_schema_refuses :
    (upgrade_db : Bool) (c : Catalog) (v : ℤ)
    → get_schema_version c ≡ some (some v)
    → (ltb_ℤ schema_version v || (ltb_ℤ v schema_version && not upgrade_db)) ≡ true
    → create_schema upgrade_db c ≡ (false, c)
unfolding create_schema prepare
create_schema_refuses upgrade_db c v h refused = rw (h, prepare_from_refuses upgrade_db c v refused)

-- Where the network is stored or not yet.
settle_network_stays :
    (network other : Text) (c : Catalog) (o : Option Text)
    → exists (codes "k_vars") c.tables ≡ true
    → lookup (codes "network") c.k_vars ≡ o
    → (settle_network network o c).0 ≡ true
    → set_and_verify_network other (settle_network network o c).1
      ≡ (text_eq network other, (settle_network network o c).1)
unfolding set_and_verify_network text_eq
settle_network_stays network other c none e l h = rw e
settle_network_stays network other c (some stored) e l h = rw (e, l, eq_of_text_eq stored network h)

set_and_verify_network-exists :
    (network : Text) (c : Catalog)
    → exists (codes "k_vars") c.tables ≡ true
    → set_and_verify_network network c
      ≡ settle_network network (lookup (codes "network") c.k_vars) c
unfolding set_and_verify_network
set_and_verify_network-exists network c e = rw e

set_and_verify_network-missing :
    (network : Text) (c : Catalog)
    → exists (codes "k_vars") c.tables ≡ false
    → (set_and_verify_network network c).0 ≡ false
unfolding set_and_verify_network
set_and_verify_network-missing network c e = rw e

-- A network that is set stays: from then on it alone is accepted, and no call changes the catalogue.
pub network_stays :
    (network : Text) (c : Catalog)
    → (set_and_verify_network network c).0 ≡ true
    → (other : Text)
    → set_and_verify_network other (set_and_verify_network network c).1
      ≡ (text_eq network other, (set_and_verify_network network c).1)
network_stays network c h other = elim (Bool-cases (exists (codes "k_vars") c.tables)) [
  | inr e ↦ ground (arith, set_and_verify_network-missing network c e)
  | inl e ↦
      let o = lookup (codes "network") c.k_vars in
      let found = set_and_verify_network-exists network c e in
      subst (λ r. set_and_verify_network other r.1 ≡ (text_eq network other, r.1)) (sym found)
        (settle_network_stays network other c o e refl (ap (λ r. r.0) (sym found) ∙ h))
]
