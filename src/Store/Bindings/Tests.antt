-- ===== src/Store/Bindings/Tests.antt =====
-- A binding verified again and a new one, and the theorem at them.
use kappa_registry.Prelude.{ℕ, ◌≡◌, refl, arith, [], ◌∷◌, Bytes, codes}
use kappa_registry.Dict.{get, insert, remove, bytes_key, AllValues}
use kappa_registry.Store.Types.{ok}
use kappa_registry.Store.Bindings.{IdentityBinding, Bindings, bindings_of, same_metadata, place}
use kappa_registry.Store.Bindings.{insert_sorted, sort_latest, identity_binding_put}
use kappa_registry.Store.Bindings.{identity_binding_get, identity_binding_delete}
use kappa_registry.Store.Bindings.Latest.{IsLatest, bindings_keep_IsLatest}

abbrev label_of : IdentityBinding → Bytes
label_of b = b.target

abbrev bound : Bytes → ℕ → IdentityBinding
bound target at = record {
  source = codes "mail";
  target = target;
  method = codes "dns";
  trust_level = 1;
  verified_at_ms = at;
}

abbrev known : Bindings
known = (codes "mail", bound (codes "a") 5 ∷ bound (codes "b") 3 ∷ []) ∷ []

again_run :
    identity_binding_get
      (codes "mail")
      (identity_binding_put label_of (bound (codes "b") 9) known).0
    ≡ ok (bound (codes "b") 9 ∷ bound (codes "a") 5 ∷ [])
unfolding identity_binding_get identity_binding_put bindings_of place same_metadata sort_latest
    insert_sorted get insert remove
again_run = refl

known-IsLatest : AllValues IsLatest known
known-IsLatest =
    ((((omega arith, tt), (tt, tt)), (((λ e. absurd (ground arith)), tt), (tt, tt))), tt)

bindings_keep_IsLatest_example :
    AllValues IsLatest (identity_binding_put label_of (bound (codes "b") 9) known).0
    × AllValues IsLatest (identity_binding_delete (codes "mail") (codes "a") known).0
bindings_keep_IsLatest_example =
    bindings_keep_IsLatest label_of (bound (codes "b") 9) (codes "mail") (codes "a") known
      known-IsLatest
