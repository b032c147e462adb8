-- ===== src/Store/Bindings.antt =====
-- Identity bindings of `InMemoryStore` (crates/kappa-core/src/store/memory/mod.rs): which anchors an
-- external identifier is bound to. The label of a binding, `kappa_from_value`, is a digest of its
-- CBOR encoding (the crates dcbor and sha2) and a parameter.
pub mod Latest
mod Tests
use kappa_registry.Prelude.{
  ℕ, leb, ◌==◌, ◌&&◌, Bool, true, false, if◌then◌else◌, Option, none, some,
}
use kappa_registry.Prelude.{List, [], ◌∷◌, Bytes, bytes_eq}
use kappa_registry.Dict.{Dict, get, insert, remove, bytes_key}
use kappa_registry.Store.Types.{Result, ok}

pub record IdentityBinding : Type 0 where
  pub source : Bytes
  pub target : Bytes
  pub method : Bytes
  pub trust_level : ℕ
  pub verified_at_ms : ℕ

abbrev pub Bindings : Type 0
Bindings = Dict Bytes (List IdentityBinding)

-- `.entry(source).or_default()`
unfoldable pub bindings_of : Option (List IdentityBinding) → List IdentityBinding
bindings_of none = []
bindings_of (some bs) = bs

unfoldable pub same_metadata : IdentityBinding → IdentityBinding → Bool
same_metadata a b =
    bytes_eq a.method b.method
    && ((a.trust_level == b.trust_level) && (a.verified_at_ms == b.verified_at_ms))

-- The first binding of the target is updated in place, and a new target is appended.
unfoldable pub place : IdentityBinding → List IdentityBinding → List IdentityBinding
place b [] = b ∷ []
place b (x ∷ xs) =
    let rest = place b xs in
    if bytes_eq x.target b.target then (if same_metadata x b then x ∷ xs else b ∷ xs) else x ∷ rest

-- `sort_by_key(|b| Reverse(b.verified_at_ms))`, which is stable: an insertion sort is too.
unfoldable pub insert_sorted : IdentityBinding → List IdentityBinding → List IdentityBinding
insert_sorted b [] = b ∷ []
insert_sorted b (x ∷ xs) =
    let rest = insert_sorted b xs in
    if leb x.verified_at_ms b.verified_at_ms then b ∷ x ∷ xs else x ∷ rest

unfoldable pub sort_latest : List IdentityBinding → List IdentityBinding
sort_latest [] = []
sort_latest (b ∷ bs) = insert_sorted b (sort_latest bs)

-- `bindings.retain(|b| b.target != target)`
unfoldable pub without_target : Bytes → List IdentityBinding → List IdentityBinding
without_target target [] = []
without_target target (b ∷ bs) =
    let rest = without_target target bs in if bytes_eq b.target target then rest else b ∷ rest

unfoldable pub identity_binding_put :
    (IdentityBinding → Bytes) → IdentityBinding → Bindings → Bindings × Result Bytes
identity_binding_put kappa_from_value b table = (
  insert table b.source (sort_latest (place b (bindings_of (get table b.source)))),
  ok (kappa_from_value b),
)

unfoldable pub identity_binding_get : Bytes → Bindings → Result (List IdentityBinding)
identity_binding_get subject table = ok (bindings_of (get table subject))

unfoldable pub keep_nonempty : Bytes → List IdentityBinding → Bindings → Bindings
keep_nonempty subject [] table = remove table subject
keep_nonempty subject (b ∷ bs) table = insert table subject (b ∷ bs)

unfoldable pub identity_binding_delete : Bytes → Bytes → Bindings → Bindings × Result (Unit {0})
identity_binding_delete subject target table = elim (get table subject) [
  | none ↦ (table, ok tt)
  | some bs ↦ (keep_nonempty subject (without_target target bs) table, ok tt)
]
