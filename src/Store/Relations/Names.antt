-- ===== src/Store/Relations/Names.antt =====
-- The names of the relations are read back, and nothing else is but two older names.
use kappa_registry.Prelude.{
  ◌≡◌, ◌↔◌, inl, inr, refl, arith, sym, Bytes, bytes_eq, bytes_eq→eq, codes, ◌||◌,
}
use kappa_registry.Prelude.{if◌then◌else◌, Option, some, subst, Bool-cases}
use kappa_registry.Store.Relations.{EdgeRelation, relation_str, relation_parse}
use kappa_registry.Store.Relations.{
  owns, composed_of, assertion, revocation, capability, recovery_share, epoch_root, akd_tree_node,
  chunk_manifest, witness_receipt, offload_receipt, derived_from, certified_by, evidence_provenance,
  section_of, refers_to, delegation,
}

parse-str : (r : EdgeRelation) → relation_parse (relation_str r) ≡ some r
unfolding relation_parse relation_str
parse-str owns = refl
parse-str composed_of = refl
parse-str assertion = refl
parse-str revocation = refl
parse-str capability = refl
parse-str recovery_share = refl
parse-str epoch_root = refl
parse-str akd_tree_node = refl
parse-str chunk_manifest = refl
parse-str witness_receipt = refl
parse-str offload_receipt = refl
parse-str derived_from = refl
parse-str certified_by = refl
parse-str evidence_provenance = refl
parse-str section_of = refl
parse-str refers_to = refl
parse-str delegation = refl

-- The names that a relation is read from: its own, and two older ones.
pub data Names : Bytes → EdgeRelation → Type 0 where
  own : (r : EdgeRelation) → Names (relation_str r) r
  witness_of : Names (codes "witness-of") witness_receipt
  derives_from : Names (codes "derives-from") derived_from

Names-parse : {s : Bytes} {r : EdgeRelation} → Names s r → relation_parse s ≡ some r
Names-parse (own r) = parse-str r
Names-parse witness_of = unfold relation_parse in refl
Names-parse derives_from = unfold relation_parse in refl

-- One case of the match, with one name or two.
single_alias :
    (s t : Bytes) (r r' : EdgeRelation) {rest : Option EdgeRelation}
    → Names t r'
    → (rest ≡ some r → Names s r)
    → (if bytes_eq s t then some r' else rest) ≡ some r
    → Names s r
single_alias s t r r' n later h = elim (Bool-cases (bytes_eq s t)) [
  | inl e ↦
      let same : r' ≡ r = ground arith in
      subst (λ x. Names x r) (sym (bytes_eq→eq s t e)) (subst (Names t) same n)
  | inr e ↦ later (ground arith)
]

either_alias :
    (s t u : Bytes) (r r' : EdgeRelation) {rest : Option EdgeRelation}
    → Names t r'
    → Names u r'
    → (rest ≡ some r → Names s r)
    → (if bytes_eq s t || bytes_eq s u then some r' else rest) ≡ some r
    → Names s r
either_alias s t u r r' n m later h =
    single_alias s t r r' n (single_alias s u r r' m later) (ground arith)

parse-Names : (s : Bytes) (r : EdgeRelation) → relation_parse s ≡ some r → Names s r
unfolding relation_parse relation_str
parse-Names s r = single_alias s (relation_str owns) r owns (own owns) (
    single_alias s (relation_str composed_of) r composed_of (own composed_of) (
      single_alias s (relation_str assertion) r assertion (own assertion) (
        single_alias s (relation_str revocation) r revocation (own revocation) (
          single_alias s (relation_str capability) r capability (own capability) (
            single_alias s (relation_str recovery_share) r recovery_share (own recovery_share) (
              single_alias s (relation_str epoch_root) r epoch_root (own epoch_root) (
                single_alias s (relation_str akd_tree_node) r akd_tree_node (own akd_tree_node) (
                  single_alias s (relation_str chunk_manifest) r chunk_manifest (own chunk_manifest)
                    (either_alias s (relation_str witness_receipt) (codes "witness-of") r
                      witness_receipt (own witness_receipt) witness_of
                      (single_alias s (relation_str offload_receipt) r offload_receipt
                        (own offload_receipt)
                        (either_alias s (relation_str derived_from) (codes "derives-from") r
                          derived_from (own derived_from) derives_from
                          (single_alias s (relation_str certified_by) r certified_by
                            (own certified_by)
                            (single_alias s (relation_str evidence_provenance) r evidence_provenance
                              (own evidence_provenance)
                              (single_alias s (relation_str section_of) r section_of
                                (own section_of)
                                (single_alias s (relation_str refers_to) r refers_to (own refers_to)
                                  (single_alias s (relation_str delegation) r delegation
                                    (own delegation) (λ h. cc)))))))))))))))))

-- A text is read as a relation exactly when it is the name of that relation, or the older name
-- `witness-of` of witness receipts or `derives-from` of derived-from.
pub relation_parse_iff : (s : Bytes) (r : EdgeRelation) → (relation_parse s ≡ some r) ↔ Names s r
relation_parse_iff s r = (parse-Names s r, λ n. Names-parse n)
