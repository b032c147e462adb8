-- ===== src/Membership/Changes.antt =====
-- Runs of changes of a membership against a set of anchors.
use kappa_registry.Prelude.{
  ℕ, suc, ◌+◌, ◌%◌, ◌^◌, ◌≤◌, ◌<◌, ◌≡◌, refl, ap, ◌∙◌, arith, Bool, true, false, not, ◌&&◌, ◌||◌,
  if◌then◌else◌,
}
use kappa_registry.Prelude.{
  List, [], ◌∷◌, ◌++◌, Bytes, bytes_eq, bytes_eq_iff, length, ltb, Bool-cases, inl, inr,
}
use kappa_registry.Membership.{
  MemberRecord, MembershipState, new_state, any_member, is_member, add_member, retain_others,
  remove_member,
}

pub data Change : Type 0 where
  add : MemberRecord → Change
  remove : Bytes → Change

unfoldable pub apply_change : MembershipState → Change → MembershipState
apply_change state (add member) = add_member state member
apply_change state (remove anchor) = remove_member state anchor

unfoldable pub run : MembershipState → List Change → MembershipState
run state [] = state
run state (c ∷ changes) = run (apply_change state c) changes

-- The set of anchors after one change of it.
unfoldable pub change_set : (Bytes → Bool) → Change → Bytes → Bool
change_set set (add member) anchor = set anchor || bytes_eq member.anchor anchor
change_set set (remove gone) anchor = set anchor && not (bytes_eq gone anchor)

unfoldable pub run_set : (Bytes → Bool) → List Change → Bytes → Bool
run_set set [] = set
run_set set (c ∷ changes) = run_set (change_set set c) changes

-- Whether a change has an effect on a set.
unfoldable pub is_effective : (Bytes → Bool) → Change → Bool
is_effective set (add member) = not (set member.anchor)
is_effective set (remove gone) = set gone

unfoldable pub count_effective : (Bytes → Bool) → List Change → ℕ
count_effective set [] = 0
count_effective set (c ∷ changes) =
    let rest = count_effective (change_set set c) changes in
    if is_effective set c then suc rest else rest

-- No anchor twice.
abbrev pub Distinct : List MemberRecord → Type 0
Distinct [] = Unit
Distinct (m ∷ members) = (any_member members m.anchor ≡ false) × Distinct members

any_member-append :
    (members : List MemberRecord) (m : MemberRecord) (anchor : Bytes)
    → any_member (members ++ (m ∷ [])) anchor
      ≡ any_member members anchor || bytes_eq m.anchor anchor
unfolding any_member
any_member-append [] m anchor = ground arith
any_member-append (x ∷ members) m anchor = ground (arith, any_member-append members m anchor)

any_member-retain_others :
    (gone : Bytes) (members : List MemberRecord) (anchor : Bytes)
    → any_member (retain_others gone members) anchor
      ≡ any_member members anchor && not (bytes_eq gone anchor)
unfolding any_member retain_others
any_member-retain_others gone [] anchor = ground arith
any_member-retain_others gone (x ∷ members) anchor = ground (
  arith,
  any_member-retain_others gone members anchor,
  bytes_eq_iff x.anchor gone,
  bytes_eq_iff x.anchor anchor,
  bytes_eq_iff gone anchor,
)

-- The state after a change stands for the set after it.
is_member-apply_change :
    (state : MembershipState) (c : Change) (anchor : Bytes)
    → is_member (apply_change state c) anchor ≡ change_set (is_member state) c anchor
unfolding apply_change change_set is_member add_member remove_member
is_member-apply_change state (add m) anchor =
    elim (Bool-cases (any_member state.members m.anchor)) [
      | inl there ↦ elim (Bool-cases (bytes_eq m.anchor anchor)) [
        | inl same ↦
            let e = (bytes_eq_iff m.anchor anchor).0 same in
            let known : any_member state.members anchor ≡ true = rw (← e) there in ground arith
        | inr other ↦ ground arith
      ]
      | inr absent ↦ ground (arith, any_member-append state.members m anchor)
    ]
is_member-apply_change state (remove gone) anchor =
    any_member-retain_others gone state.members anchor

length-retain_others :
    (gone : Bytes) (members : List MemberRecord)
    → (length (retain_others gone members) ≤ length members)
      × (ltb (length (retain_others gone members)) (length members) ≡ any_member members gone)
unfolding retain_others any_member
length-retain_others gone [] = (omega arith, refl)
length-retain_others gone (x ∷ members) = ground (arith, length-retain_others gone members)

epoch-apply_change :
    (state : MembershipState) (c : Change)
    → (apply_change state c).epoch
      ≡ (if is_effective (is_member state) c then (state.epoch + 1) % 2 ^ 64 else state.epoch)
unfolding apply_change is_effective is_member add_member remove_member
epoch-apply_change state (add m) = ground arith
epoch-apply_change state (remove gone) = ground (arith, length-retain_others gone state.members)

Distinct-append :
    (members : List MemberRecord) (m : MemberRecord)
    → Distinct members
    → any_member members m.anchor ≡ false
    → Distinct (members ++ (m ∷ []))
unfolding any_member
Distinct-append [] m d h = (refl, tt)
Distinct-append (x ∷ members) m (d, ds) h = (
  ground (
    arith,
    any_member-append members m x.anchor,
    bytes_eq_iff x.anchor m.anchor,
    bytes_eq_iff m.anchor x.anchor,
  ),
  Distinct-append members m ds (ground arith),
)

Distinct-retain_others :
    (gone : Bytes) (members : List MemberRecord)
    → Distinct members
    → Distinct (retain_others gone members)
unfolding retain_others
Distinct-retain_others gone [] d = tt
Distinct-retain_others gone (x ∷ members) (d, ds) = elim (Bool-cases (bytes_eq x.anchor gone)) [
  | inl same ↦ rw (retain_others, same) (Distinct-retain_others gone members ds)
  | inr other ↦
      rw (retain_others, other)
        (
          ground (arith, d, any_member-retain_others gone members x.anchor),
          Distinct-retain_others gone members ds,
        )
]

Distinct-apply_change :
    (state : MembershipState) (c : Change)
    → Distinct state.members
    → Distinct (apply_change state c).members
unfolding apply_change add_member is_member remove_member
Distinct-apply_change state (add m) d = elim (Bool-cases (any_member state.members m.anchor)) [
  | inl there ↦ rw there d
  | inr absent ↦ rw absent (Distinct-append state.members m d absent)
]
Distinct-apply_change state (remove gone) d = Distinct-retain_others gone state.members d

change_set_cong :
    (set set' : Bytes → Bool) (c : Change)
    → ((anchor : Bytes) → set anchor ≡ set' anchor)
    → (is_effective set c ≡ is_effective set' c)
      × ((anchor : Bytes) → change_set set c anchor ≡ change_set set' c anchor)
unfolding change_set is_effective
change_set_cong set set' (add m) same =
    (ap not (same m.anchor), λ a. ap (λ b. b || bytes_eq m.anchor a) (same a))
change_set_cong set set' (remove gone) same =
    (same gone, λ a. ap (λ b. b && not (bytes_eq gone a)) (same a))

-- A run from any state.
run_from :
    (state : MembershipState) (set : Bytes → Bool) (changes : List Change)
    → Distinct state.members
    → state.epoch < 2 ^ 64
    → ((anchor : Bytes) → is_member state anchor ≡ set anchor)
    → Distinct (run state changes).members
      × ((anchor : Bytes) → is_member (run state changes) anchor ≡ run_set set changes anchor)
      × ((run state changes).epoch ≡ (state.epoch + count_effective set changes) % 2 ^ 64)
unfolding run run_set count_effective
run_from state set [] d b same = (d, same, omega arith)
run_from state set (c ∷ changes) d b same =
    let (effect, after) = change_set_cong (is_member state) set c same in
    let same' : (anchor : Bytes)
        → is_member (apply_change state c) anchor ≡ change_set set c anchor =
      λ a. is_member-apply_change state c a ∙ after a in
    let counted = epoch-apply_change state c in
    let bound : (apply_change state c).epoch < 2 ^ 64 = ground (arith, counted, b) in
    let (ds, sets, epochs) =
      run_from (apply_change state c) (change_set set c) changes (Distinct-apply_change state c d)
        bound same' in
    (ds, sets, ground (arith, epochs, counted, effect, b))

-- A new state after any run of `add_member` and `remove_member` stands for the set of anchors that the
-- run makes of the empty set: no anchor is in it twice, `is_member` tests exactly the set, and the epoch
-- is the number of the changes that had an effect on the set, modulo 2^64.
pub run-run_set :
    (changes : List Change)
    → Distinct (run new_state changes).members
      × ((anchor : Bytes)
          → is_member (run new_state changes) anchor ≡ run_set (λ a. false) changes anchor)
      × ((run new_state changes).epoch ≡ count_effective (λ a. false) changes % 2 ^ 64)
unfolding is_member any_member
run-run_set changes =
    let (d, sets, epochs) = run_from new_state (λ a. false) changes tt (omega arith) (λ a. refl) in
    (d, sets, omega (arith, epochs))
