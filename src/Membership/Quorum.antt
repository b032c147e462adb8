-- ===== src/Membership/Quorum.antt =====
-- Two quorums have a voter in common.
use kappa_registry.Prelude.{
  ℕ, suc, ◌+◌, ◌≤◌, ◌<◌, ◌≡◌, refl, arith, Bool, true, ◌&&◌, if◌then◌else◌,
}
use kappa_registry.Prelude.{List, [], ◌∷◌, Bytes, In, here, there, Bool-cases, inl, inr}
use kappa_registry.Membership.{
  MemberRole, voter, learner, MemberRecord, MembershipState, is_voter, count_voters, voter_count,
  quorum_size,
}

-- How many of the voters have anchors in a set.
unfoldable pub count_of : (Bytes → Bool) → List MemberRecord → ℕ
count_of set [] = 0
count_of set (m ∷ members) =
    let rest = count_of set members in if is_voter m.role && set m.anchor then suc rest else rest

-- A set of anchors that holds a quorum of the voters.
abbrev pub IsQuorum : MembershipState → (Bytes → Bool) → Type 0
IsQuorum state set = quorum_size state ≤ count_of set state.members

both_and_either :
    (set set' : Bytes → Bool) (members : List MemberRecord)
    → count_of set members + count_of set' members
      ≤ count_of (λ a. set a && set' a) members + count_voters members
unfolding count_of count_voters is_voter
both_and_either set set' [] = omega arith
both_and_either set set' (m ∷ members) = ground (arith, both_and_either set set' members)

is_voter_iff : (r : MemberRole) → is_voter r ≡ true → r ≡ voter
unfolding is_voter
is_voter_iff voter h = refl
is_voter_iff learner h = absurd (cc h)

count_of-In :
    (set : Bytes → Bool) (members : List MemberRecord)
    → 0 < count_of set members
    → (m : MemberRecord) × In m members × (m.role ≡ voter) × (set m.anchor ≡ true)
unfolding count_of is_voter
count_of-In set [] h = absurd (omega arith)
count_of-In set (m ∷ members) h = elim (Bool-cases (is_voter m.role && set m.anchor)) [
  | inl both ↦ (m, here, ground (arith, is_voter_iff m.role), ground arith)
  | inr other ↦ let (x, i, v, e) = count_of-In set members (ground arith) in (x, there i, v, e)
]

-- Two sets that each hold a quorum of the voters of one state have a voter of it in common.
pub quorums_meet :
    (state : MembershipState) (set set' : Bytes → Bool)
    → IsQuorum state set
    → IsQuorum state set'
    → (m : MemberRecord) × In m state.members
      × (m.role ≡ voter)
      × (set m.anchor ≡ true)
      × (set' m.anchor ≡ true)
unfolding quorum_size voter_count
quorums_meet state set set' h h' =
    let (m, i, v, e) =
      count_of-In (λ a. set a && set' a) state.members
        (omega (arith, both_and_either set set' state.members, h, h')) in
    (m, i, v, ground arith, ground arith)
