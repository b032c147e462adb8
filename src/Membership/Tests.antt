-- ===== src/Membership/Tests.antt =====
-- Runs of memberships, and the theorems at them.
use kappa_registry.Prelude.{
  ◌%◌, ◌^◌, ◌≡◌, refl, Bool, true, false, List, [], ◌∷◌, Bytes, codes, In, bytes_eq, ◌||◌, not,
  arith,
}
use kappa_registry.Membership.{
  MemberRecord, MembershipState, voter, learner, new_state, is_member, quorum_size,
}
use kappa_registry.Membership.{
  any_member, add_member, retain_others, remove_member, voter_count, count_voters, is_voter,
}
use kappa_registry.Membership.Quorum.{count_of, quorums_meet}
use kappa_registry.Membership.Changes.{
  Change, add, remove, apply_change, run, run_set, count_effective, Distinct, run-run_set,
}

abbrev record_of : Bytes → MemberRecord
record_of anchor = record { anchor = anchor; endpoint = []; joined_at_ms = 0; role = voter }

abbrev learner_of : Bytes → MemberRecord
learner_of anchor = record { anchor = anchor; endpoint = []; joined_at_ms = 0; role = learner }

abbrev changes : List Change
changes =
    add (record_of (codes "a"))
    ∷ add (record_of (codes "b"))
    ∷ add (learner_of (codes "b"))
    ∷ add (record_of (codes "c"))
    ∷ remove (codes "x")
    ∷ remove (codes "a")
    ∷ add (record_of (codes "d"))
    ∷ []

abbrev state : MembershipState
state = record {
  members = record_of (codes "b") ∷ record_of (codes "c") ∷ record_of (codes "d") ∷ [];
  epoch = 5;
}

membership_run : run new_state changes ≡ state
unfolding run apply_change add_member remove_member retain_others is_member any_member
membership_run = refl

quorum_run : quorum_size state ≡ 2
unfolding quorum_size voter_count count_voters is_voter
quorum_run = refl

abbrev first_two : Bytes → Bool
first_two a = bytes_eq a (codes "b") || bytes_eq a (codes "c")

abbrev last_two : Bytes → Bool
last_two a = not (bytes_eq a (codes "b"))

quorums_meet_example :
    (m : MemberRecord) × In m state.members
    × (m.role ≡ voter)
    × (first_two m.anchor ≡ true)
    × (last_two m.anchor ≡ true)
unfolding quorum_size voter_count count_voters is_voter count_of
quorums_meet_example = quorums_meet state first_two last_two (omega arith) (omega arith)

run-run_set_example :
    Distinct (run new_state changes).members
    × ((anchor : Bytes)
        → is_member (run new_state changes) anchor ≡ run_set (λ a. false) changes anchor)
    × ((run new_state changes).epoch ≡ count_effective (λ a. false) changes % 2 ^ 64)
run-run_set_example = run-run_set changes
