-- ===== src/Membership.antt =====
-- crates/kappa-core/src/membership.rs: the members of a cluster. The coding of the records as CBOR is
-- derived and left out. An epoch is 64 bits.
pub mod Quorum
pub mod Changes
mod Tests
use kappa_registry.Prelude.{
  ℕ, suc, ◌+◌, ◌/◌, ◌%◌, ◌^◌, ltb, Bool, true, false, not, ◌||◌, if◌then◌else◌,
}
use kappa_registry.Prelude.{List, [], ◌∷◌, ◌++◌, Bytes, bytes_eq, codes, length}

pub record PeerInfo : Type 0 where
  pub id : Bytes
  pub address : Bytes
  pub healthy : Bool

pub record StaticMembership : Type 0 where
  pub self_id : Bytes
  pub peers : List PeerInfo

unfoldable pub single_node : Bytes → StaticMembership
single_node self_id = record {
  self_id = self_id;
  peers = record { id = self_id; address = codes "localhost"; healthy = true } ∷ [];
}

-- `self.peers.iter().any(|p| p.id == peer_id)`
unfoldable pub any_peer : List PeerInfo → Bytes → Bool
any_peer [] peer_id = false
any_peer (p ∷ peers) peer_id = bytes_eq p.id peer_id || any_peer peers peer_id

-- `is_member` of `StaticMembership`.
unfoldable pub static_is_member : StaticMembership → Bytes → Bool
static_is_member m peer_id = any_peer m.peers peer_id

pub data MemberRole : Type 0 where
  voter learner : MemberRole

pub record MemberRecord : Type 0 where
  pub anchor : Bytes
  pub endpoint : Bytes
  pub joined_at_ms : ℕ
  pub role : MemberRole

pub record MembershipState : Type 0 where
  pub members : List MemberRecord
  pub epoch : ℕ

abbrev pub new_state : MembershipState
new_state = record { members = []; epoch = 0 }

unfoldable pub is_voter : MemberRole → Bool
is_voter voter = true
is_voter learner = false

-- `members.iter().filter(|m| matches!(m.role, MemberRole::Voter)).count()`
unfoldable pub count_voters : List MemberRecord → ℕ
count_voters [] = 0
count_voters (m ∷ members) =
    let rest = count_voters members in if is_voter m.role then suc rest else rest

unfoldable pub voter_count : MembershipState → ℕ
voter_count state = count_voters state.members

unfoldable pub quorum_size : MembershipState → ℕ
quorum_size state = voter_count state / 2 + 1

-- `self.members.iter().any(|m| m.anchor == anchor)`
unfoldable pub any_member : List MemberRecord → Bytes → Bool
any_member [] anchor = false
any_member (m ∷ members) anchor = bytes_eq m.anchor anchor || any_member members anchor

unfoldable pub is_member : MembershipState → Bytes → Bool
is_member state anchor = any_member state.members anchor

unfoldable pub add_member : MembershipState → MemberRecord → MembershipState
add_member state member =
    if not (is_member state member.anchor)
    then record { members = state.members ++ (member ∷ []); epoch = (state.epoch + 1) % 2 ^ 64 }
    else state

-- `self.members.retain(|m| m.anchor != anchor)`
unfoldable pub retain_others : Bytes → List MemberRecord → List MemberRecord
retain_others anchor [] = []
retain_others anchor (m ∷ members) =
    let rest = retain_others anchor members in if bytes_eq m.anchor anchor then rest else m ∷ rest

unfoldable pub remove_member : MembershipState → Bytes → MembershipState
remove_member state anchor =
    let kept = retain_others anchor state.members in
    record {
      members = kept;
      epoch =
          if ltb (length kept) (length state.members)
          then (state.epoch + 1) % 2 ^ 64
          else state.epoch;
    }
