-- ===== src/ApiTypes/Usernames.antt =====
-- The username that is shown with a message: what the look-up of serialize_messages
-- (server/src/api/api_types.cpp) has to find.
use servertech_chat.Prelude.{
  true, false, Bool-cases, Bytes, List, [], ◌∷◌, map, ◌≡◌, ◌≢◌, inl, inr, refl, ap, sym, subst,
  ==_refl,
}
use servertech_chat.Prelude.Decimal.{ℤ, pos, negsuc}
use servertech_chat.BusinessTypes.{Message, UsernameMap}
use servertech_chat.RoomHistoryService.{same_id}
use servertech_chat.RoomHistoryService.UserIds.{same_id→eq}
use servertech_chat.ApiTypes.Outgoing.{username_of}
use servertech_chat.ApiTypes.Client.{Received, received, received_as}

-- The first entry of the map that has the user's number gives the name. Where there is none, the
-- name is empty.
pub data Called (id : ℤ) : UsernameMap → Bytes → Type 0 where
  unknown : Called id [] []
  found :
      (username : Bytes) (usernames : UsernameMap) → Called id ((id, username) ∷ usernames) username
  behind :
      (key : ℤ) (other : Bytes) {usernames : UsernameMap} {username : Bytes}
      → key ≢ id
      → Called id usernames username
      → Called id ((key, other) ∷ usernames) username

-- A client that reads `shown` sees the messages, in order and each with the name of its user.
abbrev pub Shows : UsernameMap → List Message → List Received → Type 0
Shows usernames [] [] = Unit {0}
Shows usernames (m ∷ messages) (r ∷ shown) =
    (username : Bytes) × Called m.user_id usernames username
    × (r ≡ received_as username m)
    × Shows usernames messages shown
Shows usernames _ _ = true ≡ false

same_id_refl : (id : ℤ) → same_id id id ≡ true
same_id_refl (pos n) = ==_refl n
same_id_refl (negsuc n) = ==_refl n

username_of-Called :
    (usernames : UsernameMap) (id : ℤ) → Called id usernames (username_of usernames id)
unfolding username_of
username_of-Called [] id = unknown
username_of-Called ((key, username) ∷ usernames) id = elim (Bool-cases (same_id key id)) [
  | inl same ↦ rw same (
      subst (λ k. Called id ((k, username) ∷ usernames) username) (sym (same_id→eq key id same))
        (found username usernames))
  | inr other ↦ rw other (
      behind key username (λ e. cc (ap (same_id key) e, sym (same_id_refl key), other))
        (username_of-Called usernames id))
]

pub received-Shows :
    (usernames : UsernameMap) (messages : List Message)
    → Shows usernames messages (map (received usernames) messages)
received-Shows usernames [] = tt
received-Shows usernames (m ∷ messages) = (
  username_of usernames m.user_id,
  username_of-Called usernames m.user_id,
  refl,
  received-Shows usernames messages,
)
