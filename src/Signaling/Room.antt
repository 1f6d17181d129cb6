-- ===== src/Signaling/Room.antt =====
-- What the hub of internal/signaling/hub.go promises: a room of members by their ids, each with the
-- messages that wait for it. There is no word of the map's order, of channels and of loops.
pub mod Views
pub mod Refines
pub mod Histories
use p_and_pp.Base.{
  ℕ, ◌≡◌, ◌≢◌, String, ◌==◌, Bool, true, false, not, List, [], ◌∷◌, ◌++◌, Option, none, some, ◌⊎◌,
  if◌then◌else◌, ltb, length,
}
use p_and_pp.Signaling.Message
use p_and_pp.Signaling.Message.{Message, PeerInfo, Marshaler}
use p_and_pp.Signaling.Hub.{
  Peer, Event, register, unregister, broadcast, hub_message, registered_message, joined_message,
  left_message, not_found_message,
}

pub record Member (R : Type 0) : Type 0 where
  pub joined_at : ℕ
  pub inbox : List (Message R)
  pub capacity : ℕ

abbrev pub Room : Type 0 → Type 0
Room R = String → Option (Member R)

module _ {R : Type 0} where
  -- A message waits for a member, or is dropped where the inbox is full.
  abbrev pub hear : Message R → Member R → Member R
  hear m x = if ltb (length x.inbox) x.capacity then record x { inbox = x.inbox ++ m ∷ [] } else x

  -- Some of the members hear a message.
  unfoldable pub tell : (String → Bool) → Message R → Room R → Room R
  tell who m room k = elim (room k) [ none ↦ none | some x ↦ some (if who k then hear m x else x) ]

  unfoldable pub enter : String → Member R → Room R → Room R
  enter id x room k = if id == k then some x else room k

  unfoldable pub leave : String → Room R → Room R
  leave id room k = if id == k then none else room k

abbrev pub everyone : String → Bool
everyone k = true

-- The time of joining that a list gives for an id.
abbrev pub listed : String → List PeerInfo → Option ℕ
listed k [] = none
listed k (x ∷ xs) = if x.id == k then some x.joined_at else listed k xs

abbrev pub Distinct : List PeerInfo → Type 0
Distinct [] = Unit {0}
Distinct (x ∷ xs) = (listed x.id xs ≡ none) × Distinct xs

module _ {R : Type 0} where
  abbrev pub joined_of : Option (Member R) → Option ℕ
  joined_of none = none
  joined_of (some x) = some x.joined_at

  -- In some order, every member but one, with its time of joining.
  pub record Lists (room : Room R) (me : String) (xs : List PeerInfo) : Type 0 where
    pub complete : (k : String) → listed k xs ≡ (if k == me then none else joined_of (room k))
    pub distinct : Distinct xs

module _ {R : Type 0} (json : Marshaler R) where
  -- A new member with the two messages of its registration.
  abbrev pub welcome : Member R → Peer → List PeerInfo → ℕ → ℕ → Member R
  welcome x p xs a b = record x {
    inbox =
        (x.inbox ++ registered_message json p a ∷ [])
        ++ hub_message json Message.peer_list "" (json.list (record { peers = xs })) b ∷ [];
  }

  -- What an event may make of a room.
  abbrev pub RoomStep : Room R → Event R → Room R → Type 0
  RoomStep room (register p a b c) room' =
      (x : Member R) × (xs : List PeerInfo) × (x.joined_at ≡ p.joined_at)
      × Lists room p.id xs
      × (room'
          ≡ tell (λ k. not (p.id == k)) (joined_message json p c)
              (enter p.id (welcome x p xs a b) room))
  RoomStep room (unregister p a) room' =
      room' ≡ tell everyone (left_message json p a) (leave p.id room)
  RoomStep room (broadcast m a) room' =
      ((m.to ≡ "") × (room' ≡ tell everyone m room))
      ⊎ (((m.to ≢ "") × (room m.to ≢ none) × (room' ≡ tell (λ k. m.to == k) m room))
          ⊎ ((m.to ≢ "")
              × (room m.to ≡ none)
              × (room' ≡ tell (λ k. m.from == k) (not_found_message json m a) room)))

  -- What may happen in a room: a step for an event, or a member takes the first message of its inbox.
  pub data RoomReach (start : Room R) : Room R → Type 0 where
    here : RoomReach start start
    steps :
        {room room' : Room R} (e : Event R)
        → RoomReach start room
        → RoomStep room e room'
        → RoomReach start room'
    takes :
        {room : Room R} (k : String) (x : Member R) (m : Message R) (ms : List (Message R))
        → RoomReach start room
        → room k ≡ some x
        → x.inbox ≡ m ∷ ms
        → RoomReach start (enter k (record x { inbox = ms }) room)

abbrev pub nobody : {R : Type 0} → Room R
nobody k = none
