-- ===== src/Tests/Rooms.antt =====
-- Carol's arrival, as a step of the room.
use p_and_pp.Base.{◌≡◌, refl, [], ◌∷◌, some, arith, done}
use p_and_pp.GoMap.{lookup, insert, has}
use p_and_pp.Signaling.Message.{Message}
use p_and_pp.Signaling.Hub.{
  Hub, Channels, register, step, new_hub, registered_message, list_message,
}
use p_and_pp.Signaling.Hub.Delivery.{reached_except}
use p_and_pp.Signaling.Hub.Invariant.{IsValid, IsNew}
use p_and_pp.Signaling.Hub.Handlers.{registered, handle_register_lem}
use p_and_pp.Signaling.Hub.Drain.{taken}
use p_and_pp.Signaling.Room.{RoomStep, RoomReach, nobody}
use p_and_pp.Signaling.Room.Views.{view}
use p_and_pp.Signaling.Room.Histories.{
  HubReach, begins, handles, drains, new_hub-IsValid, history-refines,
}
use p_and_pp.Signaling.Room.Refines.{step-refines}
use p_and_pp.Tests.Samples.{Doc, write_docs, carol, channel, pair}
use p_and_pp.Tests.Hubs.{pair-IsValid, carol-IsNew}
use p_and_pp.Tests.Views.{joined, joined-step}

step-refines_example : RoomStep write_docs (view pair) (register carol 1 2 3) (view joined)
step-refines_example =
    step-refines write_docs pair joined (register carol 1 2 3) pair-IsValid carol-IsNew joined-step

-- Carol is the first peer, and her write pump takes her first message.
abbrev pub empty_store : Channels Doc
empty_store r = channel []

carol-First : IsNew (new_hub empty_store) carol
unfolding new_hub has
carol-First = record { unknown = refl; unused = tt; opened = refl; room = omega arith }

abbrev first_hub : Hub Doc
first_hub = registered write_docs (new_hub empty_store) carol 1 2 3

handled : step write_docs (new_hub empty_store) (register carol 1 2 3) ≡ done first_hub
unfolding step
handled =
    handle_register_lem write_docs (new_hub empty_store) carol 1 2 3
      (new_hub-IsValid empty_store (λ r. refl)) carol-First

abbrev first : Message Doc
first = registered_message write_docs carol 1

abbrev second : Message Doc
second = list_message write_docs carol (insert "carol" carol []) 2

there : lookup "carol" first_hub.peers ≡ some carol
unfolding new_hub lookup insert
there = refl

queued : (first_hub.chans 2).buffer ≡ first ∷ second ∷ []
unfolding new_hub reached_except insert
queued = refl

history : HubReach write_docs (new_hub empty_store) (taken first_hub 2 (second ∷ []))
history =
    drains "carol" carol first (second ∷ [])
      (handles (register carol 1 2 3) begins carol-First handled) there queued

history-refines_example :
    IsValid (taken first_hub 2 (second ∷ []))
    × RoomReach write_docs nobody (view (taken first_hub 2 (second ∷ [])))
history-refines_example =
    history-refines write_docs empty_store (taken first_hub 2 (second ∷ [])) (λ r. refl) history
