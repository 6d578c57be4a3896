-- ===== src/Client/Buttons/Quick.antt =====
-- Project/DXClient/QuickStartUI.cpp: the button that enters the first room with a free place.
pub mod Admitted
use network_omok.Base.{
  Bool, Option, none, some, List, [], ◌∷◌, WString, Assoc, if◌then◌else◌, text_eq, State, ◌>>=◌,
  ◌>>◌, pure, gets, undefined,
}
use network_omok.Client.{RoomUi, ScenePointer, channel_scene, Client, Action}
use network_omok.Client.Rooms.{one_of_two}
use network_omok.Client.Buttons.{request_room_entry}

-- RoomUI::CanEnter
abbrev pub can_enter : RoomUi → Bool
can_enter u = text_eq u.player_count one_of_two

-- The loop over the rooms of the channel.
pub first_open : Assoc RoomUi → Option RoomUi
first_open [] = none
first_open ((t, u) ∷ m) = let rest = first_open m in if can_enter u then some u else rest

-- static_cast<ChannelScene*>(Scene::m_pScene)
abbrev as_channel : ScenePointer → Action (Unit {0})
as_channel channel_scene = pure tt
as_channel _ = undefined

-- QuickStartUI::HitSelect for a click that selects, without the message box.
pub hit_quick_start : Action (Unit {0})
unfolding first_open
hit_quick_start = do
  p ← gets (λ c. c.scene)
  as_channel p
  rooms ← gets (λ c. c.channel.room_map)
  elim (first_open rooms) [ none ↦ pure tt | some u ↦ request_room_entry u.title ]
