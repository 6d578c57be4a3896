-- ===== src/Client/Dialogs/Room.antt =====
-- Project/DXClient/CreateRoomUI.cpp, and what RoomMakeUI.cpp, CancleButton.cpp and OkButton.cpp do
-- with it.
pub mod Tidy
pub mod Asked
use network_omok.Base.{
  ℕ, Bool, true, false, not, Option, none, some, List, [], ◌∷◌, WString, ◌==◌, if◌then◌else◌,
  length, lookup, ◌>>=◌, ◌>>◌, State, pure, gets, undefined,
}
use network_omok.Protocol.{cs_requ_create_room}
use network_omok.Server.{text, Message}
use network_omok.Client.{Client, Action, ScenePointer, channel_scene, my_name, send_packet}
use network_omok.Client.Dialogs.{Keys, vk_capital, press_field, Rect, click_field}

pub record CreateRoomUi : Type 0 where
  pub hide : Bool
  pub caps_lock : Bool
  pub press_title : Bool
  pub press_ps : Bool
  pub title_buffer : WString
  pub ps_buffer : WString

-- CreateRoomUI()
abbrev pub new_create_room_ui : CreateRoomUi
new_create_room_ui = record {
  hide = true;
  caps_lock = false;
  press_title = false;
  press_ps = false;
  title_buffer = [];
  ps_buffer = [];
}

-- CreateRoomUI::ReverseHide
pub reverse_hide : CreateRoomUi → CreateRoomUi
reverse_hide ui = if ui.hide then record ui { hide = false } else record ui {
  hide = true;
  title_buffer = [];
  ps_buffer = [];
  press_title = false;
  press_ps = false;
}

-- CreateRoomUI::InputKeyCheck, PressTitle and PressPs
pub input_key_check : Keys → CreateRoomUi → Option CreateRoomUi
unfolding press_field
input_key_check keys ui =
    let caps = if keys vk_capital then not ui.caps_lock else ui.caps_lock in
    elim (press_field 15 ui.press_title caps keys ui.title_buffer) [
      | none ↦ none
      | some title ↦ elim (press_field 6 ui.press_ps caps keys ui.ps_buffer) [
        | none ↦ none
        | some ps ↦ some (record ui { caps_lock = caps; title_buffer = title; ps_buffer = ps })
      ]
    ]

-- CreateRoomUI::Update
pub update : Keys → CreateRoomUi → Option CreateRoomUi
update keys ui = if ui.hide then some ui else input_key_check keys ui

abbrev title_rect : Rect
title_rect = record { left = 709; top = 382; right = 941; bottom = 402 }

abbrev room_ps_rect : Rect
room_ps_rect = record { left = 877; top = 416; right = 944; bottom = 427 }

-- CreateRoomUI::HitSelect with CheckTitleArea and CheckRoomPsArea, for a click that selects. A hidden
-- dialog takes clicks too.
pub hit_select : ℕ × ℕ → CreateRoomUi → CreateRoomUi
unfolding click_field
hit_select click ui = record ui {
  press_title = click_field title_rect click ui.press_title;
  press_ps = click_field room_ps_rect click ui.press_ps;
}

-- CancleButton::HitSelect for a click that selects. RoomMakeUI::HitSelect is `reverse_hide`.
pub hit_cancel : CreateRoomUi → CreateRoomUi
unfolding reverse_hide
hit_cancel ui = if ui.hide then ui else reverse_hide ui

-- The packet of OkButton::HitSelect, with a password if there is one.
abbrev pub room_request : WString → CreateRoomUi → Message
room_request host ui = record {
  protocol = cs_requ_create_room;
  fields =
      text host
      ∷ text ui.title_buffer
      ∷ (if length ui.ps_buffer == 0 then [] else text ui.ps_buffer ∷ []);
}

-- static_cast<ChannelScene*>(Scene::m_pScene)
abbrev as_channel : ScenePointer → Action (Unit {0})
as_channel channel_scene = pure tt
as_channel _ = undefined

-- OkButton::HitSelect for a click that selects, without the message boxes.
unfoldable pub hit_ok : CreateRoomUi → Action (Unit {0})
hit_ok ui =
    let request = (do me ← my_name; send_packet (room_request me ui)) in
    let asked = (do
      p ← gets (λ c. c.scene)
      as_channel p
      rooms ← gets (λ c. c.channel.room_map)
      elim (lookup ui.title_buffer rooms) [ none ↦ request | some r ↦ pure tt ]) in
    if length ui.title_buffer == 0 then pure tt else asked
