-- ===== src/Client.antt =====
-- The state of a client of Project/DXClient: the objects of Player.h, GameScene.h, RoomUI.h and
-- ChannelScene.h, the flags of ClientServer.h and the two pointers of Scene. Pointers to players and
-- to game scenes are addresses. There is one ChannelScene, made at the login, whose pointer is the
-- constructor `channel_scene`. Drawing, sound and message boxes are left out.
pub mod Rooms
pub mod Columns
pub mod Dialogs
pub mod Lobby
pub mod Play
pub mod Exits
pub mod Buttons
pub mod Dispatch
mod Tests
pub mod Ground
use network_omok.Base.{
  ℕ, ◌+◌, ◌≡◌, Bool, true, false, Option, none, some, List, [], ◌∷◌, ◌++◌, ◌==◌, if◌then◌else◌,
  WString, Assoc, State, ◌>>=◌, ◌>>◌, undefined, gets, modify, deref, pure, lookup, insert,
}
use network_omok.Server.{Float, Message, Address}
use network_omok.Omok.{Pos}

-- struct UserInfo
pub record UserInfo : Type 0 where
  pub name : WString
  pub total_play_game_count : ℕ
  pub win_game_count : ℕ
  pub lose_game_count : ℕ
  pub win_rate : Float

pub record Player : Type 0 where
  pub info : UserInfo
  pub is_game_scene : Bool
  pub is_playing_game : Bool
  pub player_in_game_scene : Option Address

-- enum class StoneType
pub data StoneType : Type 0 where
  black white : StoneType

-- `m_omokPair` without the positions of its cells, and `m_stones` of the OmokGround: each stone by
-- its colour and its cell.
pub record GameScene : Type 0 where
  pub taken : ℕ → ℕ → Bool
  pub stones : List (StoneType × Pos)
  pub host_player : Option Address
  pub enter_player : Option Address
  pub title_name : WString
  pub is_ready : Bool
  pub is_host : Bool
  pub is_game_start : Bool
  pub is_my_turn : Bool

pub data Texture : Type 0 where
  wait_texture play_texture : Texture

-- `room_num` is the number that the row shows, and `location` the height at which it is drawn.
pub record RoomUi : Type 0 where
  pub obj_num : ℕ
  pub room_num : ℕ
  pub title : WString
  pub host : WString
  pub player_count : WString
  pub room_index : ℕ
  pub location : ℕ
  pub texture : Texture

-- `shown` is what m_playerInfoBuffer shows, and `ui_obj_list` the numbers of the rooms' rows.
pub record ChannelScene : Type 0 where
  pub room_map : Assoc RoomUi
  pub ui_obj_list : List ℕ
  pub obj_count : ℕ
  pub player : Address
  pub shown : UserInfo

-- What Scene::m_pScene and Scene::m_pPrevScene point to.
pub data ScenePointer : Type 0 where
  null login_scene account_scene channel_scene : ScenePointer
  game_scene : Address → ScenePointer

pub record Client : Type 0 where
  pub is_login_scene : Bool
  pub is_login : Bool
  pub is_game_scene : Bool
  pub scene : ScenePointer
  pub prev_scene : ScenePointer
  pub channel : ChannelScene
  pub players : Address → Option Player
  pub scenes : Address → Option GameScene
  -- The next addresses that `new` gives.
  pub next_player : Address
  pub next_scene : Address
  pub player_map : Assoc Address
  pub sent : List Message

abbrev pub Action : Type 0 → Type 0
Action A = State Client A

abbrev pub put_at : {A : Type 0} → (Address → Option A) → Address → Option A → Address → Option A
put_at heap a v b = if a == b then v else heap b

abbrev pub load_player : Address → Action Player
load_player a c = elim (c.players a) [ none ↦ none | some p ↦ some (p, c) ]

abbrev pub store_player : Address → (Player → Player) → Action (Unit {0})
store_player a f c = elim (c.players a) [
  | none ↦ none
  | some p ↦ some (tt, record c { players = put_at c.players a (some (f p)) })
]

abbrev pub load_scene : Address → Action GameScene
load_scene a c = elim (c.scenes a) [ none ↦ none | some g ↦ some (g, c) ]

abbrev pub store_scene : Address → (GameScene → GameScene) → Action (Unit {0})
store_scene a f c = elim (c.scenes a) [
  | none ↦ none
  | some g ↦ some (tt, record c { scenes = put_at c.scenes a (some (f g)) })
]

-- `new Player(…)`
abbrev pub allocate_player : UserInfo → Action Address
allocate_player info c = some (
  c.next_player,
  record c {
    players = put_at c.players c.next_player (
        some (record {
          info = info;
          is_game_scene = false;
          is_playing_game = false;
          player_in_game_scene = none;
        }));
    next_player = c.next_player + 1;
  },
)

-- GameScene() and CreateOmokDistance of its Init, which sets m_isMyTurn only for a host: here false.
abbrev pub new_scene : GameScene
new_scene = record {
  taken = λ y x. false;
  stones = [];
  host_player = none;
  enter_player = none;
  title_name = [];
  is_ready = false;
  is_host = false;
  is_game_start = false;
  is_my_turn = false;
}

-- `new GameScene()` and its Init
abbrev pub allocate_scene : Action Address
allocate_scene c = some (
  c.next_scene,
  record c {
    scenes = put_at c.scenes c.next_scene (some new_scene);
    next_scene = c.next_scene + 1;
  },
)

-- PlayerManager::FindPlayer; `none` is nullptr.
abbrev pub find_player : WString → Action (Option Address)
find_player id = gets (λ c. lookup id c.player_map)

-- The player that the caller dereferences without a test.
abbrev pub the_player : WString → Action Address
the_player id = do found ← find_player id; deref found

-- PlayerManager::InsertPlayer
abbrev pub insert_player : WString → Address → Action (Unit {0})
insert_player id a = modify (λ c. record c { player_map = insert id a c.player_map })

-- static_cast<ChannelScene*> of a scene pointer.
abbrev as_channel : ScenePointer → Action ChannelScene
as_channel channel_scene = gets (λ c. c.channel)
as_channel _ = undefined

-- `if (!m_isGameScene) … m_pScene else … m_pPrevScene` at the start of the handlers.
abbrev pub the_channel : Action ChannelScene
the_channel = do c ← gets (λ c. if c.is_game_scene then c.prev_scene else c.scene); as_channel c

-- static_cast<ChannelScene*>(Scene::m_pScene) without a test of the flags.
abbrev pub scene_channel : Action ChannelScene
scene_channel = do p ← gets (λ c. c.scene); as_channel p

abbrev pub update_channel : (ChannelScene → ChannelScene) → Action (Unit {0})
update_channel f = modify (λ c. record c { channel = f c.channel })

-- `pCs->GetPlayer()->GetPlayerInfo().m_name`
abbrev pub my_name : Action WString
my_name = do me ← gets (λ c. c.channel.player); player ← load_player me; pure player.info.name

-- static_cast<GameScene*>(Scene::m_pScene)
abbrev as_game : ScenePointer → Action Address
as_game (game_scene a) = pure a
as_game _ = undefined

abbrev pub the_game : Action Address
the_game = do p ← gets (λ c. c.scene); as_game p

-- Scene::ChangeScene as far as it moves the pointer.
abbrev pub change_scene : ScenePointer → Action (Unit {0})
change_scene p = modify (λ c. record c { scene = p })

abbrev pub set_playing : Bool → Player → Player
set_playing value p = record p { is_playing_game = value }

abbrev pub set_in_game_scene : Bool → Player → Player
set_in_game_scene value p = record p { is_game_scene = value }

abbrev pub set_game_scene : Option Address → Player → Player
set_game_scene scene p = record p { player_in_game_scene = scene }

-- AsyncIO::SendPacket
abbrev pub send_packet : Message → Action (Unit {0})
send_packet m = modify (λ c. record c { sent = c.sent ++ (m ∷ []) })
