-- ===== src/Server.antt =====
-- The state of the game server: the objects of Project/DXServer (UserInfoDB of OdbcContents.h,
-- Player, Room, RoomManager, PlayerManager and User), the packets that it sends, and the monad of
-- its handlers. Pointers to players and users are addresses; reading through a null or a dangling
-- one, or outside of the board, is undefined in C++ and ends a handler with `none`.
pub mod Dispatch
pub mod Frame
pub mod Game
pub mod Leave
pub mod Login
pub mod Players
pub mod Requests
pub mod Rooms
pub mod Send
pub mod Sessions
mod Tests
use network_omok.Base.{
  ℕ, ◌+◌, ◌≡◌, Bool, true, false, Option, none, some, List, [], ◌∷◌, ◌==◌, if◌then◌else◌, WString,
  Assoc, State,
}
use network_omok.Omok.{Board}
use network_omok.Protocol.{OmProtocol}

-- A `float` by the expression that computes it; its rounding is a function of that.
pub data Float : Type 0 where
  of_database : ℕ → Float
  of_int : ℕ → Float
  float_div float_mul : Float → Float → Float

pub record UserInfoDb : Type 0 where
  pub id : WString
  pub total_play_count : ℕ
  pub win_game_count : ℕ
  pub lose_game_count : ℕ
  pub win_rate : Float

abbrev pub Address : Type 0
Address = ℕ

pub record Player : Type 0 where
  pub info : UserInfoDb
  pub client : Address
  pub is_play_game : Bool
  pub player_scene : ℕ
  pub omok : Board

pub record Room : Type 0 where
  pub room_index : ℕ
  pub player_count : ℕ
  pub host_player : Option Address
  pub enter_player : Option Address
  pub is_play_game : Bool
  pub room_title_name : WString
  pub room_ps : WString

-- The fields of User, and `m_isConnect` of Session.
pub record User : Type 0 where
  pub is_connect : Bool
  pub is_login : Bool
  pub is_in_room : Bool
  pub room_title : WString
  pub id : WString

-- What `operator<<` has put into a packet.
pub data Field : Type 0 where
  int32 uint32 : ℕ → Field
  float : Float → Field
  text : WString → Field

pub record Message : Type 0 where
  pub protocol : OmProtocol
  pub fields : List Field

-- The stored procedures that a handler has run and that write: UpdateLogout and UserInfoUpdate.
pub data DbCall : Type 0 where
  update_logout : WString → DbCall
  update_user_info : WString → ℕ → ℕ → ℕ → Float → DbCall

pub record Server : Type 0 where
  -- The sessions in the order of their list, each with its address.
  pub sessions : List (Address × User)
  -- The live Player objects, and the next address that `new` gives.
  pub heap : Address → Option Player
  pub next_address : Address
  pub player_map : Assoc Address
  pub room_map : Assoc Room
  pub room_count : ℕ
  -- Whether WSASend succeeds on the socket of a session: the network's choice.
  pub link : Address → Bool
  pub sent : List (Address × Message)
  pub db_calls : List DbCall

abbrev pub M : Type 0 → Type 0
M A = State Server A

abbrev update : (Address → Option Player) → Address → Player → Address → Option Player
update heap a p b = if a == b then some p else heap b

-- A player is read and written through its address.
abbrev pub load : Address → M Player
load a s = elim (s.heap a) [ none ↦ none | some p ↦ some (p, s) ]

abbrev pub store : Address → (Player → Player) → M (Unit {0})
store a f s = elim (s.heap a) [
  | none ↦ none
  | some p ↦ some (tt, record s { heap = update s.heap a (f p) })
]

-- The user object of a session.
abbrev pub find_session : Address → List (Address × User) → Option User
find_session a [] = none
find_session a ((b, u) ∷ rest) = if b == a then some u else find_session a rest

abbrev pub set_session : Address → (User → User) → List (Address × User) → List (Address × User)
set_session a f [] = []
set_session a f ((b, u) ∷ rest) = if b == a then (b, f u) ∷ rest else (b, u) ∷ set_session a f rest

abbrev pub load_user : Address → M User
load_user a s = elim (find_session a s.sessions) [ none ↦ none | some u ↦ some (u, s) ]

abbrev pub store_user : Address → (User → User) → M (Unit {0})
store_user a f s = some (tt, record s { sessions = set_session a f s.sessions })
