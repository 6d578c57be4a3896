-- ===== src/Client/Dispatch/Packets.antt =====
-- ProcessRecvPacket of Project/DXClient/ClientServer.cpp and the scenes.
use network_omok.Base.{
  ℕ, ◌≡◌, ◌≢◌, refl, true, false, Option, none, some, List, [], ◌∷◌, ◌==◌, arith, undefined, deref,
  ◌>>=◌, WString, text_eq,
}
use network_omok.Protocol.{
  OmProtocol, cs_requ_account, sc_requ_account, cs_requ_login, sc_requ_login, sc_requ_player_list,
  cs_requ_create_room, sc_requ_create_room, cs_requ_room_entry, sc_requ_room_entry,
  sc_requ_player_entry, cs_requ_player_ready, sc_requ_player_ready, cs_requ_player_start,
  sc_requ_player_start, cs_requ_put_stone, sc_requ_put_stone, sc_requ_finish,
  cs_requ_player_room_exit, sc_requ_host_player_room_exit, sc_requ_enter_player_room_exit,
  sc_requ_roomlist, sc_requ_player_exit,
}
use network_omok.Server.{Field, int32, uint32, float, text, Message}
use network_omok.Server.{Address}
use network_omok.Client.{Client, Action, game_scene, the_channel, scene_channel}
use network_omok.Client.Columns.{read_rows}
use network_omok.Client.Rooms.{RoomRow}
use network_omok.Client.Lobby.{recv_create_account, recv_room_list}
use network_omok.Client.Dispatch.{
  get_text, get_int32, get_uint32, get_infos, process_fields, process_packet, process_all,
}
use network_omok.Client.Dispatch.Keep.{IsHome, Keeps, Keeps-bind, done-Keeps, choice-Keeps}
use network_omok.Client.Dispatch.Home.{
  recv_login_result-Keeps, recv_player_list-Keeps, recv_room_list-Keeps, recv_create_room-Keeps,
  recv_enter_user-Keeps, recv_host_exit-Keeps, recv_enter_exit-Keeps, recv_player_exit-Keeps,
  recv_player_ready-Keeps, recv_game_start-Keeps, recv_put_stone-Keeps, recv_finish_game-Keeps,
}

undefined-Keeps : Keeps (undefined {A = Unit {0}})
undefined-Keeps c d x home e = absurd (ground arith)

get_text-Keeps :
    (fs : List Field) (k : WString → List Field → Action (Unit {0}))
    → ((t : WString) (rest : List Field) → Keeps (k t rest))
    → Keeps (get_text fs k)
unfolding get_text
get_text-Keeps (text t ∷ rest) k keeps = keeps t rest
get_text-Keeps [] k keeps = undefined-Keeps
get_text-Keeps (int32 n ∷ rest) k keeps = undefined-Keeps
get_text-Keeps (uint32 n ∷ rest) k keeps = undefined-Keeps
get_text-Keeps (float n ∷ rest) k keeps = undefined-Keeps

get_int32-Keeps :
    (fs : List Field) (k : ℕ → List Field → Action (Unit {0}))
    → ((n : ℕ) (rest : List Field) → Keeps (k n rest))
    → Keeps (get_int32 fs k)
unfolding get_int32
get_int32-Keeps (int32 n ∷ rest) k keeps = keeps n rest
get_int32-Keeps [] k keeps = undefined-Keeps
get_int32-Keeps (text t ∷ rest) k keeps = undefined-Keeps
get_int32-Keeps (uint32 n ∷ rest) k keeps = undefined-Keeps
get_int32-Keeps (float n ∷ rest) k keeps = undefined-Keeps

get_uint32-Keeps :
    (fs : List Field) (k : ℕ → List Field → Action (Unit {0}))
    → ((n : ℕ) (rest : List Field) → Keeps (k n rest))
    → Keeps (get_uint32 fs k)
unfolding get_uint32
get_uint32-Keeps (uint32 n ∷ rest) k keeps = keeps n rest
get_uint32-Keeps [] k keeps = undefined-Keeps
get_uint32-Keeps (text t ∷ rest) k keeps = undefined-Keeps
get_uint32-Keeps (int32 n ∷ rest) k keeps = undefined-Keeps
get_uint32-Keeps (float n ∷ rest) k keeps = undefined-Keeps

read-Keeps :
    {A : Type 0} (o : Option A) (k : A → Action (Unit {0}))
    → ((x : A) → Keeps (k x))
    → Keeps (deref o >>= k)
read-Keeps none k keeps = undefined-Keeps
read-Keeps (some x) k keeps = keeps x

-- A client that has not logged in is home wherever its scene is.
recv_create_account-IsHome :
    (ret : ℕ) (c d : Client)
    → c.is_login ≡ false
    → recv_create_account ret c ≡ some (tt, d)
    → IsHome d
unfolding recv_create_account
recv_create_account-IsHome ret c d out e = ground arith

process_fields-Keeps :
    (p : OmProtocol) (fs : List Field) → p ≢ sc_requ_account → Keeps (process_fields p fs)
unfolding process_fields
process_fields-Keeps sc_requ_account fs ne = absurd (ne refl)
process_fields-Keeps sc_requ_login fs ne =
    get_int32-Keeps fs _ (λ ret rest. recv_login_result-Keeps ret _)
process_fields-Keeps sc_requ_player_list fs ne =
    get_uint32-Keeps fs _ (λ n rest. read-Keeps (get_infos n rest) _ recv_player_list-Keeps)
process_fields-Keeps sc_requ_roomlist fs ne =
    get_uint32-Keeps fs _ (λ n rest. read-Keeps (read_rows n rest) _ recv_room_list-Keeps)
process_fields-Keeps sc_requ_create_room fs ne = get_text-Keeps fs _ (λ host rest.
    choice-Keeps (text_eq host (b'N' ∷ b'o' ∷ [])) _ _ done-Keeps (
      get_text-Keeps rest _ (λ title rest'.
        get_uint32-Keeps rest' _ (λ index _. recv_create_room-Keeps host title index))))
process_fields-Keeps sc_requ_room_entry fs ne = get_int32-Keeps fs _ (λ entry rest.
    choice-Keeps (entry == 0) _ _ done-Keeps (
      get_text-Keeps rest _ (λ host rest.
        get_text-Keeps rest _ (λ enter rest.
          get_text-Keeps rest _ (λ title _. recv_enter_user-Keeps host enter title)))))
process_fields-Keeps sc_requ_host_player_room_exit fs ne = get_text-Keeps fs _ (λ title rest.
    get_text-Keeps rest _ (λ exit rest. get_int32-Keeps rest _ (λ empty_room rest.
      choice-Keeps (empty_room == 0) _ _ (recv_host_exit-Keeps title exit none)
        (get_text-Keeps rest _ (λ id _. recv_host_exit-Keeps title exit (some id))))))
process_fields-Keeps sc_requ_enter_player_room_exit fs ne =
    get_text-Keeps fs _
      (λ title rest. get_text-Keeps rest _ (λ exit _. recv_enter_exit-Keeps title exit))
process_fields-Keeps sc_requ_player_exit fs ne =
    get_text-Keeps fs _ (λ id _. recv_player_exit-Keeps id)
process_fields-Keeps sc_requ_player_ready fs ne = recv_player_ready-Keeps
process_fields-Keeps sc_requ_player_start fs ne = get_int32-Keeps fs _ (λ start rest.
    choice-Keeps (start == 0) _ _ done-Keeps (
      get_text-Keeps rest _
        (λ title rest. get_text-Keeps rest _ (λ host _. recv_game_start-Keeps title host))))
process_fields-Keeps sc_requ_put_stone fs ne = get_uint32-Keeps fs _ (λ y rest.
    get_uint32-Keeps rest _
      (λ x rest. get_uint32-Keeps rest _ (λ stone_type _. recv_put_stone-Keeps (y, x) stone_type)))
process_fields-Keeps sc_requ_finish fs ne =
    get_text-Keeps fs _
      (λ winner rest. get_text-Keeps rest _ (λ title _. recv_finish_game-Keeps winner title))
process_fields-Keeps cs_requ_account fs ne = done-Keeps
process_fields-Keeps cs_requ_login fs ne = done-Keeps
process_fields-Keeps cs_requ_create_room fs ne = done-Keeps
process_fields-Keeps cs_requ_room_entry fs ne = done-Keeps
process_fields-Keeps sc_requ_player_entry fs ne = done-Keeps
process_fields-Keeps cs_requ_player_ready fs ne = done-Keeps
process_fields-Keeps cs_requ_player_start fs ne = done-Keeps
process_fields-Keeps cs_requ_put_stone fs ne = done-Keeps
process_fields-Keeps cs_requ_player_room_exit fs ne = done-Keeps

-- A client that is home can cast the scene that its handlers choose.
pub the_channel-some :
    (c : Client) → IsHome c → c.is_login ≡ true → the_channel c ≡ some (c.channel, c)
the_channel-some c home logged = ground arith

-- Outside of a game scene this is the scene that the handlers of the two lists cast.
scene_channel-some :
    (c : Client)
    → IsHome c
    → c.is_login ≡ true
    → c.is_game_scene ≡ false
    → scene_channel c ≡ some (c.channel, c)
scene_channel-some c home logged outside = ground arith

-- In a game scene the handler of a list of rooms casts the wrong scene.
abbrev pub room_list : List Field → Message
room_list fs = record { protocol = sc_requ_roomlist; fields = fs }

cast-none :
    (o : Option (List RoomRow)) (c : Client) (a : Address)
    → c.scene ≡ game_scene a
    → (deref o >>= recv_room_list) c ≡ none
unfolding recv_room_list
cast-none none c a here = refl
cast-none (some rows) c a here = ground (arith, here)

room_list-none :
    (fs : List Field) (c : Client) (a : Address)
    → c.scene ≡ game_scene a
    → process_packet (room_list fs) c ≡ none
unfolding process_packet process_fields get_uint32
room_list-none (uint32 n ∷ rest) c a here = cast-none (read_rows n rest) c a here
room_list-none [] c a here = refl
room_list-none (text t ∷ rest) c a here = refl
room_list-none (int32 n ∷ rest) c a here = refl
room_list-none (float n ∷ rest) c a here = refl

-- No message is the answer to a request for an account.
abbrev NoAccounts : List Message → Type 0
NoAccounts [] = Unit {0}
NoAccounts (m ∷ ms) = (m.protocol ≢ sc_requ_account) × NoAccounts ms

process_all-Keeps : (ms : List Message) → NoAccounts ms → Keeps (process_all ms)
unfolding process_all
process_all-Keeps [] other = done-Keeps
process_all-Keeps (m ∷ ms) other =
    Keeps-bind _ _ (process_fields-Keeps m.protocol m.fields other.0)
      (λ _. process_all-Keeps ms other.1)

-- Whatever messages a client handles in whatever order, but for answers about accounts, if none of
-- them leads to undefined behaviour: if it has not logged in, or its channel is behind it, and in front
-- of it unless it is in a game scene, then so it is afterwards. If it has logged in then, the scene that
-- the handlers with a test of the flag choose is its channel; the scene that the handlers of the two
-- lists cast without this test is its channel outside of a game scene, and in one a list of rooms,
-- with any fields, leads to undefined behaviour.
pub process_all-IsHome :
    (ms : List Message) (c d : Client)
    → NoAccounts ms
    → IsHome c
    → process_all ms c ≡ some (tt, d)
    → IsHome d
      × (d.is_login ≡ true → the_channel d ≡ some (d.channel, d))
      × (d.is_login ≡ true → d.is_game_scene ≡ false → scene_channel d ≡ some (d.channel, d))
      × ((fs : List Field) (a : Address)
          → d.scene ≡ game_scene a
          → process_packet (room_list fs) d ≡ none)
process_all-IsHome ms c d other home e =
    let after = process_all-Keeps ms other c d tt home e in
    (
      after,
      the_channel-some d after,
      scene_channel-some d after,
      λ fs a here. room_list-none fs d a here,
    )
