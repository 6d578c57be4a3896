-- ===== src/Client/Dispatch/Keep.antt =====
-- What the parts of the handlers of Project/DXClient/ClientServer.cpp do to the flag of the game
-- scene and to m_pScene and m_pPrevScene.
use network_omok.Base.{
  ◌>>=◌, bind-eq-some, pure, deref, text_eq, if◌then◌else◌, ◌≡◌, ◌⊎◌, Bool, true, false, Option,
  some, WString, arith,
}
use network_omok.Client.{
  Player, GameScene, RoomUi, ChannelScene, channel_scene, Client, Action, the_channel, the_player,
  load_player, store_player, load_scene, store_scene, update_channel, my_name, change_scene,
}
use network_omok.Server.{Address}
use network_omok.Client.Rooms.{update_room}
use network_omok.Client.Exits.{win_by_exit, stay_in_scene, leave_scene, close_room, pass_host}

-- A client that has logged in has its channel behind it, and in front of it unless it is in a game
-- scene.
abbrev pub IsHome : Client → Type 0
IsHome c =
    (c.is_login ≡ false)
    ⊎ ((c.prev_scene ≡ channel_scene) × ((c.is_game_scene ≡ true) ⊎ (c.scene ≡ channel_scene)))

-- An action keeps this.
abbrev pub Keeps : {A : Type 0} → Action A → Type 0
Keeps {A} m = (c d : Client) (x : A) → IsHome c → m c ≡ some (x, d) → IsHome d

pub Keeps-bind :
    {A B : Type 0} (m : Action A) (f : A → Action B)
    → Keeps m
    → ((x : A) → Keeps (f x))
    → Keeps (m >>= f)
Keeps-bind m f first rest c d b home e =
    let (x, u, went, e') = bind-eq-some m f c d b e in rest x u d b (first c u x home went) e'

pub done-Keeps : Keeps (pure (tt {0}))
done-Keeps c d x home e = ground arith

pub choice-Keeps :
    (b : Bool) (m k : Action (Unit {0})) → Keeps m → Keeps k → Keeps (if b then m else k)
choice-Keeps true m k one other = one
choice-Keeps false m k one other = other

pub the_channel-Keeps : Keeps the_channel
the_channel-Keeps c d x home e = ground arith

pub update_room-Keeps : (title : WString) (f : RoomUi → RoomUi) → Keeps (update_room title f)
update_room-Keeps title f c d x home e = ground arith

pub update_channel-Keeps : (f : ChannelScene → ChannelScene) → Keeps (update_channel f)
update_channel-Keeps f c d x home e = ground arith

pub the_player-Keeps : (id : WString) → Keeps (the_player id)
the_player-Keeps id c d x home e = ground arith

pub load_player-Keeps : (a : Address) → Keeps (load_player a)
load_player-Keeps a c d x home e = ground arith

pub store_player-Keeps : (a : Address) (f : Player → Player) → Keeps (store_player a f)
store_player-Keeps a f c d x home e = ground arith

pub load_scene-Keeps : (a : Address) → Keeps (load_scene a)
load_scene-Keeps a c d x home e = ground arith

pub store_scene-Keeps : (a : Address) (f : GameScene → GameScene) → Keeps (store_scene a f)
store_scene-Keeps a f c d x home e = ground arith

pub deref-Keeps : (o : Option Address) → Keeps (deref o)
deref-Keeps o c d x home e = ground arith

pub my_name-Keeps : Keeps my_name
my_name-Keeps c d x home e = ground arith

to_channel-Keeps : Keeps (change_scene channel_scene)
to_channel-Keeps c d x home e = ground arith

win_by_exit-Keeps : (a : Address) → Keeps (win_by_exit a)
unfolding win_by_exit
win_by_exit-Keeps a c d x home e = ground arith

pub stay_in_scene-Keeps : (a scene : Address) → Keeps (stay_in_scene a scene)
unfolding stay_in_scene
stay_in_scene-Keeps a scene = Keeps-bind _ _ (win_by_exit-Keeps a) (λ _. store_scene-Keeps scene _)

pub leave_scene-Keeps : (a scene : Address) → Keeps (leave_scene a scene)
unfolding leave_scene
leave_scene-Keeps a scene c d x home e = ground arith

pub close_room-Keeps :
    (title exit : WString) (scene : Address) → Keeps (close_room title exit scene)
unfolding close_room
close_room-Keeps title exit scene c d x home e = ground arith

pub pass_host-Keeps :
    (title exit id : WString) (scene : Address) → Keeps (pass_host title exit id scene)
unfolding pass_host
pass_host-Keeps title exit id scene = Keeps-bind _ _ (update_room-Keeps title _) (λ _.
    Keeps-bind _ _ (update_room-Keeps title _) (λ _. Keeps-bind _ _ (the_player-Keeps id) (λ a.
      Keeps-bind _ _ (store_player-Keeps a _) (λ _. Keeps-bind _ _ (store_scene-Keeps scene _) (λ _.
        Keeps-bind _ _ my_name-Keeps (λ me.
          Keeps-bind _ _
            (choice-Keeps (text_eq me exit) _ _
              (Keeps-bind _ _ (store_scene-Keeps scene _) (λ _. to_channel-Keeps)) done-Keeps)
            (λ _.
              choice-Keeps (text_eq me id) _ _
                (Keeps-bind _ _ (store_scene-Keeps scene _) (λ _. win_by_exit-Keeps a))
                done-Keeps)))))))
