-- ===== src/Client/Dispatch/Turns.antt =====
-- The two clients of a game and the messages of the stones: ProcessRecvPacket and RecvPutStone of
-- Project/DXClient/ClientServer.cpp behind ParsingRequPutStone of Project/DXServer/User.cpp.
use network_omok.Base.{
  ◌≡◌, refl, Bool, not, some, List, [], ◌∷◌, map, arith, Option-cases, inl, inr, ◌∙◌, ap, sym,
}
use network_omok.Omok.{Board}
use network_omok.Server.{Address, Message}
use network_omok.Server.Game.{put_message}
use network_omok.Client.{GameScene, game_scene, Client, put_at}
use network_omok.Client.Play.{take_stone, recv_put_stone}
use network_omok.Client.Play.Agreement.{Put, play, show, Agrees, AreStones, turn_after, show-Agrees}
use network_omok.Client.Dispatch.{process_packet, process_all}

-- The client looks at the game scene at the address, which is this one.
abbrev pub IsAt : Address → GameScene → Client → Type 0
IsAt a g c = (c.scene ≡ game_scene a) × (c.scenes a ≡ some g)

-- The message that the server sends for a stone.
abbrev pub message_of : Put → Message
message_of put = put_message put.1 put.0

process_packet-put :
    (a : Address) (g h : GameScene) (c : Client) (put : Put)
    → IsAt a g c
    → take_stone put.0 put.1 g ≡ some h
    → process_packet (message_of put) c
      ≡ some (tt, record c { scenes = put_at c.scenes a (some h) })
unfolding process_packet recv_put_stone
process_packet-put a g h c put at took = ground (arith, at.0, at.1, took)

process_all-puts :
    (puts : List Put) (a : Address) (g h : GameScene) (c : Client)
    → IsAt a g c
    → show puts g ≡ some h
    → (d : Client) × (process_all (map message_of puts) c ≡ some (tt, d)) × IsAt a h d
unfolding process_all show
process_all-puts [] a g h c at showed = (c, refl, (at.0, at.1 ∙ showed))
process_all-puts (put ∷ puts) a g h c at showed = elim (Option-cases (take_stone put.0 put.1 g)) [
  | inl refused ↦ absurd (ground arith)
  | inr (g1, took) ↦
      let c1 : Client = record c { scenes = put_at c.scenes a (some g1) } in
      let (d, went, there) =
        process_all-puts puts a g1 h c1 (at.0, ground arith) (ground (arith, took)) in
      (d, ground (arith, process_packet-put a g g1 c put at took, went), there)
]

turn_after-not :
    (puts : List Put) (turn : Bool) → turn_after puts (not turn) ≡ not (turn_after puts turn)
turn_after-not [] turn = refl
turn_after-not (put ∷ puts) turn = turn_after-not puts (not turn)

-- Two clients that look at a game of which both show the server's board, and of which exactly one
-- has the turn: when the server has taken some stones and both clients have handled the messages
-- that it sends for them, both have handled them all, both show the server's board again, and still
-- exactly one of them has the turn.
pub process_all-Agrees :
    (puts : List Put) (b b' : Board) (a a' : Address) (g g' : GameScene) (c c' : Client)
    → IsAt a g c
    → IsAt a' g' c'
    → Agrees b g
    → Agrees b g'
    → g'.is_my_turn ≡ not g.is_my_turn
    → AreStones puts
    → play puts b ≡ some b'
    → (d d' : Client) × (h h' : GameScene) × (process_all (map message_of puts) c ≡ some (tt, d))
      × (process_all (map message_of puts) c' ≡ some (tt, d'))
      × IsAt a h d
      × IsAt a' h' d'
      × Agrees b' h
      × Agrees b' h'
      × (h'.is_my_turn ≡ not h.is_my_turn)
process_all-Agrees puts b b' a a' g g' c c' at at' agree agree' turns small played =
    let (h, showed, agrees, stones, turn) = show-Agrees puts b b' g agree small played in
    let (h', showed', agrees', stones', turn') = show-Agrees puts b b' g' agree' small played in
    let (d, went, there) = process_all-puts puts a g h c at showed in
    let (d', went', there') = process_all-puts puts a' g' h' c' at' showed' in
    (
      d,
      d',
      h,
      h',
      went,
      went',
      there,
      there',
      agrees,
      agrees',
      turn' ∙ (ap (turn_after puts) turns ∙ (turn_after-not puts g.is_my_turn ∙ ap not (sym turn))),
    )
