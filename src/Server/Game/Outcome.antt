-- ===== src/Server/Game/Outcome.antt =====
-- What a finished game does: the boards, the statistics, the room and the calls of the database.
use network_omok.Base.{
  bind-some, ◌>>◌, ◌≡◌, ◌≢◌, ◌⊎◌, inl, inr, refl, false, some, [], ◌∷◌, ◌++◌, WString, arith,
  lookup, adjust, Option-cases, append_assoc,
}
use network_omok.Omok.{clear_omok}
use network_omok.Server.{UserInfoDb, Address, Player, Room, DbCall, update_user_info, Server, load}
use network_omok.Server.Frame.{load-some, room_map-send_all, heap-send_all, db_calls-send_all}
use network_omok.Server.Send.{broad_cast, send_all}
use network_omok.Server.Players.{win_game, lose_game}
use network_omok.Server.Rooms.{set_room_state}
use network_omok.Server.Game.{
  settle, stop_game, finish_game, save_player, save_info, finish_message,
}

-- A player that has won, and one that has lost: off the board, out of the game, the game counted.
abbrev pub won : Player → Player
won p = record p { info = win_game p.info; is_play_game = false; omok = clear_omok }

abbrev pub lost : Player → Player
lost p = record p { info = lose_game p.info; is_play_game = false; omok = clear_omok }

-- UpdateUserInfo with the statistics of a player.
abbrev pub saved : UserInfoDb → DbCall
saved i = update_user_info i.id i.total_play_count i.win_game_count i.lose_game_count i.win_rate

-- The room's two seats are those of the two players, in one order or the other.
abbrev pub SeatsAre : Room → Address → Address → Type 0
SeatsAre r put another =
    ((r.host_player ≡ some put) × (r.enter_player ≡ some another))
    ⊎ ((r.host_player ≡ some another) × (r.enter_player ≡ some put))

settle-Outcome :
    (put another : Address) (s : Server) (p q : Player)
    → put ≢ another
    → s.heap put ≡ some p
    → s.heap another ≡ some q
    → (t : Server) × (settle put another s ≡ some (tt, t))
      × (t.heap put ≡ some (record p { info = win_game p.info; omok = clear_omok }))
      × (t.heap another ≡ some (record q { info = lose_game q.info; omok = clear_omok }))
      × (t.room_map ≡ s.room_map)
      × (t.db_calls ≡ s.db_calls)
unfolding settle
settle-Outcome put another s p q ne live live' = elim (Option-cases (settle put another s)) [
  | inl crash ↦ absurd (ground arith)
  | inr ((x, t), went) ↦ (t, went, ground arith, ground arith, ground arith, ground arith)
]

stop_game-Outcome :
    (title : WString) (put another : Address) (s : Server) (r : Room) (p q : Player)
    → put ≢ another
    → lookup title s.room_map ≡ some r
    → SeatsAre r put another
    → s.heap put ≡ some p
    → s.heap another ≡ some q
    → (t : Server) × (stop_game title s ≡ some (tt, t))
      × (t.heap put ≡ some (record p { is_play_game = false }))
      × (t.heap another ≡ some (record q { is_play_game = false }))
      × (t.room_map ≡ adjust title (set_room_state false) s.room_map)
      × (t.db_calls ≡ s.db_calls)
unfolding stop_game
stop_game-Outcome title put another s r p q ne there seats live live' =
    elim (Option-cases (stop_game title s)) [
      | inl crash ↦ absurd (ground arith)
      | inr ((x, t), went) ↦ (t, went, ground arith, ground arith, ground arith, ground arith)
    ]

save_player-Outcome :
    (a : Address) (s : Server) (p : Player)
    → s.heap a ≡ some p
    → (t : Server) × (save_player a s ≡ some (tt, t))
      × (t.heap ≡ s.heap)
      × (t.room_map ≡ s.room_map)
      × (t.db_calls ≡ s.db_calls ++ (saved p.info ∷ []))
unfolding save_player save_info
save_player-Outcome a s p live = elim (Option-cases (save_player a s)) [
  | inl crash ↦ absurd (ground arith)
  | inr ((x, t), went) ↦ (t, went, ground arith, ground arith, grind arith)
]

-- A game that is won between the two players of a room ends: the handler returns, the winner has one
-- more game and one more win and the loser one more game and one more loss, both boards are empty,
-- both players and the room no longer play, no other room changes, and the statistics of the winner
-- and then those of the loser are saved.
pub finish_game-Outcome :
    (title : WString) (put another : Address) (s : Server) (r : Room) (p q : Player)
    → put ≢ another
    → lookup title s.room_map ≡ some r
    → SeatsAre r put another
    → s.heap put ≡ some p
    → s.heap another ≡ some q
    → (t : Server) × (finish_game title put another s ≡ some (tt, t))
      × (t.heap put ≡ some (won p))
      × (t.heap another ≡ some (lost q))
      × (t.room_map ≡ adjust title (set_room_state false) s.room_map)
      × (t.db_calls ≡ s.db_calls ++ (saved (win_game p.info) ∷ saved (lose_game q.info) ∷ []))
unfolding finish_game broad_cast
finish_game-Outcome title put another s r p q ne there seats live live' =
    let (s1, e1, a1, b1, rooms1, calls1) = settle-Outcome put another s p q ne live live' in
    let (s2, e2, a2, b2, rooms2, calls2) =
      stop_game-Outcome title put another s1 r _ _ ne (rw rooms1 there) seats a1 b1 in
    let m = finish_message (win_game p.info).id title in
    let s3 = send_all s2.sessions m s2 in
    let (s4, e4, heap4, rooms4, calls4) =
      save_player-Outcome put s3 (won p) (rw (heap-send_all s2.sessions m s2) a2) in
    let (s5, e5, heap5, rooms5, calls5) =
      save_player-Outcome another s4 (lost q) (rw (heap4, heap-send_all s2.sessions m s2) b2) in
    (
      s5,
      bind-some (settle put another) _ s s1 tt _ e1 (
          bind-some (load put) _ s1 s1 _ _ (load-some put s1 _ a1) (
            bind-some (stop_game title) _ s1 s2 tt _ e2 (
              bind-some (broad_cast m) (λ _. save_player put >> save_player another) s2 s3 tt _ refl
                (bind-some (save_player put) (λ _. save_player another) s3 s4 tt _ e4 e5)))),
      rw (heap5, heap4, heap-send_all s2.sessions m s2) a2,
      rw (heap5, heap4, heap-send_all s2.sessions m s2) b2,
      rw (rooms5, rooms4, room_map-send_all s2.sessions m s2, rooms2, rooms1) refl,
      rw (calls5, calls4, db_calls-send_all s2.sessions m s2, calls2, calls1)
          (append_assoc s.db_calls (saved (win_game p.info) ∷ []) (saved (lose_game q.info) ∷ [])),
    )
