-- ===== src/Server/Game/Stone.antt =====
-- ParsingRequPutStone from its start to its end, for two players that are there.
use network_omok.Base.{
  ℕ, ◌≡◌, ◌≢◌, ◌∙◌, refl, sym, ap, Bool, true, false, some, List, [], ◌∷◌, ◌++◌, WString, arith,
  lookup, adjust, Option-cases, inl, inr,
}
use network_omok.Omok.{Board, Pos, put_stone, finished, unfinished, check_finish}
use network_omok.Server.{Address, Player, Room, User, Message, Server, find_session, set_session}
use network_omok.Server.Rooms.{is_some}
use network_omok.Server.Send.{send_packet, disconnect}
use network_omok.Server.Players.{win_game, lose_game}
use network_omok.Server.Rooms.{set_room_state}
use network_omok.Server.Game.{store_stone, put_message, stone_of, conclude, requ_put_stone}
use network_omok.Server.Game.Outcome.{SeatsAre, won, lost, saved, finish_game-Outcome}

store_stone-Outcome :
    (a : Address) (stone : ℕ) (at : Pos) (s : Server) (p : Player) (b : Board)
    → s.heap a ≡ some p
    → put_stone p.omok stone at ≡ some b
    → (t : Server) × (store_stone a stone at s ≡ some (tt, t))
      × (t.heap a ≡ some (record p { omok = b }))
      × ((c : Address) → a ≢ c → t.heap c ≡ s.heap c)
      × (t.sessions ≡ s.sessions)
      × (t.room_map ≡ s.room_map)
      × (t.db_calls ≡ s.db_calls)
unfolding store_stone
store_stone-Outcome a stone at s p b live put = elim (Option-cases (store_stone a stone at s)) [
  | inl crash ↦ absurd (ground arith)
  | inr ((x, t), went) ↦
      (t, went, ground arith, λ c ne. ground arith, ground arith, ground arith, ground arith)
]

-- Whether the session is there.
abbrev has_session : Address → List (Address × User) → Bool
has_session a us = is_some (find_session a us)

has_session-set_session :
    (a c : Address) (us : List (Address × User))
    → has_session c (set_session a disconnect us) ≡ has_session c us
has_session-set_session a c [] = refl
has_session-set_session a c ((b, u) ∷ us) = ground (arith, has_session-set_session a c us)

send_packet-Outcome :
    (a : Address) (m : Message) (s : Server)
    → has_session a s.sessions ≡ true
    → (t : Server) × (send_packet a m s ≡ some (tt, t))
      × (t.heap ≡ s.heap)
      × ((c : Address) → has_session c t.sessions ≡ has_session c s.sessions)
      × (t.room_map ≡ s.room_map)
      × (t.db_calls ≡ s.db_calls)
send_packet-Outcome a m s there = elim (Option-cases (send_packet a m s)) [
  | inl crash ↦ absurd (ground arith)
  | inr ((x, t), went) ↦ (
    t,
    went,
    ground arith,
    λ c. ground (arith, has_session-set_session a c s.sessions),
    ground arith,
    ground arith,
  )
]

requ_put_stone_steps :
    (me : Address) (put_id another_id title : WString) (at : Pos) (stone : ℕ)
    (s s1 s2 s3 s4 : Server) (put another : Address) (p q : Player)
    → lookup put_id s.player_map ≡ some put
    → lookup another_id s.player_map ≡ some another
    → store_stone put stone at s ≡ some (tt, s1)
    → store_stone another stone at s1 ≡ some (tt, s2)
    → send_packet me (put_message at stone) s2 ≡ some (tt, s3)
    → s3.heap another ≡ some q
    → send_packet q.client (put_message at stone) s3 ≡ some (tt, s4)
    → s4.heap put ≡ some p
    → requ_put_stone me put_id another_id title at stone s
      ≡ conclude title put another (check_finish p.omok (stone_of stone) at) s4
unfolding requ_put_stone
requ_put_stone_steps me put_id another_id title at stone s s1 s2 s3 s4 put another p q here there e1
      e2 e3 live' e4 live =
    ground (arith, here, there, e1, e2, e3, e4)

-- The handler up to the test for five in a row.
module _ (me : Address) (put_id another_id title : WString) (at : Pos) (stone : ℕ) (s : Server)
    (put another : Address) (p q : Player) (b c : Board)
    (put_there : lookup put_id s.player_map ≡ some put)
    (another_there : lookup another_id s.player_map ≡ some another) (ne : put ≢ another)
    (live : s.heap put ≡ some p) (live' : s.heap another ≡ some q)
    (board : put_stone p.omok stone at ≡ some b) (board' : put_stone q.omok stone at ≡ some c)
    (mine : has_session me s.sessions ≡ true)
    (theirs : has_session q.client s.sessions ≡ true) where
  requ_put_stone-conclude :
      (t : Server) × (requ_put_stone me put_id another_id title at stone s
        ≡ conclude title put another (check_finish b (stone_of stone) at) t)
      × (t.heap put ≡ some (record p { omok = b }))
      × (t.heap another ≡ some (record q { omok = c }))
      × (t.room_map ≡ s.room_map)
      × (t.db_calls ≡ s.db_calls)
  requ_put_stone-conclude =
      let (s1, e1, h1, o1, u1, r1, d1) = store_stone-Outcome put stone at s p b live board in
      let (s2, e2, h2, o2, u2, r2, d2) =
        store_stone-Outcome another stone at s1 q c (o1 another ne ∙ live') board' in
      let m = put_message at stone in
      let (s3, e3, h3, u3, r3, d3) = send_packet-Outcome me m s2 (ground (arith, u1, u2, mine)) in
      let (s4, e4, h4, u4, r4, d4) =
        send_packet-Outcome q.client m s3 (ground (arith, u3 q.client, u1, u2, theirs)) in
      (
        s4,
        requ_put_stone_steps me put_id another_id title at stone s s1 s2 s3 s4 put another
            (record p { omok = b }) (record q { omok = c }) put_there another_there e1 e2 e3
            (rw h3 h2) e4 (rw (h4, h3) (o2 put (λ e. ne (sym e)) ∙ h1)),
        rw (h4, h3) (o2 put (λ e. ne (sym e)) ∙ h1),
        rw (h4, h3) h2,
        r4 ∙ (r3 ∙ (r2 ∙ r1)),
        d4 ∙ (d3 ∙ (d2 ∙ d1)),
      )

  -- A stone put on the board by a player that is there, against another that is there, both with
  -- their sessions: if CheckFinish on the board with the stone says no, the handler returns, the
  -- stone is on both boards, and neither a room nor the database has changed.
  pub requ_put_stone-Unfinished :
      check_finish b (stone_of stone) at ≡ unfinished
      → (t : Server) × (requ_put_stone me put_id another_id title at stone s ≡ some (tt, t))
        × (t.heap put ≡ some (record p { omok = b }))
        × (t.heap another ≡ some (record q { omok = c }))
        × (t.room_map ≡ s.room_map)
        × (t.db_calls ≡ s.db_calls)
  unfolding conclude
  requ_put_stone-Unfinished goes_on =
      let (t, e, h, h', r, d) = requ_put_stone-conclude in
      (t, e ∙ ap (λ v. conclude title put another v t) goes_on, h, h', r, d)

  -- A stone put on the board by one player of a room, against the other, both with their sessions:
  -- if CheckFinish on the board with the stone says yes, the handler returns and the game is over,
  -- a win for the one and a loss for the other, empty boards, players and room no longer playing,
  -- no other room changed, and both statistics saved.
  pub requ_put_stone-Finished :
      (r : Room)
      → check_finish b (stone_of stone) at ≡ finished
      → lookup title s.room_map ≡ some r
      → SeatsAre r put another
      → (t : Server) × (requ_put_stone me put_id another_id title at stone s ≡ some (tt, t))
        × (t.heap put ≡ some (won p))
        × (t.heap another ≡ some (lost q))
        × (t.room_map ≡ adjust title (set_room_state false) s.room_map)
        × (t.db_calls ≡ s.db_calls ++ (saved (win_game p.info) ∷ saved (lose_game q.info) ∷ []))
  unfolding conclude
  requ_put_stone-Finished r wins there seats =
      let (u, e, h, h', rooms, calls) = requ_put_stone-conclude in
      let (t, went, w, l, rooms', calls') =
        finish_game-Outcome title put another u r (record p { omok = b }) (record q { omok = c }) ne
          (ap (lookup title) rooms ∙ there) seats h h' in
      (
        t,
        e ∙ (ap (λ v. conclude title put another v u) wins ∙ went),
        w,
        l,
        rooms' ∙ ap (adjust title (set_room_state false)) rooms,
        calls' ∙ ap (λ d. d ++ (saved (win_game p.info) ∷ saved (lose_game q.info) ∷ [])) calls,
      )
