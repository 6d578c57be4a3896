-- ===== src/Server/Frame.antt =====
-- What sending leaves alone: all of the server but the sessions' connections and the packets sent.
use network_omok.Base.{
  ◌>>=◌, Option, some, none, inl, inr, Option-cases, ℕ, ◌≡◌, refl, List, [], ◌∷◌, arith,
  if◌then◌else◌, ◌==◌, ◌∙◌, Bool, true, false,
}
use network_omok.Server.{Player, load, Address, User, Message, Server}
use network_omok.Server.Send.{wsa_send, send_all, send_others}

-- The parts of the state that sending does not touch.
record SameData (s t : Server) : Type 0 where
  pub heap_same : t.heap ≡ s.heap
  pub player_map_same : t.player_map ≡ s.player_map
  pub room_map_same : t.room_map ≡ s.room_map
  pub room_count_same : t.room_count ≡ s.room_count
  pub db_calls_same : t.db_calls ≡ s.db_calls

wsa_send-SameData : (a : Address) (m : Message) (s : Server) → SameData s (wsa_send a m s)
wsa_send-SameData a m s = record {
  heap_same = ground arith;
  player_map_same = ground arith;
  room_map_same = ground arith;
  room_count_same = ground arith;
  db_calls_same = ground arith;
}

SameData-trans : {s t u : Server} → SameData s t → SameData t u → SameData s u
SameData-trans a b = record {
  heap_same = b.heap_same ∙ a.heap_same;
  player_map_same = b.player_map_same ∙ a.player_map_same;
  room_map_same = b.room_map_same ∙ a.room_map_same;
  room_count_same = b.room_count_same ∙ a.room_count_same;
  db_calls_same = b.db_calls_same ∙ a.db_calls_same;
}

SameData-refl : (s : Server) → SameData s s
SameData-refl s = record {
  heap_same = refl;
  player_map_same = refl;
  room_map_same = refl;
  room_count_same = refl;
  db_calls_same = refl;
}

step-SameData :
    (b : Bool) (a : Address) (m : Message) (s : Server)
    → SameData s (if b then wsa_send a m s else s)
step-SameData true a m s = wsa_send-SameData a m s
step-SameData false a m s = SameData-refl s

other-SameData :
    (b : Bool) (a : Address) (m : Message) (s : Server)
    → SameData s (if b then s else wsa_send a m s)
other-SameData true a m s = SameData-refl s
other-SameData false a m s = wsa_send-SameData a m s

send_all-SameData :
    (us : List (Address × User)) (m : Message) (s : Server) → SameData s (send_all us m s)
unfolding send_all
send_all-SameData [] m s = SameData-refl s
send_all-SameData ((a, u) ∷ us) m s =
    SameData-trans (step-SameData u.is_connect a m s) (send_all-SameData us m _)

send_others-SameData :
    (me : Address) (us : List (Address × User)) (m : Message) (s : Server)
    → SameData s (send_others me us m s)
unfolding send_others
send_others-SameData me [] m s = SameData-refl s
send_others-SameData me ((a, u) ∷ us) m s =
    SameData-trans (other-SameData (a == me) a m s) (send_others-SameData me us m _)

-- The same as equations, at the places where a handler reads the state.
module _ (us : List (Address × User)) (m : Message) (s : Server) where
  pub heap-send_all : (send_all us m s).heap ≡ s.heap
  heap-send_all = (send_all-SameData us m s).heap_same

  pub player_map-send_all : (send_all us m s).player_map ≡ s.player_map
  player_map-send_all = (send_all-SameData us m s).player_map_same

  pub room_map-send_all : (send_all us m s).room_map ≡ s.room_map
  room_map-send_all = (send_all-SameData us m s).room_map_same

  pub room_count-send_all : (send_all us m s).room_count ≡ s.room_count
  room_count-send_all = (send_all-SameData us m s).room_count_same

  pub db_calls-send_all : (send_all us m s).db_calls ≡ s.db_calls
  db_calls-send_all = (send_all-SameData us m s).db_calls_same

  pub heap-send_others : (me : Address) → (send_others me us m s).heap ≡ s.heap
  heap-send_others me = (send_others-SameData me us m s).heap_same

  pub player_map-send_others : (me : Address) → (send_others me us m s).player_map ≡ s.player_map
  player_map-send_others me = (send_others-SameData me us m s).player_map_same

  pub room_map-send_others : (me : Address) → (send_others me us m s).room_map ≡ s.room_map
  room_map-send_others me = (send_others-SameData me us m s).room_map_same

  pub room_count-send_others : (me : Address) → (send_others me us m s).room_count ≡ s.room_count
  room_count-send_others me = (send_others-SameData me us m s).room_count_same

pub ruleset sending = (
  arith, heap-send_all, player_map-send_all, room_map-send_all, room_count-send_all,
  db_calls-send_all, heap-send_others, player_map-send_others, room_map-send_others,
  room_count-send_others,
)

pub load-some : (a : Address) (s : Server) (p : Player) → s.heap a ≡ some p → load a s ≡ some (p, s)
load-some a s p live = ground (arith, live)
