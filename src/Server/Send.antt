-- ===== src/Server/Send.antt =====
-- Project/NetLib/Session.cpp (SendPacket, SendPacketToOtherUser, BroadCast) and User.cpp
-- (BroadCastExceptMe) as far as they decide who is sent what: a packet goes to a connected session,
-- and a failed WSASend takes its connection down. That the event of the last send comes and that the
-- send buffer has room is taken for granted here; both are modelled in Net/Send.
pub mod Delivery
use network_omok.Base.{
  ◌>>=◌, ◌>>◌, pure, undefined, ℕ, Bool, true, false, Option, none, some, List, [], ◌∷◌, ◌++◌, ◌==◌,
  if◌then◌else◌,
}
use network_omok.Server.{
  Address, User, Message, Server, M, find_session, set_session, load_user, store_user,
}

abbrev pub disconnect : User → User
disconnect u = record u { is_connect = false }

-- WSASend to one session.
abbrev pub wsa_send : Address → Message → Server → Server
wsa_send a m s =
    if s.link a
    then record s { sent = s.sent ++ ((a, m) ∷ []) }
    else record s { sessions = set_session a disconnect s.sessions }

-- SendPacketToOtherUser(packet, session); SendPacket(packet) is the same for the user itself.
abbrev pub send_packet : Address → Message → M (Unit {0})
send_packet a m = do
  u ← load_user a
  if u.is_connect then (λ s. some (tt, wsa_send a m s)) else pure tt

-- The loop of BroadCast over the sessions.
unfoldable pub send_all : List (Address × User) → Message → Server → Server
send_all [] m s = s
send_all ((a, u) ∷ rest) m s = send_all rest m (if u.is_connect then wsa_send a m s else s)

unfoldable pub broad_cast : Message → M (Unit {0})
unfolding send_all
broad_cast m s = some (tt, send_all s.sessions m s)

-- The loop of BroadCastExceptMe, which does not ask whether a session is connected.
unfoldable pub send_others : Address → List (Address × User) → Message → Server → Server
send_others me [] m s = s
send_others me ((a, u) ∷ rest) m s = send_others me rest m (if a == me then s else wsa_send a m s)

unfoldable pub broad_cast_except_me : Address → Message → M (Unit {0})
unfolding send_others
broad_cast_except_me me m s = some (tt, send_others me s.sessions m s)
