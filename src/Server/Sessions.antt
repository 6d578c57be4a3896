-- ===== src/Server/Sessions.antt =====
-- Project/NetLib/SessionManager.h and .cpp (CreateNewSession, RemoveSession) with Session::OnCreate
-- and the loop of RemoveSession::Run: how sessions come and go.
use network_omok.Base.{
  modify, pure, ◌>>=◌, ◌>>◌, Bool, true, false, List, [], ◌∷◌, ◌==◌, if◌then◌else◌,
}
use network_omok.Server.{Address, User, M, load_user}
use network_omok.Server.Leave.{event_before_delete}

-- User(client), and connected by OnCreate.
abbrev new_user : User
new_user = record {
  is_connect = true;
  is_login = false;
  is_in_room = false;
  room_title = [];
  id = [];
}

-- SessionManager::CreateNewSession, at the address that `new` has given.
unfoldable pub create_new_session : Address → M (Unit {0})
create_new_session a = modify (λ s. record s { sessions = (a, new_user) ∷ s.sessions })

-- The session out of the list, and its object deleted.
drop_session : Address → List (Address × User) → List (Address × User)
drop_session a [] = []
drop_session a ((b, u) ∷ rest) = if b == a then rest else (b, u) ∷ drop_session a rest

-- SessionManager::RemoveSession
unfoldable pub remove_session : Address → M (Unit {0})
unfolding drop_session
remove_session a = do
  event_before_delete a
  modify (λ s. record s { sessions = drop_session a s.sessions })

-- What RemoveSession::Run does to one session: it goes when it is not connected. That no transfer
-- is under way is the argument.
unfoldable pub sweep : Bool → Address → M (Unit {0})
unfolding remove_session
sweep is_end_io a = do
  user ← load_user a
  if user.is_connect then pure tt else (if is_end_io then remove_session a else pure tt)
