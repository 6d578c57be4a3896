-- ===== src/Server/Send/Delivery.antt =====
-- Who gets a packet that is sent to all.
use network_omok.Base.{
  ◌≡◌, ◌∙◌, refl, sym, append_assoc, append-nil, Bool-cases, inl, inr, Bool, true, false, some,
  List, [], ◌∷◌, ◌++◌, ◌==◌, if◌then◌else◌, arith,
}
use network_omok.Server.{Address, User, Message, Server}
use network_omok.Server.Send.{wsa_send, send_all, broad_cast, send_others, broad_cast_except_me}

-- The packets for the connected sessions whose link works, in the order of the sessions.
abbrev pub delivered : (Address → Bool) → List (Address × User) → Message → List (Address × Message)
delivered link [] m = []
delivered link ((a, u) ∷ us) m =
    if u.is_connect
    then (if link a then (a, m) ∷ delivered link us m else delivered link us m)
    else delivered link us m

-- The packets for the sessions but one whose link works, connected or not.
abbrev delivered_others :
    (Address → Bool) → Address → List (Address × User) → Message → List (Address × Message)
delivered_others link me [] m = []
delivered_others link me ((a, u) ∷ us) m =
    if a == me
    then delivered_others link me us m
    else (if link a then (a, m) ∷ delivered_others link me us m else delivered_others link me us m)

-- What one session adds, whether it is asked to be connected or not.
sent-step :
    (b : Bool) (a : Address) (m : Message) (s : Server) (rest : List (Address × Message))
    → ((if b then wsa_send a m s else s).sent ++ rest
        ≡ s.sent ++ (if b then (if s.link a then (a, m) ∷ rest else rest) else rest))
      × ((if b then wsa_send a m s else s).link ≡ s.link)
sent-step false a m s rest = (refl, refl)
sent-step true a m s rest = elim (Bool-cases (s.link a)) [
  | inl up ↦ (grind (arith, append_assoc s.sent ((a, m) ∷ []) rest), ground arith)
  | inr down ↦ (ground arith, ground arith)
]

send_all-Sent :
    (us : List (Address × User)) (m : Message) (s : Server)
    → ((send_all us m s).sent ≡ s.sent ++ delivered s.link us m) × ((send_all us m s).link ≡ s.link)
unfolding send_all
send_all-Sent [] m s = (sym (append-nil s.sent), refl)
send_all-Sent ((a, u) ∷ us) m s =
    let step = sent-step u.is_connect a m s (delivered s.link us m) in
    let rest = send_all-Sent us m (if u.is_connect then wsa_send a m s else s) in
    (rw (rest.0, step.1) step.0, rest.1 ∙ step.1)

other-step :
    (b : Bool) (a : Address) (m : Message) (s : Server) (rest : List (Address × Message))
    → ((if b then s else wsa_send a m s).sent ++ rest
        ≡ s.sent ++ (if b then rest else (if s.link a then (a, m) ∷ rest else rest)))
      × ((if b then s else wsa_send a m s).link ≡ s.link)
other-step true a m s rest = (refl, refl)
other-step false a m s rest = sent-step true a m s rest

send_others-Sent :
    (me : Address) (us : List (Address × User)) (m : Message) (s : Server)
    → ((send_others me us m s).sent ≡ s.sent ++ delivered_others s.link me us m)
      × ((send_others me us m s).link ≡ s.link)
unfolding send_others
send_others-Sent me [] m s = (sym (append-nil s.sent), refl)
send_others-Sent me ((a, u) ∷ us) m s =
    let step = other-step (a == me) a m s (delivered_others s.link me us m) in
    let rest = send_others-Sent me us m (if a == me then s else wsa_send a m s) in
    (rw (rest.0, step.1) step.0, rest.1 ∙ step.1)

-- What BroadCast adds to the packets sent is one copy for each connected session whose link works, in
-- the order of the session list.
pub broad_cast-Sent :
    (m : Message) (s : Server)
    → (t : Server) × (broad_cast m s ≡ some (tt, t))
      × (t.sent ≡ s.sent ++ delivered s.link s.sessions m)
unfolding broad_cast
broad_cast-Sent m s = (send_all s.sessions m s, refl, (send_all-Sent s.sessions m s).0)

-- BroadCastExceptMe adds one copy for each session but the user's own whose link
-- works, connected or not, in the order of the session list.
broad_cast_except_me-Sent :
    (me : Address) (m : Message) (s : Server)
    → (t : Server) × (broad_cast_except_me me m s ≡ some (tt, t))
      × (t.sent ≡ s.sent ++ delivered_others s.link me s.sessions m)
unfolding broad_cast_except_me
broad_cast_except_me-Sent me m s =
    (send_others me s.sessions m s, refl, (send_others-Sent me s.sessions m s).0)
