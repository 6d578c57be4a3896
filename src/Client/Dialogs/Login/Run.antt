-- ===== src/Client/Dialogs/Login/Run.antt =====
-- Project/DXClient/LoginUI.cpp: the login dialog over any frames and clicks.
use network_omok.Base.{
  ℕ, ◌<◌, ◌≡◌, refl, sym, false, ◌&&◌, ◌||◌, some, List, [], ◌∷◌, ◌++◌, map, WString, length,
  length-append, arith, ◌==◌, Bool-cases, inl, inr, append-nil, subst, deref,
}
use network_omok.Net.Packet.{wide}
use network_omok.Net.Packet.Items.{item_bytes}
use network_omok.Server.{Float}
use network_omok.Client.{Client, Action}
use network_omok.Wire.{ClientPacket, login_packet, message_of}
use network_omok.Wire.Serve.Run.{AllSendable}
use network_omok.Client.Dialogs.{Keys, across, down}
use network_omok.Client.Dialogs.Events.{run, AllAllowed, AllGood, Sends, run-Sends}
use network_omok.Client.Dialogs.Typing.{IsField, length-field, AllKeys-IsText}
use network_omok.Client.Dialogs.Login.{
  LoginUi, input_key_check, check_areas, check_login_area, login_rect, account_rect, hit_select,
}
use network_omok.Client.Dialogs.Login.Fields.{IsTyping, input_key_check-IsTyping}

-- What happens to the dialog: a frame with its keys, and a click.
pub data Event : Type 0 where
  frame : Keys → Event
  click : ℕ × ℕ → Event

pub step : Event → LoginUi → Action LoginUi
step (frame keys) ui = deref (input_key_check keys ui)
step (click at) ui = hit_select at ui

-- No click on the button for a new account.
abbrev pub StaysHere : Event → Type 0
StaysHere (frame keys) = Unit {0}
StaysHere (click at) = across account_rect at.0 && down account_rect at.1 ≡ false

-- A login packet with an id and a password.
abbrev pub IsLogin : ClientPacket → Type 0
IsLogin pk =
    (id : WString) × (ps : WString) × (pk ≡ login_packet id ps)
    × IsField 10 id
    × IsField 10 ps
    × (0 < length id)
    × (0 < length ps)

hit_select-Sends :
    (at : ℕ × ℕ) (ui : LoginUi) (c : Client)
    → IsTyping ui
    → StaysHere (click at)
    → Sends step StaysHere IsTyping IsLogin (hit_select at ui) c
unfolding hit_select check_areas check_login_area
hit_select-Sends at ui c h away =
    elim (Bool-cases (across login_rect at.0 && down login_rect at.1)) [
      | inr beside ↦ (
        check_areas at ui,
        c,
        [],
        ground (arith, away, beside),
        record { id = h.id; ps = h.ps; stars = h.stars },
        sym (append-nil c.sent),
        tt,
      )
      | inl on ↦ elim (Bool-cases (length ui.id_buffer == 0 || length ui.ps_buffer == 0)) [
        | inl blank ↦ (
          check_areas at ui,
          c,
          [],
          ground (arith, away, on, blank),
          record { id = h.id; ps = h.ps; stars = h.stars },
          sym (append-nil c.sent),
          tt,
        )
        | inr filled ↦ (
          check_areas at ui,
          record c {
            sent = c.sent ++ (message_of (login_packet ui.id_buffer ui.ps_buffer) ∷ []);
            is_login_scene = false;
          },
          login_packet ui.id_buffer ui.ps_buffer ∷ [],
          ground (arith, away, on, filled),
          record { id = h.id; ps = h.ps; stars = h.stars },
          refl,
          (
            (
              ui.id_buffer,
              ui.ps_buffer,
              refl,
              h.id,
              h.ps,
              ground (arith, filled),
              ground (arith, filled),
            ),
            tt,
          ),
        )
      ]
    ]

login-sendable :
    (bits : Float → ℕ) (id ps : WString) (pks : List ClientPacket)
    → IsField 10 id
    → IsField 10 ps
    → AllSendable bits pks
    → AllSendable bits (login_packet id ps ∷ pks)
login-sendable bits id ps pks a b rest = (
  (AllKeys-IsText id a.keys_only, (AllKeys-IsText ps b.keys_only, tt)),
  omega (
    arith,
    length-append (item_bytes (wide id)) (item_bytes (wide ps) ++ []),
    length-append (item_bytes (wide ps)) [],
    length-field id,
    length-field ps,
    a.bounded,
    b.bounded,
  ),
  rest,
)

logins-AllSendable :
    (bits : Float → ℕ) (pks : List ClientPacket)
    → AllGood step StaysHere IsTyping IsLogin pks
    → AllSendable bits pks
logins-AllSendable bits [] h = tt
logins-AllSendable bits (pk ∷ pks) ((id, ps, e, a, b, _, _), rest) =
    subst (λ p. AllSendable bits (p ∷ pks)) (sym e)
      (login-sendable bits id ps pks a b (logins-AllSendable bits pks rest))

step-Sends :
    (e : Event) (ui : LoginUi) (c : Client)
    → IsTyping ui
    → StaysHere e
    → Sends step StaysHere IsTyping IsLogin (step e ui) c
unfolding step
step-Sends (frame keys) ui c h away =
    let (v, e, typing) = input_key_check-IsTyping keys ui h in
    (v, c, [], ground (arith, e), typing, sym (append-nil c.sent), tt)
step-Sends (click at) ui c h away = hit_select-Sends at ui c h away

-- From a dialog whose fields are in order, any frames and any clicks but on the button for a new
-- account, which is undefined: nothing undefined happens, so there is always a star to erase, the
-- fields stay in order, letters and digits and fewer than 46 of them, with a star for each character
-- of the password, and what is sent are login packets with such an id and password, none of them
-- empty, which fit into a packet and have no zero in them.
pub run-Logins :
    (bits : Float → ℕ) (es : List Event) (ui : LoginUi) (c : Client)
    → IsTyping ui
    → AllAllowed step StaysHere IsTyping IsLogin es
    → (v : LoginUi) × (d : Client) × (pks : List ClientPacket) × (run step es ui c ≡ some (v, d))
      × IsTyping v
      × (d.sent ≡ c.sent ++ map message_of pks)
      × AllGood step StaysHere IsTyping IsLogin pks
      × AllSendable bits pks
run-Logins bits es ui c h away =
    let (v, d, pks, went, typing, sent, good) =
      run-Sends step StaysHere IsTyping IsLogin step-Sends es ui c h away in
    (v, d, pks, went, typing, sent, good, logins-AllSendable bits pks good)
