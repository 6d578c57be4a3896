-- ===== src/Client/Dialogs/SignUp/Accounts.antt =====
-- The dialog for a new account over any frames and clicks.
use network_omok.Base.{
  ℕ, ◌<◌, ◌≡◌, refl, sym, subst, ◌&&◌, ◌||◌, some, List, [], ◌∷◌, ◌++◌, map, WString, length,
  length-append, arith, ◌==◌, Bool-cases, inl, inr, append-nil, deref,
}
use network_omok.Net.Packet.{wide}
use network_omok.Net.Packet.Items.{item_bytes}
use network_omok.Server.{Float}
use network_omok.Client.{Client, Action}
use network_omok.Wire.{ClientPacket, account_packet, message_of}
use network_omok.Wire.Serve.Run.{AllSendable}
use network_omok.Client.Dialogs.{Keys, Rect, across, down}
use network_omok.Client.Dialogs.Events.{run, AllAllowed, AllGood, Sends, run-Sends}
use network_omok.Client.Dialogs.Typing.{IsField, length-field, AllKeys-IsText}
use network_omok.Client.Dialogs.SignUp.{
  Input, SignUpUi, input_key_check, check_area, click_next, hit_select, id_rect, ps_rect, age_rect,
  next_rect,
}
use network_omok.Client.Dialogs.SignUp.Inputs.{IsPlaced, IsTyping, input_key_check-IsTyping}

-- What happens to the dialog: a frame with its keys, and a click.
pub data Event : Type 0 where
  frame : Keys → Event
  click : ℕ × ℕ → Event

pub step : Event → SignUpUi → Action SignUpUi
step (frame keys) ui = deref (input_key_check keys ui)
step (click at) ui = hit_select at ui

-- Every event is allowed.
abbrev pub Any : Event → Type 0
Any e = Unit {0}

-- A packet for a new account with an id, a password and an age.
abbrev pub IsAccount : ClientPacket → Type 0
IsAccount pk =
    (id : WString) × (ps : WString) × (age : WString) × (pk ≡ account_packet id ps age)
    × IsField 10 id
    × IsField 10 ps
    × IsField 2 age
    × (0 < length id)
    × (0 < length ps)
    × (0 < length age)

check_area-IsPlaced :
    (left : ℕ) (i : Input) (at : ℕ × ℕ) (r : Rect)
    → IsPlaced left i
    → IsPlaced left (check_area r at i)
unfolding check_area
check_area-IsPlaced left i at r h = record { field = h.field; placed = h.placed }

module _ (left : ℕ) where
  hit_select-Sends :
      (at : ℕ × ℕ) (ui : SignUpUi) (c : Client)
      → IsTyping left ui
      → Sends step Any (IsTyping left) IsAccount (hit_select at ui) c
  unfolding hit_select click_next
  hit_select-Sends at ui c h =
      let next : SignUpUi = record ui {
        id = check_area id_rect at ui.id;
        ps = check_area ps_rect at ui.ps;
        age = check_area age_rect at ui.age;
      } in
      let typing : IsTyping left next = record {
        id = check_area-IsPlaced left ui.id at id_rect h.id;
        ps = check_area-IsPlaced left ui.ps at ps_rect h.ps;
        age = h.age;
      } in
      elim (Bool-cases (across next_rect at.0 && down next_rect at.1)) [
        | inr beside ↦ (next, c, [], ground (arith, beside), typing, sym (append-nil c.sent), tt)
        | inl on ↦
            elim (Bool-cases
              (length ui.id.buffer == 0 || length ui.ps.buffer == 0 || length ui.age.buffer == 0)) [
                | inl blank ↦
                    (next, c, [], ground (arith, on, blank), typing, sym (append-nil c.sent), tt)
                | inr filled ↦
                    let pk = account_packet ui.id.buffer ui.ps.buffer ui.age.buffer in
                    (
                      next,
                      record c { sent = c.sent ++ (message_of pk ∷ []) },
                      pk ∷ [],
                      ground (arith, on, filled),
                      typing,
                      refl,
                      (
                        (
                          ui.id.buffer,
                          ui.ps.buffer,
                          ui.age.buffer,
                          refl,
                          h.id.field,
                          h.ps.field,
                          h.age,
                          ground (arith, filled),
                          ground (arith, filled),
                          ground (arith, filled),
                        ),
                        tt,
                      ),
                    )
              ]
      ]

  step-Sends :
      (e : Event) (ui : SignUpUi) (c : Client)
      → IsTyping left ui
      → Any e
      → Sends step Any (IsTyping left) IsAccount (step e ui) c
  unfolding step
  step-Sends (frame keys) ui c h ok =
      let (v, e, typing) = input_key_check-IsTyping left keys ui h in
      (v, c, [], ground (arith, e), typing, sym (append-nil c.sent), tt)
  step-Sends (click at) ui c h ok = hit_select-Sends at ui c h

  accounts-AllSendable :
      (bits : Float → ℕ) (pks : List ClientPacket)
      → AllGood step Any (IsTyping left) IsAccount pks
      → AllSendable bits pks
  accounts-AllSendable bits [] h = tt
  accounts-AllSendable bits (pk ∷ pks) ((id, ps, age, e, a, b, n, _, _, _), rest) =
      subst (λ p. AllSendable bits (p ∷ pks)) (sym e)
        (
          (
            AllKeys-IsText id a.keys_only,
            (AllKeys-IsText ps b.keys_only, (AllKeys-IsText age n.keys_only, tt)),
          ),
          omega (
            arith,
            length-append (item_bytes (wide id))
                (item_bytes (wide ps) ++ (item_bytes (wide age) ++ [])),
            length-append (item_bytes (wide ps)) (item_bytes (wide age) ++ []),
            length-append (item_bytes (wide age)) [],
            length-field id,
            length-field ps,
            length-field age,
            a.bounded,
            b.bounded,
            n.bounded,
          ),
          accounts-AllSendable bits pks rest,
        )

  all_allowed : (es : List Event) → AllAllowed step Any (IsTyping left) IsAccount es
  all_allowed [] = tt
  all_allowed (e ∷ es) = (tt, all_allowed es)

  -- From a dialog whose fields are in order, any frames and any clicks: nothing undefined happens, the
  -- fields stay in order, letters and digits, fewer than 46 of them and fewer than 38 for the age,
  -- each of the two texts drawn four pixels to the left for each of its characters, and what is sent
  -- are packets for new accounts with such an id, password and age, none of them empty, which fit into
  -- a packet and have no zero in them.
  pub run-Accounts :
      (bits : Float → ℕ) (es : List Event) (ui : SignUpUi) (c : Client)
      → IsTyping left ui
      → (v : SignUpUi) × (d : Client) × (pks : List ClientPacket) × (run step es ui c ≡ some (v, d))
        × IsTyping left v
        × (d.sent ≡ c.sent ++ map message_of pks)
        × AllGood step Any (IsTyping left) IsAccount pks
        × AllSendable bits pks
  run-Accounts bits es ui c h =
      let (v, d, pks, went, typing, sent, good) =
        run-Sends step Any (IsTyping left) IsAccount step-Sends es ui c h (all_allowed es) in
      (v, d, pks, went, typing, sent, good, accounts-AllSendable bits pks good)
