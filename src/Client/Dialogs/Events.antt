-- ===== src/Client/Dialogs/Events.antt =====
-- A dialog over the events that come to it, and what it sends.
use network_omok.Base.{
  ◌≡◌, ◌∙◌, refl, ap, sym, some, List, [], ◌∷◌, ◌++◌, map, append_assoc, append-nil, arith, ◌>>=◌,
  pure,
}
use network_omok.Client.{Client, Action}
use network_omok.Wire.{ClientPacket, message_of}

map-append :
    (xs ys : List ClientPacket) → map message_of (xs ++ ys) ≡ map message_of xs ++ map message_of ys
map-append [] ys = refl
map-append (x ∷ xs) ys = ap (λ ms. message_of x ∷ ms) (map-append xs ys)

module _ {E U : Type 0} (step : E → U → Action U) where
  -- The events, one after the other.
  pub run : List E → U → Action U
  run [] ui = pure ui
  run (e ∷ es) ui = do v ← step e ui; run es v

  -- The events that are allowed, a property of the dialog, and one of the packets that it sends.
  module _ (Allowed : E → Type 0) (Valid : U → Type 0) (Good : ClientPacket → Type 0) where
    abbrev pub AllAllowed : List E → Type 0
    AllAllowed [] = Unit {0}
    AllAllowed (e ∷ es) = Allowed e × AllAllowed es

    abbrev pub AllGood : List ClientPacket → Type 0
    AllGood [] = Unit {0}
    AllGood (pk ∷ pks) = Good pk × AllGood pks

    AllGood-append : (xs ys : List ClientPacket) → AllGood xs → AllGood ys → AllGood (xs ++ ys)
    AllGood-append [] ys h k = k
    AllGood-append (x ∷ xs) ys h k = (h.0, AllGood-append xs ys h.1 k)

    -- An action ends, with a valid dialog, and has sent good packets and nothing else.
    abbrev pub Sends : Action U → Client → Type 0
    Sends action c =
        (v : U) × (d : Client) × (pks : List ClientPacket) × (action c ≡ some (v, d))
        × Valid v
        × (d.sent ≡ c.sent ++ map message_of pks)
        × AllGood pks

    -- If each step does so, then every run does.
    pub run-Sends :
        ((e : E) (ui : U) (c : Client) → Valid ui → Allowed e → Sends (step e ui) c)
        → (es : List E) (ui : U) (c : Client) → Valid ui
        → AllAllowed es
        → Sends (run es ui) c
    unfolding run
    run-Sends steps [] ui c h ok = (ui, c, [], refl, h, sym (append-nil c.sent), tt)
    run-Sends steps (e ∷ es) ui c h ok =
        let (v, d, first, went, valid, sent, good) = steps e ui c h ok.0 in
        let (w, d', more, rest, valid', sent', good') = run-Sends steps es v d valid ok.1 in
        (
          w,
          d',
          first ++ more,
          ground (arith, went, rest),
          valid',
          sent'
              ∙ (ap (λ ms. ms ++ map message_of more) sent
                  ∙ (append_assoc c.sent (map message_of first) (map message_of more)
                      ∙ ap (λ ms. c.sent ++ ms) (sym (map-append first more)))),
          AllGood-append first more good good',
        )
